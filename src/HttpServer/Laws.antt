-- ===== src/HttpServer/Laws.antt =====
-- The set of websites of a server, and `connect`.
use http_cpp.Base.{
  ℕ, ◌≡◌, refl, arith, Text, List, [], ◌∷◌, some, Bool, true, false, Outcome, ok, throw, terminate,
  undefined, Exception, Bool-cases, inl, inr, if◌then◌else◌,
}
use http_cpp.HttpService.Host.{Host, host_eq, host_lt}
use http_cpp.HttpService.HostLaws.{host_eq_iff, host_lt-IsStrictOrder}
use http_cpp.HttpServer.HttpWebsite.{
  HttpWebsite, website_lt, website_eq, website_eq_host, emplace_website, erase_website,
  find_website_by,
}
use http_cpp.HttpServer.Connect.{System, is_standard, bind_website, insert_website, connect}

pub host_lt-ne : (g h : Host) → host_lt g h ≡ true → (host_eq g h ≡ false) × (host_eq h g ≡ false)
host_lt-ne g h e = ground (
  arith,
  (host_eq_iff g h).0,
  (host_eq_iff h g).0,
  host_lt-IsStrictOrder.irrefl g,
  host_lt-IsStrictOrder.irrefl h,
)

pub host_eq_refl : (h : Host) → host_eq h h ≡ true
host_eq_refl h = (host_eq_iff h h).0.1 refl

-- A website that is put in and taken out again leaves the set as it was.
pub erase-emplace :
    (w : HttpWebsite) (ws : List HttpWebsite)
    → (emplace_website w ws).1 ≡ true
    → erase_website w (emplace_website w ws).0 ≡ ws
unfolding emplace_website erase_website website_lt website_eq
erase-emplace w [] e = rw host_eq_refl
erase-emplace w (v ∷ ws) e =
    ground (arith, erase-emplace w ws, host_eq_refl w.host_, host_lt-ne v.host_ w.host_)

-- The website is found by its host, and every other host finds what it found before.
pub find-emplace_website :
    (w : HttpWebsite) (ws : List HttpWebsite) (h : Host)
    → (emplace_website w ws).1 ≡ true
    → find_website_by h (emplace_website w ws).0
      ≡ (if host_eq w.host_ h then some w else find_website_by h ws)
unfolding emplace_website find_website_by website_lt website_eq_host
find-emplace_website w [] h e = refl
find-emplace_website w (v ∷ ws) h e = ground (
  arith,
  find-emplace_website w ws h,
  host_lt-ne v.host_ w.host_,
  (host_eq_iff v.host_ h).0,
  (host_eq_iff w.host_ h).0,
)

same_exception : (x e : Exception) → ◌≡◌ {A = Outcome (Unit {0})} (throw x) (throw e) → x ≡ e
same_exception x e h = cc

module _ (sys : System) (port : ℕ) (ws : List HttpWebsite) where
  bind_website-unchanged :
      (w : HttpWebsite) (o : Outcome (Unit {0})) (e : Exception)
      → (emplace_website w ws).1 ≡ true
      → is_standard e ≡ true
      → (bind_website w o (emplace_website w ws).0).0 ≡ throw e
      → (bind_website w o (emplace_website w ws).0).1 ≡ ws
  bind_website-unchanged w (ok u) e d s h = cc
  bind_website-unchanged w (throw x) e d s h = rw (same_exception x e h, s) (erase-emplace w ws d)
  bind_website-unchanged w terminate e d s h = cc
  bind_website-unchanged w undefined e d s h = cc

  insert_website-unchanged :
      (o : Outcome HttpWebsite) (e : Exception)
      → is_standard e ≡ true
      → (insert_website sys port o ws).0 ≡ throw e
      → (insert_website sys port o ws).1 ≡ ws
  insert_website-unchanged (ok w) e s h = elim (Bool-cases (emplace_website w ws).1) [
    | inl done ↦ rw done (bind_website-unchanged w _ e done s (rw done at h))
    | inr refused ↦ rw refused
  ]
  insert_website-unchanged (throw x) e s h = refl
  insert_website-unchanged terminate e s h = refl
  insert_website-unchanged undefined e s h = refl

-- A `connect` that throws a standard exception, for whatever reason, leaves the websites as they
-- were.
pub connect-unchanged :
    (ndebug : Bool) (sys : System) (website_path host_name : Text) (port : ℕ) (website_name : Text)
    (ws : List HttpWebsite) (e : Exception)
    → is_standard e ≡ true
    → (connect ndebug sys website_path host_name port website_name ws).0 ≡ throw e
    → (connect ndebug sys website_path host_name port website_name ws).1 ≡ ws
unfolding connect
connect-unchanged ndebug sys website_path host_name port website_name ws e s h =
    elim (Bool-cases (sys.files.exists website_path)) [
      | inl there ↦
          rw (there, connect)
            (insert_website-unchanged sys port ws _ e s (rw (there, connect) at h))
      | inr missing ↦ rw (missing, connect)
    ]
