-- ===== src/HttpServer/Websites.antt =====
-- What the set of websites holds after a successful `connect`.
use http_cpp.Base.{
  ℕ, ◌≡◌, refl, ap, arith, Text, List, [], ◌∷◌, none, some, Bool, true, false, ◌⊎◌, Option-cases,
  Outcome, ok, throw, terminate, undefined, Bool-cases, inl, inr, if◌then◌else◌, All,
}
use http_cpp.HttpService.Host.{Host, host_eq, host_lt}
use http_cpp.HttpService.HostLaws.{host_eq_iff, host_lt-IsStrictOrder}
use http_cpp.HttpServer.HttpWebsite.{
  HttpWebsite, website_lt, website_eq_host, emplace_website, find_website_by,
}
use http_cpp.HttpServer.Connect.{
  System, is_standard, http_website, bind_website, insert_website, connect,
}
use http_cpp.HttpServer.Laws.{host_lt-ne, erase-emplace, find-emplace_website}

-- Ascending in the order of hosts, as a std::set keeps its elements.
abbrev pub IsAscending : List HttpWebsite → Type 0
IsAscending [] = Unit
IsAscending (w ∷ ws) = All (λ v. host_lt w.host_ v.host_ ≡ true) ws × IsAscending ws

After-trans :
    (g h : Host) (ws : List HttpWebsite)
    → host_lt g h ≡ true
    → All (λ v. host_lt h v.host_ ≡ true) ws
    → All (λ v. host_lt g v.host_ ≡ true) ws
After-trans g h [] l a = tt
After-trans g h (v ∷ ws) l (b, a) =
    (host_lt-IsStrictOrder.trans g h v.host_ l b, After-trans g h ws l a)

After-emplace :
    (h : Host) (w : HttpWebsite) (ws : List HttpWebsite)
    → host_lt h w.host_ ≡ true
    → All (λ v. host_lt h v.host_ ≡ true) ws
    → All (λ v. host_lt h v.host_ ≡ true) (emplace_website w ws).0
unfolding emplace_website website_lt
After-emplace h w [] l a = (l, tt)
After-emplace h w (v ∷ ws) l (b, a) = ground (arith, After-emplace h w ws l a)

emplace-IsAscending :
    (w : HttpWebsite) (ws : List HttpWebsite)
    → IsAscending ws
    → IsAscending (emplace_website w ws).0
unfolding emplace_website website_lt
emplace-IsAscending w [] i = (tt, tt)
emplace-IsAscending w (v ∷ ws) (a, i) = elim (Bool-cases (host_lt w.host_ v.host_)) [
  | inl before ↦
      rw (before, emplace_website) ((before, After-trans w.host_ v.host_ ws before a), (a, i))
  | inr not_before ↦ elim (Bool-cases (host_lt v.host_ w.host_)) [
    | inl behind ↦
        rw (not_before, behind, emplace_website)
          (After-emplace v.host_ w ws behind a, emplace-IsAscending w ws i)
    | inr same ↦ rw (not_before, same, emplace_website) (a, i)
  ]
]

find_of_After :
    (h : Host) (ws : List HttpWebsite)
    → All (λ v. host_lt h v.host_ ≡ true) ws
    → find_website_by h ws ≡ none
unfolding find_website_by website_eq_host
find_of_After h [] a = refl
find_of_After h (v ∷ ws) (b, a) = ground (arith, host_lt-ne h v.host_ b, find_of_After h ws a)

host_lt_of_eq : (g h : Host) → host_eq g h ≡ true → (host_lt g h ≡ false) × (host_lt h g ≡ false)
host_lt_of_eq g h e =
    let same = (host_eq_iff g h).0.0 e in
    (rw same (host_lt-IsStrictOrder.irrefl h), rw same (host_lt-IsStrictOrder.irrefl h))

host_lt_cases :
    (g h : Host)
    → host_eq h g ≡ false
    → (host_lt g h ≡ true) ⊎ ((host_lt g h ≡ false) × (host_lt h g ≡ true))
host_lt_cases g h e = ground (arith, host_lt-IsStrictOrder.total g h, (host_eq_iff h g).0)

-- A host that is in the set cannot be put in again.
emplace-known :
    (w v : HttpWebsite) (ws : List HttpWebsite)
    → IsAscending ws
    → find_website_by w.host_ ws ≡ some v
    → emplace_website w ws ≡ (ws, false)
unfolding emplace_website find_website_by website_lt website_eq_host
emplace-known w v [] i f = cc
emplace-known w v (u ∷ ws) (a, i) f = elim (Bool-cases (host_eq u.host_ w.host_)) [
  | inl same ↦
      let (above, below) = host_lt_of_eq u.host_ w.host_ same in rw (below, above, emplace_website)
  | inr other ↦ elim (host_lt_cases w.host_ u.host_ other) [
    | inl before ↦
        let missing = find_of_After w.host_ ws (After-trans w.host_ u.host_ ws before a) in
        cc (missing, rw (other, find_website_by) at f)
    | inr (not_before, behind) ↦
        let ih = emplace-known w v ws i (rw (other, find_website_by) at f) in
        rw (not_before, behind, emplace_website) (rw ih)
  ]
]

module _ (sys : System) (port : ℕ) (ws : List HttpWebsite) where
  bind_website-IsAscending :
      (w : HttpWebsite) (o : Outcome (Unit {0}))
      → IsAscending ws
      → (emplace_website w ws).1 ≡ true
      → IsAscending (bind_website w o (emplace_website w ws).0).1
  bind_website-IsAscending w (ok u) i d = emplace-IsAscending w ws i
  bind_website-IsAscending w (throw x) i d = elim (Bool-cases (is_standard x)) [
    | inl caught ↦ rw (caught, erase-emplace w ws d) i
    | inr other ↦ rw other (emplace-IsAscending w ws i)
  ]
  bind_website-IsAscending w terminate i d = emplace-IsAscending w ws i
  bind_website-IsAscending w undefined i d = emplace-IsAscending w ws i

  insert_website-IsAscending :
      (o : Outcome HttpWebsite) → IsAscending ws → IsAscending (insert_website sys port o ws).1
  insert_website-IsAscending (ok w) i = elim (Bool-cases (emplace_website w ws).1) [
    | inl done ↦ rw done (bind_website-IsAscending w _ i done)
    | inr refused ↦ rw refused i
  ]
  insert_website-IsAscending (throw x) i = i
  insert_website-IsAscending terminate i = i
  insert_website-IsAscending undefined i = i

-- What a successful `connect` changes: the host was free and finds the website that was made, and
-- every other host finds what it found before.
pub record IsConnected (made : Outcome HttpWebsite) (host : Host) (ws ws' : List HttpWebsite)
    : Type 0 where
  pub website : HttpWebsite
  pub is_made : made ≡ ok website
  pub named : website.host_ ≡ host
  pub was_free : find_website_by host ws ≡ none
  pub finds :
      (h : Host)
      → find_website_by h ws' ≡ (if host_eq host h then some website else find_website_by h ws)

module _ (ndebug : Bool) (sys : System) (website_path host_name : Text) (port : ℕ)
    (website_name : Text) (ws : List HttpWebsite) where
  -- Whatever `connect` does, the websites stay in the order of their hosts, with no host twice.
  pub connect-IsAscending :
      IsAscending ws
      → IsAscending (connect ndebug sys website_path host_name port website_name ws).1
  unfolding connect
  connect-IsAscending i = elim (Bool-cases (sys.files.exists website_path)) [
    | inl there ↦ rw (there, connect) (insert_website-IsAscending sys port ws _ i)
    | inr missing ↦ rw (missing, connect) i
  ]

  host_of_website :
      (host : Host) (w : HttpWebsite)
      → http_website ndebug sys website_path host website_name ≡ ok w
      → w.host_ ≡ host
  unfolding http_website
  host_of_website host w e = ground arith

  bind_website-ok :
      (w : HttpWebsite) (o : Outcome (Unit {0})) (inserted : List HttpWebsite)
      → (bind_website w o inserted).0 ≡ ok tt
      → (bind_website w o inserted).1 ≡ inserted
  bind_website-ok w (ok u) inserted e = refl
  bind_website-ok w (throw x) inserted e = cc
  bind_website-ok w terminate inserted e = refl
  bind_website-ok w undefined inserted e = refl

  free_of_done :
      (w : HttpWebsite)
      → IsAscending ws
      → (emplace_website w ws).1 ≡ true
      → find_website_by w.host_ ws ≡ none
  free_of_done w i d = elim (Option-cases (find_website_by w.host_ ws)) [
    | inl free ↦ free
    | inr (v, taken) ↦
        cc (ap (λ (r : List HttpWebsite × Bool). r.1) (emplace-known w v ws i taken), d)
  ]

  emplace-IsConnected :
      (w : HttpWebsite)
      → IsAscending ws
      → (emplace_website w ws).1 ≡ true
      → IsConnected (ok w) w.host_ ws (emplace_website w ws).0
  emplace-IsConnected w i d = record {
    website = w;
    is_made = refl;
    named = refl;
    was_free = free_of_done w i d;
    finds = λ h. find-emplace_website w ws h d;
  }

  insert_website-IsConnected :
      (host : Host) (o : Outcome HttpWebsite)
      → ((w : HttpWebsite) → o ≡ ok w → w.host_ ≡ host)
      → IsAscending ws
      → (insert_website sys port o ws).0 ≡ ok tt
      → IsConnected o host ws (insert_website sys port o ws).1
  insert_website-IsConnected host (ok w) named i e = elim (Bool-cases (emplace_website w ws).1) [
    | inl done ↦ rw done (
        rw (bind_website-ok w _ (emplace_website w ws).0 (rw done at e))
          (rw (← named w refl) (emplace-IsConnected w i done)))
    | inr refused ↦ cc (rw refused at e)
  ]
  insert_website-IsConnected host (throw x) named i e = cc
  insert_website-IsConnected host terminate named i e = cc
  insert_website-IsConnected host undefined named i e = cc

  -- After a successful `connect` to websites in the order of their hosts, the host was free before,
  -- it finds the website that was made of the arguments, and every other host finds what it found
  -- before.
  pub connect-IsConnected :
      IsAscending ws
      → (connect ndebug sys website_path host_name port website_name ws).0 ≡ ok tt
      → IsConnected
          (http_website ndebug sys website_path
            (record { name = host_name; port = port })
            website_name)
          (record { name = host_name; port = port })
          ws
          (connect ndebug sys website_path host_name port website_name ws).1
  unfolding connect
  connect-IsConnected i e = elim (Bool-cases (sys.files.exists website_path)) [
    | inl there ↦
        rw (there, connect)
          (insert_website-IsConnected _ _ (host_of_website _) i (rw (there, connect) at e))
    | inr missing ↦ cc (rw (missing, connect) at e)
  ]
