-- ===== src/HttpProtocolHandler/Laws.antt =====
-- The handler cache behaves like a choice by the version: each handler is made once and reused.
use http_cpp.Base.{
  ◌≡◌, refl, ◌∙◌, arith, Text, Option, none, some, Outcome, ok, throw, Bool-cases, terminate,
  undefined, Option-cases, inl, inr, text_eq, if◌then◌else◌, ◌+◌,
}
use http_cpp.Base.Order.{text_order, text_cmp_eq}
use http_cpp.Base.StdMap.{find, emplace}
use http_cpp.Base.StdMap.Laws.{find-emplace, IsSorted, emplace-IsSorted, cmp_refl}
use http_cpp.Build.{Build}
use http_cpp.HttpProtocolHandler.{
  ProtocolVersion, one_one, one_zero, version_text, Handler, HandlerCache, empty_cache,
  make_handle_impl, get_handler,
}

-- Every handler in the cache is of the version that is its key.
pub record IsCoherent (c : HandlerCache) : Type 0 where
  pub sorted : IsSorted c.cache_
  pub keyed :
      (v : ProtocolVersion) (h : Handler) → find (version_text v) c.cache_ ≡ some h → h.version ≡ v

pub empty_cache-IsCoherent : IsCoherent empty_cache
unfolding find
empty_cache-IsCoherent = record { sorted = tt; keyed = λ v h e. cc }

-- The version of the handler of a request, if there is one.
abbrev pub version_of : Text → Option ProtocolVersion
version_of t =
    if text_eq t (version_text one_one)
    then some one_one
    else if text_eq t (version_text one_zero)
    then some one_zero
    else none

abbrev pub HasVersion : Outcome (Option Handler) → Option ProtocolVersion → Type 0
HasVersion (ok (some h)) (some v) = h.version ≡ v
HasVersion (ok none) none = Unit
HasVersion _ _ = ⊥

pub HasVersion-some :
    (o : Outcome (Option Handler)) (v : ProtocolVersion)
    → HasVersion o (some v)
    → (h : Handler) × (o ≡ ok (some h)) × (h.version ≡ v)
HasVersion-some (ok (some h)) v e = (h, refl, e)
HasVersion-some (ok none) v e = absurd e
HasVersion-some (throw x) v e = absurd e
HasVersion-some terminate v e = absurd e
HasVersion-some undefined v e = absurd e

pub HasVersion-none : (o : Outcome (Option Handler)) → HasVersion o none → o ≡ ok none
HasVersion-none (ok (some h)) e = absurd e
HasVersion-none (ok none) e = refl
HasVersion-none (throw x) e = absurd e
HasVersion-none terminate e = absurd e
HasVersion-none undefined e = absurd e

module _ (b : Build) where
  make_handle_impl-fresh :
      (v : ProtocolVersion) (c : HandlerCache)
      → find (version_text v) c.cache_ ≡ none
      → make_handle_impl b v c ≡ (
        ok (some (record { version = v; address = c.made })),
        record {
          cache_ = emplace (version_text v) (record { version = v; address = c.made }) c.cache_;
          made = c.made + 1;
        },
      )
  unfolding make_handle_impl
  make_handle_impl-fresh v c e = ground arith

  make_handle_impl-known :
      (v : ProtocolVersion) (c : HandlerCache) (h : Handler)
      → find (version_text v) c.cache_ ≡ some h
      → make_handle_impl b v c ≡ (ok (some h), c)
  unfolding make_handle_impl
  make_handle_impl-known v c h e = ground arith

  -- What is known after a handler of a version was asked for.
  record Obtained (v : ProtocolVersion) (c : HandlerCache) : Type 0 where
    handler : Handler
    result : (make_handle_impl b v c).0 ≡ ok (some handler)
    version : handler.version ≡ v
    coherent : IsCoherent (make_handle_impl b v c).1
    again : make_handle_impl b v (make_handle_impl b v c).1 ≡ make_handle_impl b v c

  Obtained-known :
      (v : ProtocolVersion) (c : HandlerCache) (h : Handler)
      → IsCoherent c
      → find (version_text v) c.cache_ ≡ some h
      → Obtained v c
  Obtained-known v c h i e =
      let same = make_handle_impl-known v c h e in
      record {
        handler = h;
        result = rw same;
        version = i.keyed v h e;
        coherent = rw same i;
        again = rw (same, same);
      }

  version_text-injective : (v w : ProtocolVersion) → version_text v ≡ version_text w → v ≡ w
  version_text-injective v w e = ground arith

  emplace-IsCoherent :
      (v : ProtocolVersion) (c : HandlerCache)
      → IsCoherent c
      → find (version_text v) c.cache_ ≡ none
      → IsCoherent (record {
        cache_ = emplace (version_text v) (record { version = v; address = c.made }) c.cache_;
        made = c.made + 1;
      })
  emplace-IsCoherent v c i e = record {
    sorted = emplace-IsSorted _ _ c.cache_ i.sorted;
    keyed = λ w h f. ground (
      arith,
      find-emplace (version_text w) (version_text v) (record { version = v; address = c.made })
          c.cache_ i.sorted,
      i.keyed w h,
      text_cmp_eq (version_text w) (version_text v),
      version_text-injective w v,
    );
  }

  Obtained-fresh :
      (v : ProtocolVersion) (c : HandlerCache)
      → IsCoherent c
      → find (version_text v) c.cache_ ≡ none
      → Obtained v c
  Obtained-fresh v c i e =
      let same = make_handle_impl-fresh v c e in
      record {
        handler = record { version = v; address = c.made };
        result = rw same;
        version = refl;
        coherent = rw same (emplace-IsCoherent v c i e);
        again = rw same (make_handle_impl-known v _ _ found);
      }
    where
      found :
          find
            (version_text v)
            (emplace (version_text v) (record { version = v; address = c.made }) c.cache_)
          ≡ some (record { version = v; address = c.made })
      found =
          find-emplace (version_text v) (version_text v) (record { version = v; address = c.made })
            c.cache_ i.sorted
          ∙ rw (e, cmp_refl (version_text v))

  obtained : (v : ProtocolVersion) (c : HandlerCache) → IsCoherent c → Obtained v c
  obtained v c i = elim (Option-cases (find (version_text v) c.cache_)) [
    | inl fresh ↦ Obtained-fresh v c i fresh
    | inr (h, known) ↦ Obtained-known v c h i known
  ]

  -- From a coherent cache `get_handler` gives a handler of the version that the text names, and
  -- `nullptr` for any other text; the cache stays coherent; and asking again gives the same handler
  -- and changes nothing.
  pub get_handler-refines :
      (t : Text) (c : HandlerCache)
      → IsCoherent c
      → HasVersion (get_handler b t c).0 (version_of t)
        × IsCoherent (get_handler b t c).1
        × (get_handler b t (get_handler b t c).1 ≡ get_handler b t c)
  unfolding get_handler
  get_handler-refines t c i = elim (Bool-cases (text_eq t (version_text one_one))) [
    | inl first ↦
        let o = obtained one_one c i in rw first (rw o.result o.version, o.coherent, o.again)
    | inr other ↦ elim (Bool-cases (text_eq t (version_text one_zero))) [
      | inl second ↦
          let o = obtained one_zero c i in
          rw (other, second) (rw o.result o.version, o.coherent, o.again)
      | inr neither ↦ rw (other, neither) (tt, i, refl)
    ]
  ]
