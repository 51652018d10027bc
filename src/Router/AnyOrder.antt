-- ===== src/Router/AnyOrder.antt =====
-- librest/include/router.hpp: the order of successful registrations.
use http_cpp.Base.{
  ℕ, zero, suc, ◌≡◌, refl, sym, ap, subst, ◌∙◌, arith, Text, List, [], ◌∷◌, Option, none, some,
  Bool, Outcome, ok, throw, terminate, undefined, All, ◌==◌, text_eq, text_eq_iff, Option-cases,
  Bool-cases, inl, inr, if◌then◌else◌,
}
use mathlib.Core.List.{Permᴰ}
use http_cpp.Base.Order.{text_order}
use http_cpp.Base.StdMap.{StdMap, find}
use http_cpp.HttpConstants.{Method, method_code}
use http_cpp.HttpConstants.MethodOrder.{method_order, method_code-injective}
use http_cpp.Router.{
  DispatchNode, dispatch_node, StaticRoutes, DynamicRoute, dynamic_name, find_route, node_or_new,
  add_function, add_at, get_at, get_dispatch, dispatch_split,
}
use http_cpp.Router.Dispatch.{dynamic_target, add_at-static, add_at-dynamic, add_route-split}
use http_cpp.Router.Reference.{
  Entry, dynamic_rest, statics, dynamics, identifier, ends, Registered, nothing_registered,
  one_more, one_refused,
}
use http_cpp.Router.Holds.{Holds, Holds-node_or_new, Holds-dynamic_target, get_at-Holds}
use http_cpp.Router.Consistent.{EndsAs, Consistent, dispatch_among-Permᴰ}
use http_cpp.Router.Refines.{Registered-Holds}
use http_cpp.Router.Entries.{Consistent-nil, free-EndsAs, same_name, same-NamedAs}

module _ {Fn : Type 0} where
  fresh_of :
      (m : Method) (fn : Fn) (rs : StaticRoutes Fn) (id : Text) (d : DynamicRoute Fn)
      (fs : StdMap Method Fn)
      → (add_function m fn (dispatch_node rs id d fs)).0 ≡ ok tt
      → find m fs ≡ none
  unfolding add_function
  fresh_of m fn rs id d fs e = ground arith

  Consistent-add_function :
      (k : ℕ) (m : Method) (fn : Fn) (n : DispatchNode Fn) (es : List (Entry Fn))
      → (add_function m fn n).0 ≡ ok tt
      → Holds k n es
      → Consistent k es
      → Consistent k (record { method = m; parts = []; fn = fn } ∷ es)
  unfolding Consistent Holds statics dynamics
  Consistent-add_function zero m fn n es e h c = tt
  Consistent-add_function (suc k) m fn (dispatch_node rs id d fs) es e (h, _, _)
        (ending, (id', named), c, c') =
      (
        (λ o. elim (Bool-cases (method_code o == method_code m)) [
          | inl same ↦
              let at_m : o ≡ m = ground (arith, method_code-injective o m) in
              let no_end : ends o es ≡ none =
                subst (λ q. ends q es ≡ none) (sym at_m) (sym (h m) ∙ fresh_of m fn rs id d fs e) in
              (some fn, ((λ p q. refl), free-EndsAs (some fn) o es no_end))
          | inr other ↦ let (f, all) = ending o in (f, ((λ p q. let no = sym other ∙ q in cc), all))
        ]),
        (id', ((λ name rest q. cc), named)),
        c,
        c',
      )

  Consistent-statics :
      (k : ℕ) (e rest : Entry Fn) (r : Text) (es : List (Entry Fn))
      → ((p : Text)
          → statics p (e ∷ es) ≡ (if text_eq p r then rest ∷ statics p es else statics p es))
      → Consistent k (rest ∷ statics r es)
      → ((p : Text) → Consistent k (statics p es))
      → (p : Text) → Consistent k (statics p (e ∷ es))
  Consistent-statics k e rest r es shape below c p = elim (Bool-cases (text_eq p r)) [
    | inl along ↦ rw (shape p) (
        rw along
          (subst (λ q. Consistent k (rest ∷ statics q es)) (sym ((text_eq_iff p r).0 along)) below))
    | inr away ↦ rw (shape p) (rw away (c p))
  ]

  statics-static :
      (p : Text) (m : Method) (fn : Fn) (r : Text) (route : List Text) (es : List (Entry Fn))
      → dynamic_name r ≡ none
      → statics p (record { method = m; parts = r ∷ route; fn = fn } ∷ es) ≡ (
          if text_eq p r
          then record { method = m; parts = route; fn = fn } ∷ statics p es
          else statics p es)
  unfolding statics
  statics-static p m fn r route es static = elim (Bool-cases (text_eq p r)) [
    | inl along ↦ rw (static, along, statics) refl
    | inr away ↦ rw (static, away, statics) refl
  ]

  Consistent-add_at :
      (k : ℕ) (m : Method) (fn : Fn) (route : List Text) (n : DispatchNode Fn)
      (es : List (Entry Fn))
      → (add_at m fn route n).0 ≡ ok tt
      → Holds k n es
      → Consistent k es
      → Consistent k (record { method = m; parts = route; fn = fn } ∷ es)
  unfolding Consistent Holds statics dynamics
  Consistent-add_at zero m fn route n es e h c = tt
  Consistent-add_at (suc k) m fn [] n es e h c =
      Consistent-add_function (suc k) m fn n es (unfold add_at in e) h c
  Consistent-add_at (suc k) m fn (r ∷ route) (dispatch_node rs id d fs) es e (h, g, f)
        (ending, (id', named), c, c') =
      let unended : (o : Method)
          → (f : Option Fn) × All (EndsAs f o)
              (record { method = m; parts = r ∷ route; fn = fn } ∷ es) =
        λ o. let (f, all) = ending o in (f, ((λ p q. cc), all)) in
      elim (Option-cases (dynamic_name r)) [
        | inl static ↦
            let below =
              Consistent-add_at k m fn route (node_or_new (find_route r rs)) (statics r es)
                (ap (λ (a : Outcome Unit × DispatchNode Fn). a.0)
                    (sym (add_at-static m fn r route rs id d fs static))
                  ∙ e)
                (Holds-node_or_new k (find_route r rs) (statics r es) (g r)) (c r) in
            (
              unended,
              (id', ((λ name rest q. let no = rw (static, dynamic_rest) at q in cc), named)),
              Consistent-statics k (record { method = m; parts = r ∷ route; fn = fn })
                  (record { method = m; parts = route; fn = fn }) r es
                  (λ p. statics-static p m fn r route es static) below c,
              rw (static, dynamics) c',
            )
        | inr (name, dynamic) ↦
            let below =
              Consistent-add_at k m fn route (dynamic_target id d) (dynamics es)
                (ap (λ (a : Outcome Unit × DispatchNode Fn). a.0)
                    (sym (add_at-dynamic m fn r route rs id d fs name dynamic e))
                  ∙ e)
                (Holds-dynamic_target k id d (identifier es) (dynamics es) f) c' in
            (
              unended,
              (
                name,
                (
                  (λ name' rest q. let same = rw (dynamic, dynamic_rest) at q in cc),
                  same-NamedAs k id id' name d es f
                      (λ kept. same_name m fn r route rs id d fs name dynamic kept e) named,
                ),
              ),
              (λ p. rw (dynamic, statics) (c p)),
              rw (dynamic, dynamics) below,
            )
      ]

  Registered-Consistent :
      (k : ℕ) (n : DispatchNode Fn) (es : List (Entry Fn)) → Registered n es → Consistent k es
  Registered-Consistent k n es nothing_registered = Consistent-nil k [] refl
  Registered-Consistent k n' es' (one_more m dispatch_route fn {n} {es} parts r e succeeded) =
      Consistent-add_at k m fn parts n es
        (rw (add_route-split m fn n dispatch_route parts e) at succeeded)
        (Registered-Holds k n es r) (Registered-Consistent k n es r)
  Registered-Consistent k n' es' (one_refused m dispatch_route fn {n} {es} r failed) =
      Registered-Consistent k n es r

  of_parts :
      (ndebug : Bool) (m : Method) (n n' : DispatchNode Fn) (params : StdMap Text Text)
      (o : Outcome (List Text))
      → ((parts : List Text)
          → o ≡ ok parts
          → get_at ndebug m parts n params ≡ get_at ndebug m parts n' params)
      → ◌≡◌ {A = Outcome (Option Fn) × StdMap Text Text}
          (elim o [
            | ok parts ↦ get_at ndebug m parts n params
            | throw e ↦ (throw e, params)
            | terminate ↦ (terminate, params)
            | undefined ↦ (undefined, params)
          ])
          (elim o [
            | ok parts ↦ get_at ndebug m parts n' params
            | throw e ↦ (throw e, params)
            | terminate ↦ (terminate, params)
            | undefined ↦ (undefined, params)
          ])
  of_parts ndebug m n n' params (ok parts) h = h parts refl
  of_parts ndebug m n n' params (throw e) h = refl
  of_parts ndebug m n n' params terminate h = refl
  of_parts ndebug m n n' params undefined h = refl

  -- Two routers, whose successful registrations are the same ones in whatever order, dispatch every
  -- path and method alike.
  pub get_dispatch-any_order :
      (ndebug : Bool) (m : Method) (path : Text) (n n' : DispatchNode Fn) (es es' : List (Entry Fn))
      (params : StdMap Text Text)
      → Registered n es
      → Registered n' es'
      → Permᴰ es es'
      → get_dispatch ndebug m path n params ≡ get_dispatch ndebug m path n' params
  unfolding get_dispatch
  get_dispatch-any_order ndebug m path n n' es es' params r r' q =
      of_parts ndebug m n n' params (dispatch_split path) (λ parts e.
        get_at-Holds ndebug m parts n es params (λ k. Registered-Holds k n es r)
        ∙ dispatch_among-Permᴰ ndebug m parts es es' params (λ k. Registered-Consistent k n es r) q
        ∙ sym (get_at-Holds ndebug m parts n' es' params (λ k. Registered-Holds k n' es' r')))
