-- ===== src/Router/Refines.antt =====
-- The tree of routes implements dispatch over the list of registrations.
use http_cpp.Base.{
  ℕ, zero, suc, ◌≡◌, refl, sym, ap, subst, ◌∙◌, arith, Text, List, [], ◌∷◌, none, some, Bool,
  Outcome, ok, ◌==◌, text_eq, text_eq_refl, text_eq_iff, Option-cases, Bool-cases, inl, inr,
  if◌then◌else◌,
}
use http_cpp.Base.Order.{text_order}
use http_cpp.Base.StdMap.{StdMap, find, emplace}
use http_cpp.Base.StdMap.Laws.{find-emplace_self, find-emplace_ne}
use http_cpp.HttpConstants.{Method, method_code}
use http_cpp.HttpConstants.MethodOrder.{method_order, method_code-injective}
use http_cpp.Router.{
  DispatchNode, dispatch_node, StaticRoutes, dynamic_name, find_route, put_route, node_or_new,
  add_function, add_at, get_dispatch, dispatch_split,
}
use http_cpp.Router.Names.{dynamic_name-ne-nil}
use http_cpp.Router.Laws.{find_route-put_route_self, find_route-put_route_ne}
use http_cpp.Router.Dispatch.{dynamic_target, add_at-static, add_at-dynamic, add_route-split}
use http_cpp.Router.Unchanged.{add_route-unchanged}
use http_cpp.Router.Reference.{
  Entry, dynamic_rest, named_by, statics, dynamics, identifier, ends, dispatch_among, Registered,
  nothing_registered, one_more, one_refused,
}
use http_cpp.Router.Holds.{
  HoldsStatic, Holds, Holds-new_node, Holds-node_or_new, Holds-dynamic_target, get_at-Holds,
}

module _ {Fn : Type 0} where
  find-added :
      (m : Method) (fn : Fn) (fs : StdMap Method Fn) (es : List (Entry Fn))
      → ((o : Method) → find o fs ≡ ends o es)
      → find m fs ≡ none
      → (o : Method)
      → find o (emplace m fn fs) ≡ (if method_code o == method_code m then some fn else ends o es)
  find-added m fn fs es h fresh o = elim (Bool-cases (method_code o == method_code m)) [
    | inl same ↦
        let at_m : o ≡ m = ground (arith, method_code-injective o m) in
        rw same (
          subst (λ q. find q (emplace m fn fs) ≡ some fn) (sym at_m)
            (find-emplace_self m fn fs fresh))
    | inr other ↦
        rw other
          (find-emplace_ne o m fn fs (λ q. let code = ap method_code q in ground arith) ∙ h o)
  ]

  Holds-add_function :
      (k : ℕ) (m : Method) (fn : Fn) (n : DispatchNode Fn) (es : List (Entry Fn))
      → (add_function m fn n).0 ≡ ok tt
      → Holds k n es
      → Holds k (add_function m fn n).1 (record { method = m; parts = []; fn = fn } ∷ es)
  unfolding Holds add_function ends statics dynamics identifier
  Holds-add_function zero m fn n es e h = tt
  Holds-add_function (suc k) m fn (dispatch_node rs id d fs) es e (h, g, f) =
      elim (Option-cases (find m fs)) [
        | inr (old, known) ↦ let refused = rw (known, add_function) at e in cc
        | inl fresh ↦ rw (fresh, add_function) ((λ o. find-added m fn fs es h fresh o), g, f)
      ]

  Holds-put_route :
      (k : ℕ) (m : Method) (fn : Fn) (r : Text) (route : List Text) (child : DispatchNode Fn)
      (rs : StaticRoutes Fn) (es : List (Entry Fn))
      → dynamic_name r ≡ none
      → Holds k child (record { method = m; parts = route; fn = fn } ∷ statics r es)
      → ((p : Text) → HoldsStatic (Holds k) (find_route p rs) (statics p es))
      → (p : Text)
      → HoldsStatic
          (Holds k)
          (find_route p (put_route r child rs))
          (statics p (record { method = m; parts = r ∷ route; fn = fn } ∷ es))
  unfolding statics
  Holds-put_route k m fn r route child rs es static below g p = elim (Bool-cases (text_eq p r)) [
    | inl along ↦
        subst
          (λ q.
            HoldsStatic (Holds k) (find_route q (put_route r child rs))
              (statics q (record { method = m; parts = r ∷ route; fn = fn } ∷ es)))
          (sym ((text_eq_iff p r).0 along))
          (rw (find_route-put_route_self r child rs, static, text_eq_refl r, statics) below)
    | inr away ↦ rw (find_route-put_route_ne p r child rs away, static, away, statics) (g p)
  ]

  Holds-add_at :
      (k : ℕ) (m : Method) (fn : Fn) (route : List Text) (n : DispatchNode Fn)
      (es : List (Entry Fn))
      → (add_at m fn route n).0 ≡ ok tt
      → Holds k n es
      → Holds k (add_at m fn route n).1 (record { method = m; parts = route; fn = fn } ∷ es)
  unfolding Holds ends statics dynamics identifier
  Holds-add_at zero m fn route n es e h = tt
  Holds-add_at (suc k) m fn [] n es e h =
      unfold add_at in Holds-add_function (suc k) m fn n es (unfold add_at in e) h
  Holds-add_at (suc k) m fn (r ∷ route) (dispatch_node rs id d fs) es e (h, g, f) =
      elim (Option-cases (dynamic_name r)) [
        | inl static ↦
            let added = add_at-static m fn r route rs id d fs static in
            let child = add_at m fn route (node_or_new (find_route r rs)) in
            let below =
              Holds-add_at k m fn route (node_or_new (find_route r rs)) (statics r es)
                (ap (λ (a : Outcome Unit × DispatchNode Fn). a.0) (sym added) ∙ e)
                (Holds-node_or_new k (find_route r rs) (statics r es) (g r)) in
            rw added (
              h,
              Holds-put_route k m fn r route child.1 rs es static below g,
              rw (static, dynamics, identifier, dynamic_rest, named_by) f,
            )
        | inr (name, dynamic) ↦
            let added = add_at-dynamic m fn r route rs id d fs name dynamic e in
            let child = add_at m fn route (dynamic_target id d) in
            let below =
              Holds-add_at k m fn route (dynamic_target id d) (dynamics es)
                (ap (λ (a : Outcome Unit × DispatchNode Fn). a.0) (sym added) ∙ e)
                (Holds-dynamic_target k id d (identifier es) (dynamics es) f) in
            rw added (
              h,
              (λ p. rw (dynamic, statics) (g p)),
              rw (dynamic, dynamics, identifier, dynamic_rest, named_by)
                  (dynamic_name-ne-nil r name dynamic, refl, below),
            )
      ]

  pub Registered-Holds :
      (k : ℕ) (n : DispatchNode Fn) (es : List (Entry Fn)) → Registered n es → Holds k n es
  Registered-Holds k n es nothing_registered = Holds-new_node k [] refl
  Registered-Holds k n' es' (one_more m dispatch_route fn {n} {es} parts r e succeeded) =
      let same = add_route-split m fn n dispatch_route parts e in
      rw same (Holds-add_at k m fn parts n es (rw same at succeeded) (Registered-Holds k n es r))
  Registered-Holds k n' es' (one_refused m dispatch_route fn {n} {es} r failed) =
      rw (add_route-unchanged m fn dispatch_route n failed) (Registered-Holds k n es r)

  -- A router that registrations made, and nothing else, dispatches every path that begins with "/" as
  -- the list of the successful registrations among them does: part by part to the registrations with that
  -- static part where there are any, else to those with an identifier, which is bound to the part, and
  -- at the end, or at an empty part, to the one of the method.
  pub get_dispatch-Registered :
      (ndebug : Bool) (m : Method) (path : Text) (parts : List Text) (n : DispatchNode Fn)
      (es : List (Entry Fn)) (params : StdMap Text Text)
      → Registered n es
      → dispatch_split path ≡ ok parts
      → get_dispatch ndebug m path n params ≡ dispatch_among ndebug m parts es params
  unfolding get_dispatch
  get_dispatch-Registered ndebug m path parts n es params r e =
      rw (e, get_dispatch)
        (get_at-Holds ndebug m parts n es params (λ k. Registered-Holds k n es r))
