-- ===== src/Router/Plain.antt =====
-- librest/include/router.hpp: trees without identifiers.
use http_cpp.Base.{
  ◌≡◌, refl, ap, ◌∙◌, arith, Text, List, [], ◌∷◌, Option, none, some, Bool, false, Outcome, ok, All,
  is_empty, text_eq, Option-cases, Bool-cases, inl, inr,
}
use http_cpp.Base.Order.{text_order}
use http_cpp.Base.StdMap.{StdMap, find}
use http_cpp.Base.StdMap.Laws.{or_else, find-emplace_self}
use http_cpp.HttpConstants.{Method}
use http_cpp.HttpConstants.MethodOrder.{method_order}
use http_cpp.Router.{
  DispatchNode, dispatch_node, StaticRoutes, no_routes, static_route, dynamic_name, find_route,
  put_route, node_or_new, dynamic_child, add_function, function_at, add_at, get_at,
}
use http_cpp.Router.Laws.{find_route-put_route_self}
use http_cpp.Router.Dispatch.{add_at-static, get_at-static}
use http_cpp.Router.Frame.{AreFilled, HidesNothing, get_at-node_or_new}

-- The parts of a route without identifiers, none of them empty.
abbrev pub AreStatic : List Text → Type 0
AreStatic = All (λ r. (dynamic_name r ≡ none) × (is_empty r ≡ false))

pub AreFilled-AreStatic : (route : List Text) → AreStatic route → AreFilled route
AreFilled-AreStatic [] h = tt
AreFilled-AreStatic (r ∷ route) ((s, f), hs) = (f, AreFilled-AreStatic route hs)

module _ {Fn : Type 0} where
  -- No node has a dynamic route.
  unfoldable mutual
    pub IsPlain : DispatchNode Fn → Type 0
    IsPlain (dispatch_node rs id d fs) = (dynamic_child d ≡ none) × ArePlain rs

    pub ArePlain : StaticRoutes Fn → Type 0
    ArePlain no_routes = Unit
    ArePlain (static_route k n rs) = IsPlain n × ArePlain rs

  node_or_new-IsPlain :
      (k : Text) (rs : StaticRoutes Fn) → ArePlain rs → IsPlain (node_or_new (find_route k rs))
  unfolding IsPlain find_route
  node_or_new-IsPlain k no_routes h = (refl, tt)
  node_or_new-IsPlain k (static_route j n rs) (h, hs) = elim (Bool-cases (text_eq k j)) [
    | inl same ↦ rw same h
    | inr other ↦ rw other (node_or_new-IsPlain k rs hs)
  ]

  put_route-ArePlain :
      (k : Text) (n : DispatchNode Fn) (rs : StaticRoutes Fn)
      → IsPlain n
      → ArePlain rs
      → ArePlain (put_route k n rs)
  unfolding ArePlain put_route
  put_route-ArePlain k n no_routes p h = (p, tt)
  put_route-ArePlain k n (static_route j o rs) p (h, hs) = elim (Bool-cases (text_eq k j)) [
    | inl same ↦ rw same (p, hs)
    | inr other ↦ rw other (h, put_route-ArePlain k n rs p hs)
  ]

  pub HidesNothing-IsPlain :
      (route : List Text) (n : DispatchNode Fn) → AreStatic route → IsPlain n → HidesNothing route n
  unfolding IsPlain
  HidesNothing-IsPlain [] n h p = tt
  HidesNothing-IsPlain (r ∷ route) (dispatch_node rs id d fs) ((s, f), hs) (none_here, p) = (
    s,
    λ e. none_here,
    HidesNothing-IsPlain route (node_or_new (find_route r rs)) hs (node_or_new-IsPlain r rs p),
  )

  add_function-IsPlain :
      (m : Method) (fn : Fn) (n : DispatchNode Fn) → IsPlain n → IsPlain (add_function m fn n).1
  unfolding add_function IsPlain
  add_function-IsPlain m fn (dispatch_node rs id d fs) p = elim (Option-cases (find m fs)) [
    | inl fresh ↦ rw (fresh, add_function) p
    | inr (old, known) ↦ rw (known, add_function) p
  ]

  pub add_at-IsPlain :
      (m : Method) (fn : Fn) (route : List Text) (n : DispatchNode Fn)
      → AreStatic route
      → IsPlain n
      → IsPlain (add_at m fn route n).1
  unfolding IsPlain
  add_at-IsPlain m fn [] n h p = unfold add_at in add_function-IsPlain m fn n p
  add_at-IsPlain m fn (r ∷ route) (dispatch_node rs id d fs) ((s, f), hs) (none_here, p) =
      rw (add_at-static m fn r route rs id d fs s) (
        none_here,
        put_route-ArePlain r _ rs
            (add_at-IsPlain m fn route (node_or_new (find_route r rs)) hs
              (node_or_new-IsPlain r rs p))
            p,
      )

  function_at-add_function_same :
      (m : Method) (fn : Fn) (n : DispatchNode Fn)
      → function_at m (add_function m fn n).1 ≡ or_else (function_at m n) (some fn)
  unfolding add_function
  function_at-add_function_same m fn (dispatch_node rs id d fs) =
      ground (arith, find-emplace_self m fn fs)

  found_of :
      {f g : Option Fn} {params : StdMap Text Text}
      → ◌≡◌ {A = Outcome (Option Fn) × StdMap Text Text} (ok f, params) (ok g, params)
      → f ≡ g
  found_of e = cc

  -- At its own path and method, a registration is found where nothing was found before.
  pub get_at-add_at_same :
      (ndebug : Bool) (m : Method) (fn : Fn) (route : List Text) (n : DispatchNode Fn)
      (params : StdMap Text Text) (f : Option Fn)
      → AreFilled route
      → HidesNothing route n
      → get_at ndebug m route n params ≡ (ok f, params)
      → get_at ndebug m route (add_at m fn route n).1 params ≡ (ok (or_else f (some fn)), params)
  get_at-add_at_same ndebug m fn [] (dispatch_node rs id d fs) params f h c e =
      unfold add_at get_at in
      ap (λ o. (ok o, params))
        (function_at-add_function_same m fn (dispatch_node rs id d fs)
          ∙ ap (λ o. or_else o (some fn)) (found_of (unfold get_at in e)))
  get_at-add_at_same ndebug m fn (r ∷ route) (dispatch_node rs id d fs) params f (h, hs)
        (static, alone, c) e =
      let child = add_at m fn route (node_or_new (find_route r rs)) in
      ap (λ (a : Outcome Unit × DispatchNode Fn). get_at ndebug m (r ∷ route) a.1 params)
        (add_at-static m fn r route rs id d fs static)
      ∙ get_at-static ndebug m r route (put_route r child.1 rs) id d fs params h child.1
          (find_route-put_route_self r child.1 rs)
      ∙ get_at-add_at_same ndebug m fn route (node_or_new (find_route r rs)) params f hs c
          (get_at-node_or_new ndebug m r route rs id d fs params (h, hs) alone ∙ e)
