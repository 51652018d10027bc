-- ===== src/Router/Frame.antt =====
-- A registration leaves the dispatch of every other path and method as it was.
use http_cpp.Base.{
  ◌≡◌, refl, sym, ap, subst, ◌∙◌, Text, List, [], ◌∷◌, none, Bool, false, Outcome, ok, All,
  is_empty, text_eq, text_eq_iff, Option-cases, Bool-cases, inl, inr,
}
use mathlib.Core.Path.{ap₂}
use http_cpp.Base.Order.{text_order}
use http_cpp.Base.StdMap.{StdMap, find, emplace}
use http_cpp.Base.StdMap.Laws.{find-emplace_ne}
use http_cpp.HttpConstants.{Method}
use http_cpp.HttpConstants.MethodOrder.{method_order}
use http_cpp.Router.{
  DispatchNode, dispatch_node, StaticRoutes, DynamicRoute, dynamic_name, new_node, find_route,
  put_route, node_or_new, dynamic_child, add_function, add_at, add_route, get_at, get_dispatch,
  dispatch_split,
}
use http_cpp.Router.Laws.{find_route-put_route_self, find_route-put_route_ne}
use http_cpp.Router.Dispatch.{add_at-static, get_at-static}

-- The parts of a path that may be dispatched.
abbrev pub AreFilled : List Text → Type 0
AreFilled = All (λ p. is_empty p ≡ false)

module _ {Fn : Type 0} where
  -- A static route for which no new node hides the dynamic route of its place.
  abbrev pub HidesNothing : List Text → DispatchNode Fn → Type 0
  HidesNothing [] n = Unit
  HidesNothing (r ∷ route) (dispatch_node rs id d fs) =
      (dynamic_name r ≡ none)
      × (find_route r rs ≡ none → dynamic_child d ≡ none)
      × HidesNothing route (node_or_new (find_route r rs))

  -- Nothing is found below a new node.
  pub get_at-new_node :
      (ndebug : Bool) (m : Method) (path : List Text) (params : StdMap Text Text)
      → AreFilled path
      → get_at ndebug m path (new_node {Fn = Fn}) params ≡ (ok none, params)
  unfolding get_at find find_route
  get_at-new_node ndebug m [] params h = refl
  get_at-new_node ndebug m (p ∷ path) params (h, hs) = rw (h, get_at) refl

  get_at-added_here :
      (ndebug : Bool) (m m' : Method) (fn : Fn) (path : List Text) (rs : StaticRoutes Fn)
      (id : Text) (d : DynamicRoute Fn) (fs : StdMap Method Fn) (params : StdMap Text Text)
      → AreFilled path
      → ¬ ((m' ≡ m) × (path ≡ []))
      → get_at ndebug m' path (dispatch_node rs id d (emplace m fn fs)) params
        ≡ get_at ndebug m' path (dispatch_node rs id d fs) params
  unfolding get_at
  get_at-added_here ndebug m m' fn [] rs id d fs params h other =
      rw (find-emplace_ne m' m fn fs (λ e. other (e, refl))) refl
  get_at-added_here ndebug m m' fn (p ∷ path) rs id d fs params (h, hs) other = rw (h, get_at) refl

  get_at-add_function :
      (ndebug : Bool) (m m' : Method) (fn : Fn) (path : List Text) (n : DispatchNode Fn)
      (params : StdMap Text Text)
      → AreFilled path
      → ¬ ((m' ≡ m) × (path ≡ []))
      → get_at ndebug m' path (add_function m fn n).1 params ≡ get_at ndebug m' path n params
  unfolding add_function
  get_at-add_function ndebug m m' fn path (dispatch_node rs id d fs) params h other =
      elim (Option-cases (find m fs)) [
        | inl fresh ↦
            rw (fresh, add_function)
              (get_at-added_here ndebug m m' fn path rs id d fs params h other)
        | inr (old, known) ↦ rw (known, add_function) refl
      ]

  -- A path that leaves the route at this node.
  get_at-elsewhere :
      (ndebug : Bool) (m' : Method) (r p : Text) (path : List Text) (child : DispatchNode Fn)
      (rs : StaticRoutes Fn) (id : Text) (d : DynamicRoute Fn) (fs : StdMap Method Fn)
      (params : StdMap Text Text)
      → is_empty p ≡ false
      → text_eq p r ≡ false
      → get_at ndebug m' (p ∷ path) (dispatch_node (put_route r child rs) id d fs) params
        ≡ get_at ndebug m' (p ∷ path) (dispatch_node rs id d fs) params
  unfolding get_at
  get_at-elsewhere ndebug m' r p path child rs id d fs params filled away =
      rw (filled, find_route-put_route_ne p r child rs away, get_at) refl

  get_at-missing :
      (ndebug : Bool) (m' : Method) (p : Text) (path : List Text) (rs : StaticRoutes Fn) (id : Text)
      (d : DynamicRoute Fn) (fs : StdMap Method Fn) (params : StdMap Text Text)
      → is_empty p ≡ false
      → find_route p rs ≡ none
      → dynamic_child d ≡ none
      → get_at ndebug m' (p ∷ path) (dispatch_node rs id d fs) params ≡ (ok none, params)
  unfolding get_at
  get_at-missing ndebug m' p path rs id d fs params filled missing static =
      rw (filled, missing, static, get_at) refl

  -- The node that a part of the route leads to, before the registration.
  pub get_at-node_or_new :
      (ndebug : Bool) (m' : Method) (p : Text) (path : List Text) (rs : StaticRoutes Fn) (id : Text)
      (d : DynamicRoute Fn) (fs : StdMap Method Fn) (params : StdMap Text Text)
      → AreFilled (p ∷ path)
      → (find_route p rs ≡ none → dynamic_child d ≡ none)
      → get_at ndebug m' path (node_or_new (find_route p rs)) params
        ≡ get_at ndebug m' (p ∷ path) (dispatch_node rs id d fs) params
  get_at-node_or_new ndebug m' p path rs id d fs params (h, hs) static =
      elim (Option-cases (find_route p rs)) [
        | inl missing ↦
            rw missing (get_at-new_node ndebug m' path params hs)
            ∙ sym (get_at-missing ndebug m' p path rs id d fs params h missing (static missing))
        | inr (child, known) ↦
            rw known (sym (get_at-static ndebug m' p path rs id d fs params h child known))
      ]

  -- A path that goes along the route at this node.
  get_at-along :
      (ndebug : Bool) (m m' : Method) (fn : Fn) (r : Text) (route path : List Text)
      (rs : StaticRoutes Fn) (id : Text) (d : DynamicRoute Fn) (fs : StdMap Method Fn)
      (params : StdMap Text Text)
      → dynamic_name r ≡ none
      → (find_route r rs ≡ none → dynamic_child d ≡ none)
      → AreFilled (r ∷ path)
      → get_at ndebug m' path (add_at m fn route (node_or_new (find_route r rs))).1 params
        ≡ get_at ndebug m' path (node_or_new (find_route r rs)) params
      → get_at ndebug m' (r ∷ path) (add_at m fn (r ∷ route) (dispatch_node rs id d fs)).1 params
        ≡ get_at ndebug m' (r ∷ path) (dispatch_node rs id d fs) params
  get_at-along ndebug m m' fn r route path rs id d fs params static alone (h, hs) same =
      let child = add_at m fn route (node_or_new (find_route r rs)) in
      ap (λ (a : Outcome Unit × DispatchNode Fn). get_at ndebug m' (r ∷ path) a.1 params)
        (add_at-static m fn r route rs id d fs static)
      ∙ get_at-static ndebug m' r path (put_route r child.1 rs) id d fs params h child.1
          (find_route-put_route_self r child.1 rs)
      ∙ same
      ∙ get_at-node_or_new ndebug m' r path rs id d fs params (h, hs) alone

  pub get_at-add_at_other :
      (ndebug : Bool) (m m' : Method) (fn : Fn) (route path : List Text) (n : DispatchNode Fn)
      (params : StdMap Text Text)
      → HidesNothing route n
      → AreFilled path
      → ¬ ((m' ≡ m) × (path ≡ route))
      → get_at ndebug m' path (add_at m fn route n).1 params ≡ get_at ndebug m' path n params
  get_at-add_at_other ndebug m m' fn [] path n params c h other =
      unfold add_at in get_at-add_function ndebug m m' fn path n params h other
  get_at-add_at_other ndebug m m' fn (r ∷ route) [] (dispatch_node rs id d fs) params
        (static, alone, c) h other =
      unfold get_at in rw (add_at-static m fn r route rs id d fs static) refl
  get_at-add_at_other ndebug m m' fn (r ∷ route) (p ∷ path) (dispatch_node rs id d fs) params
        (static, alone, c) (h, hs) other =
      elim (Bool-cases (text_eq p r)) [
        | inr away ↦
            rw (add_at-static m fn r route rs id d fs static)
              (get_at-elsewhere ndebug m' r p path _ rs id d fs params h away)
        | inl along ↦
            let same = (text_eq_iff p r).0 along in
            subst
              (λ q.
                get_at ndebug m' (q ∷ path) (add_at m fn (r ∷ route) (dispatch_node rs id d fs)).1
                  params
                ≡ get_at ndebug m' (q ∷ path) (dispatch_node rs id d fs) params)
              (sym same)
              (get_at-along ndebug m m' fn r route path rs id d fs params static alone
                (subst (λ q. is_empty q ≡ false) same h, hs)
                (get_at-add_at_other ndebug m m' fn route path (node_or_new (find_route r rs))
                  params c hs (λ e. other (e.0, ap₂ ◌∷◌ same e.1))))
      ]

  -- A registration for a route without identifiers, successful or not, that makes no new part beside
  -- an identifier, leaves the dispatch of every other path, and of every other method on this path,
  -- as it was, for paths without empty parts.
  pub get_dispatch-add_route_other :
      (ndebug : Bool) (m m' : Method) (fn : Fn) (n : DispatchNode Fn) (params : StdMap Text Text)
      (dispatch_route path : Text) (route parts : List Text)
      → dispatch_split dispatch_route ≡ ok route
      → dispatch_split path ≡ ok parts
      → HidesNothing route n
      → AreFilled parts
      → ¬ ((m' ≡ m) × (parts ≡ route))
      → get_dispatch ndebug m' path (add_route m dispatch_route fn n).1 params
        ≡ get_dispatch ndebug m' path n params
  unfolding get_dispatch add_route
  get_dispatch-add_route_other ndebug m m' fn n params dispatch_route path route parts r p c h
        other =
      rw (p, r, get_dispatch, add_route)
        (get_at-add_at_other ndebug m m' fn route parts n params c h other)
