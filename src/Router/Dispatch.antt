-- ===== src/Router/Dispatch.antt =====
-- A registered function is the one that its paths are dispatched to, and is registered only once.
use http_cpp.Base.{
  ◌≡◌, refl, sym, ap, ◌∙◌, arith, Text, List, [], ◌∷◌, none, some, Bool, false, Outcome, ok, throw,
  invalid_argument, is_empty, text_eq_refl, text_eq_iff, Option-cases, inl, inr, if◌then◌else◌,
}
use http_cpp.Base.Order.{text_order}
use http_cpp.Base.StdMap.{StdMap, find, emplace}
use http_cpp.Base.StdMap.Laws.{find-emplace_self}
use http_cpp.HttpConstants.{Method}
use http_cpp.HttpConstants.MethodOrder.{method_order}
use http_cpp.Router.{
  DispatchNode, dispatch_node, StaticRoutes, DynamicRoute, dynamic_node, dynamic_name, new_node,
  find_route, put_route, node_or_new, dynamic_child, under_static, under_dynamic, add_function,
  add_at, add_route, get_at, get_dispatch, dispatch_split,
}
use http_cpp.Router.Names.{dynamic_name-ne-nil}
use http_cpp.Router.Laws.{find_route-put_route_self, put_route-put_route, function_at-add_function}

-- The parameters with the parts of a path that stand for identifiers.
abbrev pub bound : List Text → List Text → StdMap Text Text → StdMap Text Text
bound [] path params = params
bound (r ∷ route) [] params = params
bound (r ∷ route) (p ∷ path) params =
    bound route path (elim (dynamic_name r) [ none ↦ params | some name ↦ emplace name p params ])

module _ {Fn : Type 0} where
  -- The node that a dynamic part leads to, new where the node had no identifier.
  abbrev pub dynamic_target : Text → DynamicRoute Fn → DispatchNode Fn
  dynamic_target id d = if is_empty id then new_node else node_or_new (dynamic_child d)

  -- A path that a route is meant for, at a node and with the parameters that are bound before: its
  -- parts are not empty; a static part is that of the route; a part for an identifier is no static
  -- route at that place, and the identifier is not bound yet.
  abbrev pub Fits : List Text → List Text → DispatchNode Fn → StdMap Text Text → Type 0
  Fits [] [] n params = Unit
  Fits [] (p ∷ path) n params = ⊥
  Fits (r ∷ route) [] n params = ⊥
  Fits (r ∷ route) (p ∷ path) (dispatch_node rs id d fs) params =
      (is_empty p ≡ false) × (elim (dynamic_name r) [
        | none ↦ (p ≡ r) × Fits route path (node_or_new (find_route r rs)) params
        | some name ↦
            (find_route p rs ≡ none)
            × (find name params ≡ none)
            × Fits route path (dynamic_target id d) (emplace name p params)
      ])

  module _ (m : Method) (fn : Fn) (r : Text) (route : List Text) (rs : StaticRoutes Fn) (id : Text)
      (d : DynamicRoute Fn) (fs : StdMap Method Fn) where
    pub add_at-static :
        dynamic_name r ≡ none
        → add_at m fn (r ∷ route) (dispatch_node rs id d fs)
          ≡ under_static r
              (dispatch_node rs id d fs)
              (add_at m fn route (node_or_new (find_route r rs)))
    unfolding add_at
    add_at-static e = rw (e, add_at)

    -- Where the step succeeds, the identifier is that of the route.
    pub add_at-dynamic :
        (name : Text)
        → dynamic_name r ≡ some name
        → (add_at m fn (r ∷ route) (dispatch_node rs id d fs)).0 ≡ ok tt
        → add_at m fn (r ∷ route) (dispatch_node rs id d fs)
          ≡ under_dynamic name (dispatch_node rs id d fs) (add_at m fn route (dynamic_target id d))
    unfolding add_at
    add_at-dynamic name e h = ground (arith, text_eq_iff id name)

  module _ (ndebug : Bool) (m : Method) (p : Text) (path : List Text) (rs : StaticRoutes Fn)
      (id : Text) (d : DynamicRoute Fn) (fs : StdMap Method Fn) (params : StdMap Text Text)
      (filled : is_empty p ≡ false) where
    pub get_at-static :
        (child : DispatchNode Fn)
        → find_route p rs ≡ some child
        → get_at ndebug m (p ∷ path) (dispatch_node rs id d fs) params
          ≡ get_at ndebug m path child params
    unfolding get_at
    get_at-static child e = rw (filled, e, get_at)

    get_at-dynamic :
        (child : DispatchNode Fn)
        → find_route p rs ≡ none
        → dynamic_child d ≡ some child
        → is_empty id ≡ false
        → find id params ≡ none
        → get_at ndebug m (p ∷ path) (dispatch_node rs id d fs) params
          ≡ get_at ndebug m path child (emplace id p params)
    unfolding get_at
    get_at-dynamic child e c named free = rw (filled, e, c, named, free, get_at)

  module _ (ndebug : Bool) (m : Method) (fn : Fn) where
    get_at-add_at :
        (route path : List Text) (n : DispatchNode Fn) (params : StdMap Text Text)
        → (add_at m fn route n).0 ≡ ok tt
        → Fits route path n params
        → get_at ndebug m path (add_at m fn route n).1 params
          ≡ (ok (some fn), bound route path params)
    get_at-add_at [] [] n params e h =
        unfold get_at add_at in rw (function_at-add_function m fn n e)
    get_at-add_at [] (p ∷ path) n params e h = absurd h
    get_at-add_at (r ∷ route) [] n params e h = absurd h
    get_at-add_at (r ∷ route) (p ∷ path) (dispatch_node rs id d fs) params e (filled, h) =
        elim (Option-cases (dynamic_name r)) [
          | inl static ↦
              let added = add_at-static m fn r route rs id d fs static in
              let (same, fits) = rw static at h in
              let child = add_at m fn route (node_or_new (find_route r rs)) in
              ap (λ (a : Outcome Unit × DispatchNode Fn). get_at ndebug m (p ∷ path) a.1 params)
                added
              ∙ get_at-static ndebug m p path (put_route r child.1 rs) id d fs params filled child.1
                  (rw same (find_route-put_route_self r child.1 rs))
              ∙ get_at-add_at route path (node_or_new (find_route r rs)) params
                  (ap (λ (a : Outcome Unit × DispatchNode Fn). a.0) (sym added) ∙ e) fits
              ∙ rw static
          | inr (name, dynamic) ↦
              let added = add_at-dynamic m fn r route rs id d fs name dynamic e in
              let (missing, free, fits) = rw dynamic at h in
              let child = add_at m fn route (dynamic_target id d) in
              ap (λ (a : Outcome Unit × DispatchNode Fn). get_at ndebug m (p ∷ path) a.1 params)
                added
              ∙ get_at-dynamic ndebug m p path rs name (dynamic_node child.1) fs params filled
                  child.1 missing refl (dynamic_name-ne-nil r name dynamic) free
              ∙ get_at-add_at route path (dynamic_target id d) (emplace name p params)
                  (ap (λ (a : Outcome Unit × DispatchNode Fn). a.0) (sym added) ∙ e) fits
              ∙ rw dynamic
        ]

  -- After a successful registration the route's paths are dispatched to the function, and the
  -- parameters are bound to the parts of the path that stand for the route's identifiers.
  pub get_dispatch-add_route :
      (ndebug : Bool) (m : Method) (fn : Fn) (n : DispatchNode Fn) (params : StdMap Text Text)
      (dispatch_route path : Text) (route parts : List Text)
      → dispatch_split dispatch_route ≡ ok route
      → dispatch_split path ≡ ok parts
      → (add_route m dispatch_route fn n).0 ≡ ok tt
      → Fits route parts n params
      → get_dispatch ndebug m path (add_route m dispatch_route fn n).1 params
        ≡ (ok (some fn), bound route parts params)
  unfolding get_dispatch add_route
  get_dispatch-add_route ndebug m fn n params dispatch_route path route parts r p e h =
      rw (p, r, get_dispatch, add_route)
        (get_at-add_at ndebug m fn route parts n params (rw (r, add_route) at e) h)

  add_at-dynamic_known :
      (m : Method) (fn : Fn) (r : Text) (route : List Text) (rs : StaticRoutes Fn)
      (fs : StdMap Method Fn) (name : Text) (child : DispatchNode Fn)
      → dynamic_name r ≡ some name
      → add_at m fn (r ∷ route) (dispatch_node rs name (dynamic_node child) fs)
        ≡ under_dynamic name
            (dispatch_node rs name (dynamic_node child) fs)
            (add_at m fn route child)
  unfolding add_at
  add_at-dynamic_known m fn r route rs fs name child e =
      rw (e, dynamic_name-ne-nil r name e, text_eq_refl name, add_at)

  add_function-again :
      (m : Method) (fn g : Fn) (n : DispatchNode Fn)
      → (add_function m fn n).0 ≡ ok tt
      → add_function m g (add_function m fn n).1 ≡ (throw invalid_argument, (add_function m fn n).1)
  unfolding add_function
  add_function-again m fn g (dispatch_node rs id d fs) e = ground (arith, find-emplace_self m fn fs)

  pub add_route-split :
      (m : Method) (fn : Fn) (n : DispatchNode Fn) (dispatch_route : Text) (route : List Text)
      → dispatch_split dispatch_route ≡ ok route
      → add_route m dispatch_route fn n ≡ add_at m fn route n
  unfolding add_route
  add_route-split m fn n dispatch_route route h = rw (h, add_route)

  split_of_added :
      (m : Method) (fn : Fn) (n : DispatchNode Fn) (dispatch_route : Text)
      → (add_route m dispatch_route fn n).0 ≡ ok tt
      → (route : List Text) × (dispatch_split dispatch_route ≡ ok route)
  unfolding add_route
  split_of_added m fn n dispatch_route e = ground arith

  module _ (m : Method) (fn g : Fn) where
    add_at-again :
        (route : List Text) (n : DispatchNode Fn)
        → (add_at m fn route n).0 ≡ ok tt
        → add_at m g route (add_at m fn route n).1
          ≡ (throw invalid_argument, (add_at m fn route n).1)
    add_at-again [] n e = unfold add_at in add_function-again m fn g n e
    add_at-again (r ∷ route) (dispatch_node rs id d fs) e = elim (Option-cases (dynamic_name r)) [
      | inl static ↦
          let added = add_at-static m fn r route rs id d fs static in
          let child = add_at m fn route (node_or_new (find_route r rs)) in
          let ih =
            add_at-again route (node_or_new (find_route r rs))
              (ap (λ (a : Outcome Unit × DispatchNode Fn). a.0) (sym added) ∙ e) in
          rw added (
            add_at-static m g r route (put_route r child.1 rs) id d fs static
            ∙ rw (find_route-put_route_self r child.1 rs) (rw ih (rw put_route-put_route)))
      | inr (name, dynamic) ↦
          let added = add_at-dynamic m fn r route rs id d fs name dynamic e in
          let child = add_at m fn route (dynamic_target id d) in
          let ih =
            add_at-again route (dynamic_target id d)
              (ap (λ (a : Outcome Unit × DispatchNode Fn). a.0) (sym added) ∙ e) in
          rw added (add_at-dynamic_known m g r route rs fs name child.1 dynamic ∙ rw ih)
    ]

    -- A method is registered for a route once: another registration of the same throws
    -- std::invalid_argument and leaves the routes as they are.
    pub add_route-again :
        (dispatch_route : Text) (n : DispatchNode Fn)
        → (add_route m dispatch_route fn n).0 ≡ ok tt
        → add_route m dispatch_route g (add_route m dispatch_route fn n).1
          ≡ (throw invalid_argument, (add_route m dispatch_route fn n).1)
    add_route-again dispatch_route n e =
        let (route, h) = split_of_added m fn n dispatch_route e in
        let first = add_route-split m fn n dispatch_route route h in
        rw first (
          add_route-split m g (add_at m fn route n).1 dispatch_route route h
          ∙ add_at-again route n (rw first at e))
