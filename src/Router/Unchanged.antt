-- ===== src/Router/Unchanged.antt =====
-- librest/include/router.hpp: `add_route` where it does not succeed.
use http_cpp.Base.{
  ◌≡◌, refl, ap, ◌∙◌, Text, List, [], ◌∷◌, ◌⊎◌, none, some, false, Outcome, ok, undefined, throw,
  terminate, is_empty, text_eq, Option-cases, Bool-cases, inl, inr,
}
use http_cpp.Base.Order.{text_order}
use http_cpp.Base.StdMap.{StdMap, find}
use http_cpp.HttpConstants.{Method}
use http_cpp.HttpConstants.MethodOrder.{method_order}
use http_cpp.Router.{
  DispatchNode, dispatch_node, StaticRoutes, no_routes, static_route, DynamicRoute, no_dynamic,
  dynamic_node, dynamic_name, new_node, find_route, put_route, dynamic_child, under_static,
  under_dynamic, add_function, add_at, add_route, dispatch_split,
}
use http_cpp.Router.Dispatch.{add_at-static}

module _ {Fn : Type 0} where
  -- Below a node that is new there is nothing to be in conflict with.
  add_at-new_node :
      (m : Method) (fn : Fn) (route : List Text) → (add_at m fn route new_node).0 ≡ ok tt
  unfolding add_at add_function find find_route
  add_at-new_node m fn [] = refl
  add_at-new_node m fn (r ∷ route) = elim (Option-cases (dynamic_name r)) [
    | inl static ↦ rw (static, add_at) (add_at-new_node m fn route)
    | inr (name, dynamic) ↦ rw (dynamic, add_at) (add_at-new_node m fn route)
  ]

  put_route-known :
      (k : Text) (n : DispatchNode Fn) (rs : StaticRoutes Fn)
      → find_route k rs ≡ some n
      → put_route k n rs ≡ rs
  unfolding find_route put_route
  put_route-known k n no_routes e = cc
  put_route-known k n (static_route j o rs) e = elim (Bool-cases (text_eq k j)) [
    | inl same ↦ let here = rw same at e in rw same cc
    | inr other ↦
        let later = rw other at e in rw other (ap (static_route j o) (put_route-known k n rs later))
  ]

  -- Either it succeeded, or the node is what it was.
  abbrev IsAllOrNothing : DispatchNode Fn → Outcome (Unit {0}) × DispatchNode Fn → Type 0
  IsAllOrNothing n (result, n') = (result ≡ ok tt) ⊎ (n' ≡ n)

  add_function-IsAllOrNothing :
      (m : Method) (fn : Fn) (n : DispatchNode Fn) → IsAllOrNothing n (add_function m fn n)
  unfolding add_function
  add_function-IsAllOrNothing m fn (dispatch_node rs id d fs) = elim (Option-cases (find m fs)) [
    | inl fresh ↦ rw (fresh, add_function) (inl refl)
    | inr (old, known) ↦ rw (known, add_function) (inr refl)
  ]

  under_static-IsAllOrNothing :
      (r : Text) (rs : StaticRoutes Fn) (id : Text) (d : DynamicRoute Fn) (fs : StdMap Method Fn)
      (child : DispatchNode Fn) (a : Outcome (Unit {0}) × DispatchNode Fn)
      → find_route r rs ≡ some child
      → IsAllOrNothing child a
      → IsAllOrNothing (dispatch_node rs id d fs) (under_static r (dispatch_node rs id d fs) a)
  under_static-IsAllOrNothing r rs id d fs child a known (inl succeeded) = inl succeeded
  under_static-IsAllOrNothing r rs id d fs child a known (inr same) = inr (
      ap (λ o. dispatch_node o id d fs)
        (ap (λ c. put_route r c rs) same ∙ put_route-known r child rs known))

  under_dynamic-IsAllOrNothing :
      (rs : StaticRoutes Fn) (id : Text) (child : DispatchNode Fn) (fs : StdMap Method Fn)
      (a : Outcome (Unit {0}) × DispatchNode Fn)
      → IsAllOrNothing child a
      → IsAllOrNothing
          (dispatch_node rs id (dynamic_node child) fs)
          (under_dynamic id (dispatch_node rs id (dynamic_node child) fs) a)
  under_dynamic-IsAllOrNothing rs id child fs a (inl succeeded) = inl succeeded
  under_dynamic-IsAllOrNothing rs id child fs a (inr same) =
      inr (ap (λ o. dispatch_node rs id (dynamic_node o) fs) same)

  -- At a part for an identifier of a node that has one.
  add_at-identifier :
      (m : Method) (fn : Fn) (r : Text) (route : List Text) (rs : StaticRoutes Fn) (id : Text)
      (d : DynamicRoute Fn) (fs : StdMap Method Fn) (name : Text)
      → dynamic_name r ≡ some name
      → is_empty id ≡ false
      → ((child : DispatchNode Fn) → IsAllOrNothing child (add_at m fn route child))
      → IsAllOrNothing
          (dispatch_node rs id d fs)
          (add_at m fn (r ∷ route) (dispatch_node rs id d fs))
  unfolding add_at
  add_at-identifier m fn r route rs id d fs name dynamic named below =
      elim (Bool-cases (text_eq id name)) [
        | inr other ↦ rw (dynamic, named, other, add_at) (inr refl)
        | inl same ↦ rw (dynamic, named, same, add_at) (at_child d)
      ]
    where
      at_child :
          (d : DynamicRoute Fn)
          → IsAllOrNothing (dispatch_node rs id d fs) (elim (dynamic_child d) [
            | none ↦ (undefined, dispatch_node rs id d fs)
            | some child ↦ under_dynamic id (dispatch_node rs id d fs) (add_at m fn route child)
          ])
      at_child no_dynamic = inr refl
      at_child (dynamic_node child) =
          under_dynamic-IsAllOrNothing rs id child fs (add_at m fn route child) (below child)

  add_at-IsAllOrNothing :
      (m : Method) (fn : Fn) (route : List Text) (n : DispatchNode Fn)
      → IsAllOrNothing n (add_at m fn route n)
  unfolding add_at
  add_at-IsAllOrNothing m fn [] n = add_function-IsAllOrNothing m fn n
  add_at-IsAllOrNothing m fn (r ∷ route) (dispatch_node rs id d fs) =
      elim (Option-cases (dynamic_name r)) [
        | inl static ↦
            rw (add_at-static m fn r route rs id d fs static)
              (elim (Option-cases (find_route r rs)) [
                | inl missing ↦ rw missing (inl (add_at-new_node m fn route))
                | inr (child, known) ↦ rw known (
                    under_static-IsAllOrNothing r rs id d fs child (add_at m fn route child) known
                      (add_at-IsAllOrNothing m fn route child))
              ])
        | inr (name, dynamic) ↦ elim (Bool-cases (is_empty id)) [
          | inl fresh ↦ rw (dynamic, fresh, add_at) (inl (add_at-new_node m fn route))
          | inr named ↦
              add_at-identifier m fn r route rs id d fs name dynamic named
                (λ child. add_at-IsAllOrNothing m fn route child)
        ]
      ]

  after_split :
      (m : Method) (fn : Fn) (n : DispatchNode Fn) (o : Outcome (List Text))
      → IsAllOrNothing n (elim o [
        | ok parts ↦ add_at m fn parts n
        | throw e ↦ (throw e, n)
        | terminate ↦ (terminate, n)
        | undefined ↦ (undefined, n)
      ])
  after_split m fn n (ok parts) = add_at-IsAllOrNothing m fn parts n
  after_split m fn n (throw e) = inr refl
  after_split m fn n terminate = inr refl
  after_split m fn n undefined = inr refl

  pub add_route-IsAllOrNothing :
      (m : Method) (fn : Fn) (dispatch_route : Text) (n : DispatchNode Fn)
      → IsAllOrNothing n (add_route m dispatch_route fn n)
  unfolding add_route
  add_route-IsAllOrNothing m fn dispatch_route n =
      after_split m fn n (dispatch_split dispatch_route)

  -- A registration that does not succeed, for whatever reason, leaves the routes as they were.
  pub add_route-unchanged :
      (m : Method) (fn : Fn) (dispatch_route : Text) (n : DispatchNode Fn)
      → ¬ ((add_route m dispatch_route fn n).0 ≡ ok tt)
      → (add_route m dispatch_route fn n).1 ≡ n
  add_route-unchanged m fn dispatch_route n failed =
      elim (add_route-IsAllOrNothing m fn dispatch_route n) [
        | inl succeeded ↦ absurd (failed succeeded)
        | inr same ↦ same
      ]
