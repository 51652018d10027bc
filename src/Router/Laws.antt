-- ===== src/Router/Laws.antt =====
-- librest/include/router.hpp: the map of static routes.
use http_cpp.Base.{◌≡◌, arith, Text, some, false, ok, text_eq, text_eq_refl, text_eq_iff}
use http_cpp.Base.Order.{text_order}
use http_cpp.Base.StdMap.Laws.{find-emplace_self}
use http_cpp.HttpConstants.{Method}
use http_cpp.HttpConstants.MethodOrder.{method_order}
use http_cpp.Router.{
  DispatchNode, dispatch_node, StaticRoutes, no_routes, static_route, find_route, put_route,
  add_function, function_at,
}

module _ {Fn : Type 0} where
  pub find_route-put_route_self :
      (k : Text) (n : DispatchNode Fn) (rs : StaticRoutes Fn)
      → find_route k (put_route k n rs) ≡ some n
  unfolding find_route put_route
  find_route-put_route_self k n no_routes = rw text_eq_refl
  find_route-put_route_self k n (static_route j o rs) =
      ground (arith, find_route-put_route_self k n rs, text_eq_refl k)

  pub find_route-put_route_ne :
      (j k : Text) (n : DispatchNode Fn) (rs : StaticRoutes Fn)
      → text_eq j k ≡ false
      → find_route j (put_route k n rs) ≡ find_route j rs
  unfolding find_route put_route
  find_route-put_route_ne j k n no_routes e = rw e
  find_route-put_route_ne j k n (static_route i o rs) e =
      ground (
        arith,
        find_route-put_route_ne j k n rs e,
        text_eq_iff j i,
        text_eq_iff k i,
        text_eq_iff j k,
      )

  pub put_route-put_route :
      (k : Text) (n : DispatchNode Fn) (rs : StaticRoutes Fn)
      → put_route k n (put_route k n rs) ≡ put_route k n rs
  unfolding put_route
  put_route-put_route k n no_routes = rw text_eq_refl
  put_route-put_route k n (static_route j o rs) =
      ground (arith, put_route-put_route k n rs, text_eq_refl k)

  pub function_at-add_function :
      (m : Method) (fn : Fn) (n : DispatchNode Fn)
      → (add_function m fn n).0 ≡ ok tt
      → function_at m (add_function m fn n).1 ≡ some fn
  unfolding add_function
  function_at-add_function m fn (dispatch_node rs id d fs) e =
      ground (arith, find-emplace_self m fn fs)
