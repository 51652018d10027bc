-- ===== src/LibRest/Laws.antt =====
-- A service of routes behind the server.
use http_cpp.Base.{
  ◌≡◌, ◌≢◌, refl, arith, ℕ, Text, [], ◌∷◌, List, none, some, Bool, ok, throw, terminate,
  invalid_argument,
}
use http_cpp.Base.StdMap.{StdMap}
use http_cpp.Build.{Build}
use http_cpp.HttpConstants.{http_not_found}
use http_cpp.GenericStructure.{GenericRequest, GenericResponse}
use http_cpp.HttpStructure.{HttpRequest, to_generic}
use http_cpp.HttpProtocolHandler.{HandlerCache}
use http_cpp.HttpResource.{Resource}
use http_cpp.HttpResourceFactory.{create_external_handle}
use http_cpp.HttpFilesystemResource.{FileSystem}
use http_cpp.HttpService
use http_cpp.HttpService.{Memory, run_request}
use http_cpp.HttpService.Laws.{IsAddressed, execute-eq}
use http_cpp.Router.{DispatchNode, add_route, get_dispatch, dispatch_split}
use http_cpp.Router.Dispatch.{Fits, bound, get_dispatch-add_route}
use http_cpp.LibRest.{RestFunction, execute, create_resource}

dispatch_split-other :
    (c : ℕ) (s : Text) → c ≢ b'/' → dispatch_split (c ∷ s) ≡ throw invalid_argument
unfolding dispatch_split
dispatch_split-other c s h = ground arith

handle-other :
    (ndebug : Bool) (fs : FileSystem) (router : DispatchNode RestFunction)
    (request : GenericRequest) (c : ℕ) (s : Text)
    → request.request_uri ≡ c ∷ s
    → c ≢ b'/'
    → create_external_handle fs (create_resource ndebug router) request ≡ terminate
unfolding create_external_handle create_resource get_dispatch
handle-other ndebug fs router request c s uri other =
    rw (uri, dispatch_split-other c s other, get_dispatch)

-- A request that names a host and a known version, from a coherent cache of handlers, for a service
-- of routes: a request-URI that does not begin with '/', such as an absolute one, ends the process.
-- The router throws, and the factory's function through which it throws is `noexcept`.
pub execute-absolute_uri :
    (b : Build) (memory : Memory) (fs : FileSystem) (router : DispatchNode RestFunction)
    (r : HttpRequest) (cache : HandlerCache) (c : ℕ) (s : Text)
    → IsAddressed r cache
    → r.request_uri ≡ c ∷ s
    → c ≢ b'/'
    → (HttpService.execute b memory
        (create_external_handle fs (create_resource b.ndebug router))
        r
        cache).0
      ≡ terminate
unfolding run_request
execute-absolute_uri b memory fs router r cache c s a uri other =
    let ends =
      handle-other b.ndebug fs router (to_generic r) c s (unfold to_generic in uri) other in
    rw (
      execute-eq b memory (create_external_handle fs (create_resource b.ndebug router)) r cache a,
      ends,
    )

-- After a successful registration the service answers the requests that fit the route by the
-- registered function, on the parameters that the path binds.
pub create_resource-add_route :
    (ndebug : Bool) (fn : RestFunction) (n : DispatchNode RestFunction) (request : GenericRequest)
    (dispatch_route : Text) (route parts : List Text)
    → dispatch_split dispatch_route ≡ ok route
    → dispatch_split request.request_uri ≡ ok parts
    → (add_route request.method dispatch_route fn n).0 ≡ ok tt
    → Fits route parts n []
    → create_resource ndebug (add_route request.method dispatch_route fn n).1 request
      ≡ ok (some (execute (some fn) (bound route parts [])))
unfolding create_resource
create_resource-add_route ndebug fn n request dispatch_route route parts r p e h = rw (
    get_dispatch-add_route ndebug request.method fn n [] dispatch_route request.request_uri route
      parts r p e h)

-- A path or a method with no function is answered by 404.
pub execute-no_route :
    (ndebug : Bool) (router : DispatchNode RestFunction) (request : GenericRequest)
    (params : StdMap Text Text) (response : GenericResponse)
    → get_dispatch ndebug request.method request.request_uri router [] ≡ (ok none, params)
    → (resource : Resource) × (create_resource ndebug router request ≡ ok (some resource))
      × ((resource request response).1.status_code ≡ http_not_found)
unfolding create_resource execute
execute-no_route ndebug router request params response e = (execute none params, rw e, refl)
