-- ===== src/LibRest.antt =====
-- librest/include/rest_request.h, rest_resource.h and rest_service.h: a service of routes.
pub mod MyService
pub mod Laws
use http_cpp.Base.{
  ◌≡◌, Text, [], Option, none, some, Bool, Outcome, ok, throw, terminate, undefined, Exec, ◌>>=◌,
}
use http_cpp.Base.StdMap.{StdMap}
use http_cpp.HttpConstants.{Status, http_not_found}
use http_cpp.GenericStructure.{GenericRequest, GenericResponse}
use http_cpp.HttpResource.{Resource, ExternalService}
use http_cpp.Router.{DispatchNode, get_dispatch}

pub record RestRequest : Type 0 where
  pub req : GenericRequest
  pub params : StdMap Text Text

-- `rest_resource::function_signature`
abbrev pub RestFunction : Type 0
RestFunction = RestRequest → Exec GenericResponse (Unit {0})

-- `rest_resource::execute`; an empty function is `none`.
unfoldable pub execute : Option RestFunction → StdMap Text Text → Resource
execute none params request response = (ok tt, record response { status_code = http_not_found })
execute (some fn) params request response = fn (record { req = request; params = params }) response

abbrev rest_resource : Outcome (Option RestFunction) × StdMap Text Text → Outcome (Option Resource)
rest_resource (found, params) = found >>= λ fn. ok (some (execute fn params))

-- `rest_service::create_resource`
unfoldable pub create_resource : Bool → DispatchNode RestFunction → ExternalService
create_resource ndebug router request =
    rest_resource (get_dispatch ndebug request.method request.request_uri router [])
