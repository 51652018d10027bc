-- ===== src/HttpService.antt =====
-- libhttp-cpp/src/http_service.cpp: parsing by the handler of the request's version, and execution
-- of a structured request on the resource that the factory finds.
pub mod Host
pub mod HostLaws
pub mod ExtractHost
pub mod ExtractHostLaws
pub mod Laws
pub mod Parsing
pub mod Plain
pub mod Hash
use http_cpp.Base.{
  ◌≡◌, Text, [], Option, none, some, Outcome, ok, throw, terminate, undefined, Exception,
  http_invalid_request, logic_error, foreign_exception, ◌>>=◌, Exec, then_exec,
}
use http_cpp.Build.{Build}
use http_cpp.HttpConstants.{
  Method, Status, http_unknown, http_ok, http_bad_request, http_not_found,
  http_internal_server_error,
}
use http_cpp.GenericStructure.{GenericRequest, GenericResponse, generic_response}
use http_cpp.HttpStructure.{
  ParsingStatus, success, HttpRequest, http_request, HttpResponse, http_response,
  default_http_version, to_generic, print_response,
}
use http_cpp.HttpProtocolHandler.{
  Handler, HandlerCache, get_handler, extract_http_version, parse_by, respond_by,
}
use http_cpp.HttpResource.{Resource, ResourceFactory}
use ExtractHost.{extract_host}

-- What the memory held where the program reads or copies members that nothing has set, and the text
-- of the date.
pub record Memory : Type 0 where
  pub method : Method
  pub status : Status
  pub date : Text

abbrev check_status : ParsingStatus × HttpRequest → Outcome HttpRequest
check_status (success, r) = ok r
check_status (_, r) = throw http_invalid_request

abbrev parse_with : Build → Text → HttpRequest → Option Handler → Exec HandlerCache HttpRequest
parse_with b request r none c = (throw http_invalid_request, c)
parse_with b request r (some h) c = (parse_by b h.version request r >>= check_status, c)

abbrev lift {ℓ κ} : {S : Type ℓ} {A : Type κ} → Outcome A → Exec S A
lift m s = (m, s)

-- `http_service::parse_request`
unfoldable pub parse_request : Build → Memory → Text → Exec HandlerCache HttpRequest
parse_request b memory request c =
    then_exec
      (λ version c'.
        then_exec (parse_with b request (http_request memory.method)) (get_handler b version c'))
      (lift (extract_http_version request) c)

-- `http_service::parse_response`
unfoldable pub parse_response : Text → Outcome HttpResponse
parse_response response = throw logic_error

abbrev run_resource : Option Resource → GenericRequest → Exec GenericResponse (Unit {0})
run_resource none request g = (ok tt, record g { status_code = http_not_found })
run_resource (some resource) request g = resource request g

-- The handlers of `execute`: what they do not catch goes on.
unfoldable pub catch_all : Outcome (Unit {0}) × GenericResponse → Outcome GenericResponse
catch_all (ok u, g) = ok g
catch_all (throw http_invalid_request, g) = ok (record g { status_code = http_bad_request })
catch_all (throw foreign_exception, g) = throw foreign_exception
catch_all (throw e, g) = ok (record g { status_code = http_internal_server_error })
catch_all (terminate, g) = terminate
catch_all (undefined, g) = undefined

-- Steps 4 and 5 of `execute` for a request with a handler.
unfoldable pub run_request :
    ResourceFactory → GenericRequest → GenericResponse → Outcome GenericResponse
unfolding catch_all
run_request create_handle request g =
    catch_all
      (then_exec (λ resource g'. run_resource resource request g') (lift (create_handle request) g))

-- "Assume successful result by default."
abbrev default_ok : GenericResponse → GenericResponse
default_ok g = elim g.status_code [ http_unknown ↦ record g { status_code = http_ok } | _ ↦ g ]

abbrev respond : Memory → ResourceFactory → GenericRequest → Option Handler → Outcome HttpResponse
respond memory create_handle request none = ok (http_response default_http_version http_bad_request)
respond memory create_handle request (some h) = do
  g ← run_request create_handle request (generic_response memory.status)
  ok (respond_by h.version memory.date (default_ok g))

-- `http_service::execute` of a structured request. A host that differs from the service's is only
-- logged.
unfoldable pub execute :
    Build → Memory → ResourceFactory → HttpRequest → Exec HandlerCache HttpResponse
unfolding run_request
execute b memory create_handle request c =
    then_exec
      (λ detected_host c'.
        then_exec (λ handler. lift (respond memory create_handle (to_generic request) handler))
          (get_handler b request.http_version c'))
      (lift (extract_host request) c)

-- `http_service::execute` of a text.
unfoldable pub execute_text : Build → Memory → ResourceFactory → Text → Exec HandlerCache Text
unfolding execute parse_request
execute_text b memory create_handle request c =
    then_exec
      (λ structured_request c'.
        then_exec (λ response. lift (print_response response))
          (execute b memory create_handle structured_request c'))
      (parse_request b memory request c)
