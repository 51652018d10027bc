-- ===== src/HttpResource.antt =====
-- libhttp-cpp/include/interface/http_resource.h and http_external_service.h: what a resource and an
-- external service do, as seen by the server.
use http_cpp.Base.{Outcome, Option, Exec}
use http_cpp.GenericStructure.{GenericRequest, GenericResponse}

-- `execute(request, response)`, which fills in the response, also when it throws later.
abbrev pub Resource : Type 0
Resource = GenericRequest → Exec GenericResponse (Unit {0})

-- `create_handle(request)`: a resource or `nullptr`.
abbrev pub ResourceFactory : Type 0
ResourceFactory = GenericRequest → Outcome (Option Resource)

-- `create_resource(request)` of an external service.
abbrev pub ExternalService : Type 0
ExternalService = GenericRequest → Outcome (Option Resource)
