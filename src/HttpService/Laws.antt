-- ===== src/HttpService/Laws.antt =====
-- Execution of a structured request, for every way in which the resource can end.
use http_cpp.Base.{
  ◌≡◌, refl, arith, Text, Option, none, some, Outcome, ok, [], ap, ◌∙◌, ◌↔◌, ◌⊎◌, Exception,
  http_invalid_request, foreign_exception, ◌>>=◌,
}
use mathlib.Core.Option
use http_cpp.Build.{Build}
use http_cpp.HttpConstants.{
  Status, http_unknown, http_ok, http_bad_request, http_not_found, http_internal_server_error,
}
use http_cpp.GenericStructure.{GenericResponse, generic_response}
use http_cpp.HttpStructure.{HttpRequest, HttpResponse, to_generic}
use http_cpp.HttpProtocolHandler.{
  ProtocolVersion, one_one, one_zero, HandlerCache, get_handler, respond_by, make_response_one_zero,
}
use http_cpp.HttpProtocolHandler.Laws.{IsCoherent, version_of, HasVersion-some, get_handler-refines}
use http_cpp.HttpProtocolOneOne.{make_response}
use http_cpp.HttpResource.{Resource, ResourceFactory}
use http_cpp.HttpService.{Memory, run_request, execute, default_ok}
use http_cpp.HttpService.Host.{Host}
use http_cpp.HttpService.ExtractHost.{extract_host}

-- A request that names a host and a known version, in a server with a coherent cache.
pub record IsAddressed (r : HttpRequest) (c : HandlerCache) : Type 0 where
  pub host : Host
  pub extracted : extract_host r ≡ ok host
  pub version : ProtocolVersion
  pub versioned : version_of r.http_version ≡ some version
  pub coherent : IsCoherent c

abbrev pub status_of : Outcome HttpResponse → Option Status
status_of (ok r) = some r.status_code
status_of _ = none

abbrev pub body_of : Outcome HttpResponse → Option Text
body_of (ok r) = some r.message_body
body_of _ = none

-- What a resource leaves in the status member, as a response shows it.
abbrev pub shown : Status → Status
shown http_unknown = http_ok
shown s = s

-- The status by which an exception is answered, if it is caught.
abbrev pub status_for : Exception → Option Status
status_for http_invalid_request = some http_bad_request
status_for foreign_exception = none
status_for _ = some http_internal_server_error

status-default_ok : (g : GenericResponse) → (default_ok g).status_code ≡ shown g.status_code
status-default_ok g = ground arith

body-default_ok : (g : GenericResponse) → (default_ok g).message_body ≡ g.message_body
body-default_ok g = ground arith

shown-eq-ok : (s : Status) → (some (shown s) ≡ some http_ok) ↔ ((s ≡ http_unknown) ⊎ (s ≡ http_ok))
shown-eq-ok s = ground arith

module _ (b : Build) (memory : Memory) (f : ResourceFactory) (r : HttpRequest) (c : HandlerCache)
    (a : IsAddressed r c) where
  pub execute-eq : (execute b memory f r c).0 ≡ (
      run_request f (to_generic r) (generic_response memory.status) >>= λ g.
      ok (respond_by a.version memory.date (default_ok g)))
  unfolding execute
  execute-eq =
      let (refined, _, _) = get_handler-refines b r.http_version c a.coherent in
      let (h, found, version) =
        HasVersion-some (get_handler b r.http_version c).0 a.version (rw a.versioned at refined) in
      rw (a.extracted, found, version)

  status-respond_by :
      (v : ProtocolVersion) (g : GenericResponse)
      → (respond_by v memory.date g).status_code ≡ g.status_code
  unfolding respond_by make_response make_response_one_zero
  status-respond_by one_one g = refl
  status-respond_by one_zero g = refl

  body-respond_by :
      (v : ProtocolVersion) (g : GenericResponse)
      → (respond_by v memory.date g).message_body ≡ g.message_body
  unfolding respond_by make_response make_response_one_zero
  body-respond_by one_one g = refl
  body-respond_by one_zero g = refl

  -- The status and the body of the response, where the resource's response is kept.
  execute-ok :
      (g : GenericResponse)
      → run_request f (to_generic r) (generic_response memory.status) ≡ ok g
      → (status_of (execute b memory f r c).0 ≡ some (shown g.status_code))
        × (body_of (execute b memory f r c).0 ≡ some g.message_body)
  execute-ok g e =
      rw (execute-eq, e)
        (
          ap some (status-respond_by a.version (default_ok g) ∙ status-default_ok g),
          ap some (body-respond_by a.version (default_ok g) ∙ body-default_ok g),
        )

  -- A request that names a host and a known version, from a coherent cache of handlers, and for
  -- which the factory finds no resource, is answered by 404 and no body.
  pub execute-not_found :
      f (to_generic r) ≡ ok none
      → (status_of (execute b memory f r c).0 ≡ some http_not_found)
        × (body_of (execute b memory f r c).0 ≡ some [])
  unfolding run_request
  execute-not_found e =
      execute-ok (record (generic_response memory.status) { status_code = http_not_found }) (rw e)

  -- A request that names a host and a known version, from a coherent cache of handlers, and that its
  -- resource serves, is answered by the body that the resource wrote and the status that it set,
  -- where a status of http_unknown becomes 200.
  pub execute-served :
      (resource : Resource) (g : GenericResponse)
      → f (to_generic r) ≡ ok (some resource)
      → resource (to_generic r) (generic_response memory.status) ≡ (ok tt, g)
      → (status_of (execute b memory f r c).0 ≡ some (shown g.status_code))
        × (body_of (execute b memory f r c).0 ≡ some g.message_body)
  unfolding run_request
  execute-served resource g e h = execute-ok g (rw (e, h))

  -- For a request that names a host and a known version, from a coherent cache of handlers: where
  -- the resource sets no status, the answer is 200 exactly if the memory of the status, to which the
  -- constructor gives no value, held http_unknown or http_ok.
  pub execute-status_unset :
      (resource : Resource) (g : GenericResponse)
      → f (to_generic r) ≡ ok (some resource)
      → resource (to_generic r) (generic_response memory.status) ≡ (ok tt, g)
      → g.status_code ≡ (generic_response memory.status).status_code
      → (status_of (execute b memory f r c).0 ≡ some http_ok)
        ↔ ((memory.status ≡ http_unknown) ⊎ (memory.status ≡ http_ok))
  execute-status_unset resource g e h same =
      rw ((execute-served resource g e h).0, same) (shown-eq-ok memory.status)
