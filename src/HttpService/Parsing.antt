-- ===== src/HttpService/Parsing.antt =====
-- `http_service::parse_request` by the version of the request.
use http_cpp.Base.{
  ◌≡◌, refl, Text, Option, none, some, ok, throw, http_invalid_request, invalid_argument, ◌>>=◌,
  text_eq, then_exec-keeps,
}
use http_cpp.Base.Regex.{regex_match, match_from, match_many}
use http_cpp.Build.{Build}
use http_cpp.HttpConstants.{Method}
use http_cpp.HttpStructure.{HttpRequest, http_request}
use http_cpp.HttpProtocolHandler.{
  ProtocolVersion, Handler, HandlerCache, get_handler, extract_http_version, parse_by,
}
use http_cpp.HttpProtocolHandler.Laws.{
  IsCoherent, version_of, HasVersion-some, HasVersion-none, get_handler-refines,
}
use http_cpp.HttpService.{Memory, parse_request, parse_with, check_status, execute}
use http_cpp.HttpResource.{ResourceFactory}
use http_cpp.HttpService.ExtractHost.{extract_host}

module _ (b : Build) (memory : Memory) (frame version : Text) (c : HandlerCache) (i : IsCoherent c)
    (extracted : extract_http_version frame ≡ ok version) where
  pub parse_request-unknown :
      version_of version ≡ none → (parse_request b memory frame c).0 ≡ throw http_invalid_request
  unfolding parse_request
  parse_request-unknown h =
      let (refined, _, _) = get_handler-refines b version c i in
      let missing = HasVersion-none (get_handler b version c).0 (rw h at refined) in
      rw (extracted, missing)

  pub parse_request-known :
      (v : ProtocolVersion)
      → version_of version ≡ some v
      → (parse_request b memory frame c).0
        ≡ (parse_by b v frame (http_request memory.method) >>= check_status)
  unfolding parse_request
  parse_request-known v h =
      let (refined, _, _) = get_handler-refines b version c i in
      let (handler, found, same) =
        HasVersion-some (get_handler b version c).0 v (rw h at refined) in
      rw (extracted, found, same)

-- A request that was never filled in names no host.
pub extract_host-unfilled : (m : Method) → extract_host (http_request m) ≡ throw invalid_argument
unfolding extract_host regex_match match_from match_many text_eq
extract_host-unfilled m = refl

module _ (b : Build) (memory : Memory) where
  parse_with-IsCoherent :
      (request : Text) (r : HttpRequest) (h : Option Handler) (c : HandlerCache)
      → IsCoherent c
      → IsCoherent (parse_with b request r h c).1
  parse_with-IsCoherent request r none c i = i
  parse_with-IsCoherent request r (some h) c i = i

  pub parse_request-IsCoherent :
      (frame : Text) (c : HandlerCache)
      → IsCoherent c
      → IsCoherent (parse_request b memory frame c).1
  unfolding parse_request
  parse_request-IsCoherent frame c i =
      then_exec-keeps IsCoherent _ (extract_http_version frame, c) i
        λ version c' i'.
          then_exec-keeps IsCoherent _ (get_handler b version c')
            (get_handler-refines b version c' i').1
            (parse_with-IsCoherent frame (http_request memory.method))

  pub execute-IsCoherent :
      (f : ResourceFactory) (request : HttpRequest) (c : HandlerCache)
      → IsCoherent c
      → IsCoherent (execute b memory f request c).1
  unfolding execute
  execute-IsCoherent f request c i =
      then_exec-keeps IsCoherent _ (extract_host request, c) i
        λ host c' i'.
          then_exec-keeps IsCoherent _ (get_handler b request.http_version c')
            (get_handler-refines b request.http_version c' i').1 (λ h c'' i''. i'')
