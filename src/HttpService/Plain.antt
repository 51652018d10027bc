-- ===== src/HttpService/Plain.antt =====
-- Parsing and execution as functions of the request: what they are without the cache of handlers.
use http_cpp.Base.{
  ◌≡◌, refl, ◌⊎◌, Text, Option, none, some, Outcome, ok, throw, terminate, undefined,
  http_invalid_request, ◌>>=◌, Exec, then_exec, Option-cases, inl, inr,
}
use http_cpp.Build.{Build}
use http_cpp.HttpConstants.{http_bad_request}
use http_cpp.GenericStructure.{GenericRequest, generic_response}
use http_cpp.HttpStructure.{
  HttpRequest, http_request, HttpResponse, http_response, default_http_version, to_generic,
}
use http_cpp.HttpProtocolHandler.{
  ProtocolVersion, Handler, HandlerCache, get_handler, extract_http_version, parse_by, respond_by,
}
use http_cpp.HttpProtocolHandler.Laws.{
  IsCoherent, version_of, HasVersion-some, HasVersion-none, get_handler-refines,
}
use http_cpp.HttpResource.{ResourceFactory}
use http_cpp.HttpService.{Memory, parse_request, check_status, run_request, default_ok, execute}
use http_cpp.HttpService.ExtractHost.{extract_host}

module _ {ℓ κ μ ν} {S : Type ℓ} {A : Type κ} {B : Type μ} (P : S → Type ν) where
  -- The outcome of a call that is followed by another, whose outcome the state does not change.
  pub then_exec-outcome :
      (f : A → Exec S B) (g : A → Outcome B)
      → ((a : A) (s : S) → P s → (f a s).0 ≡ g a)
      → (r : Outcome A × S) → P r.1
      → (then_exec f r).0 ≡ (r.0 >>= g)
  then_exec-outcome f g e (ok a, s) p = e a s p
  then_exec-outcome f g e (throw x, s) p = refl
  then_exec-outcome f g e (terminate, s) p = refl
  then_exec-outcome f g e (undefined, s) p = refl

module _ (b : Build) (memory : Memory) where
  -- Parsing by the version that the request names.
  abbrev pub parsed_as : Text → Option ProtocolVersion → Outcome HttpRequest
  parsed_as frame none = throw http_invalid_request
  parsed_as frame (some v) = parse_by b v frame (http_request memory.method) >>= check_status

  abbrev responded_as :
      ResourceFactory → GenericRequest → Option ProtocolVersion → Outcome HttpResponse
  responded_as create_handle request none = ok (http_response default_http_version http_bad_request)
  responded_as create_handle request (some v) =
      run_request create_handle request (generic_response memory.status) >>= λ g.
      ok (respond_by v memory.date (default_ok g))

  unfoldable pub parsed : Text → Outcome HttpRequest
  parsed frame = extract_http_version frame >>= λ version. parsed_as frame (version_of version)

  unfoldable pub executed : ResourceFactory → HttpRequest → Outcome HttpResponse
  executed create_handle request = extract_host request >>= λ host.
      responded_as create_handle (to_generic request) (version_of request.http_version)

  -- The handler that is found is of the version that the text names.
  get_handler_cases :
      (t : Text) (c : HandlerCache)
      → IsCoherent c
      → ((version_of t ≡ none) × ((get_handler b t c).0 ≡ ok none))
        ⊎ ((v : ProtocolVersion) × (h : Handler) × (version_of t ≡ some v)
            × ((get_handler b t c).0 ≡ ok (some h))
            × (h.version ≡ v))
  get_handler_cases t c i =
      let (refined, _, _) = get_handler-refines b t c i in
      elim (Option-cases (version_of t)) [
        | inl unknown ↦ inl (unknown, HasVersion-none (get_handler b t c).0 (rw unknown at refined))
        | inr (v, known) ↦
            let (h, found, same) = HasVersion-some (get_handler b t c).0 v (rw known at refined) in
            inr (v, h, known, found, same)
      ]

  pub parse_request-plain :
      (frame : Text) (c : HandlerCache)
      → IsCoherent c
      → (parse_request b memory frame c).0 ≡ parsed frame
  unfolding parse_request parsed
  parse_request-plain frame c i =
      then_exec-outcome IsCoherent _ _
        (λ version c' i'. elim (get_handler_cases version c' i') [
          | inl (unknown, missing) ↦ rw (unknown, missing)
          | inr (v, h, known, found, same) ↦ rw (known, found, same)
        ])
        (extract_http_version frame, c) i

  pub execute-plain :
      (f : ResourceFactory) (request : HttpRequest) (c : HandlerCache)
      → IsCoherent c
      → (execute b memory f request c).0 ≡ executed f request
  unfolding execute executed
  execute-plain f request c i =
      then_exec-outcome IsCoherent _ _
        (λ host c' i'. elim (get_handler_cases request.http_version c' i') [
          | inl (unknown, missing) ↦ rw (unknown, missing)
          | inr (v, h, known, found, same) ↦ rw (known, found, same)
        ])
        (extract_host request, c) i
