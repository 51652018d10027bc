-- ===== src/HttpWorker.antt =====
-- src/http_worker.h and http_worker.cpp: a worker answers one request at a time.
pub mod Laws
pub mod Run
pub mod RunLaws
pub mod Thread
pub mod Logged
pub mod Uncached
pub mod RoundTrip
pub mod ServeFile
pub mod ServeSite
pub mod ServeMessage
use http_cpp.Base.{
  ℕ, Text, codes, List, [], ◌∷◌, Option, none, some, Bool, true, false, Outcome, ok, throw,
  terminate, undefined, Exception, http_invalid_request, ◌>>=◌, Exec, then_exec, text_eq,
  if◌then◌else◌,
}
use http_cpp.Build.{Build}
use http_cpp.HttpConstants.{Status, http_bad_request, http_internal_server_error}
use http_cpp.HttpStructure.{
  HttpRequest, HttpResponse, http_response, default_http_version, print_response,
}
use http_cpp.HttpProtocolHandler.{HandlerCache}
use http_cpp.HttpService.{Memory, parse_request}
use http_cpp.HttpService.Host.{Host}
use http_cpp.HttpService.ExtractHost.{extract_host}
use http_cpp.HttpServer.HttpWebsite.{HttpWebsite, execute, find_website_by}
use http_cpp.HttpServer.Forward.{Frame, Frames, receive_parts, as_req}

abbrev found_or_throw : Option HttpWebsite → Outcome HttpWebsite
found_or_throw none = throw http_invalid_request
found_or_throw (some w) = ok w

unfoldable pub find_website : List HttpWebsite → HttpRequest → Outcome HttpWebsite
find_website websites_ request =
    extract_host request >>= λ host. found_or_throw (find_website_by host websites_)

-- The handlers: any exception is answered, by a 400 or a 500 in a response without headers.
unfoldable pub catch_into_response : Outcome HttpResponse → Outcome HttpResponse
catch_into_response (ok response) = ok response
catch_into_response (throw http_invalid_request) =
    ok (http_response default_http_version http_bad_request)
catch_into_response (throw e) = ok (http_response default_http_version http_internal_server_error)
catch_into_response terminate = terminate
catch_into_response undefined = undefined

-- An exception while the response is written leaves the thread's function, which ends the process.
abbrev uncaught {ℓ} : {A : Type ℓ} → Outcome A → Outcome A
uncaught (throw e) = terminate
uncaught result = result

module _ (b : Build) (memory : Memory) (websites_ : List HttpWebsite) where
  -- The body of the `try` block, once the frames of the request are read.
  unfoldable pub process : Text → Exec HandlerCache HttpResponse
  unfolding find_website
  process frame c =
      then_exec
        (λ request c'.
          then_exec (λ website. execute b memory website request)
            (find_website websites_ request, c'))
        (parse_request b memory frame c)

  -- The answer to a request.
  unfoldable pub answer : Text → Exec HandlerCache Text
  unfolding process catch_into_response
  answer frame c =
      let (result, c') = process frame c in
      (uncaught (catch_into_response result >>= print_response), c')

  -- `handle_request`: the identity, the request, one answer. `none` waits for frames.
  unfoldable pub handle_request :
      Frames → HandlerCache → Option (Outcome Frames × Frames × HandlerCache)
  unfolding answer
  handle_request [] c = none
  handle_request (id ∷ waiting) c = elim (receive_parts [] waiting) [
    | none ↦ none
    | some (frame, rest) ↦
        let (result, c') = answer frame c in
        some ((result >>= λ text. ok (as_req id.body text)), rest, c')
  ]

-- `handle_status`: whether the worker goes on running.
unfoldable pub handle_status : Text → Bool → Bool
handle_status status_str running = if text_eq status_str (codes "QUIT") then false else running
