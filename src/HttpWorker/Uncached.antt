-- ===== src/HttpWorker/Uncached.antt =====
-- What a worker answers, without the cache of protocol handlers.
use http_cpp.Base.{◌≡◌, ap, ◌∙◌, Text, List, Outcome, ◌>>=◌}
use http_cpp.Build.{Build}
use http_cpp.HttpStructure.{HttpResponse, print_response}
use http_cpp.HttpProtocolHandler.{HandlerCache}
use http_cpp.HttpProtocolHandler.Laws.{IsCoherent}
use http_cpp.HttpService.{Memory, parse_request}
use http_cpp.HttpService.Parsing.{parse_request-IsCoherent}
use http_cpp.HttpService.Plain.{
  then_exec-outcome, parsed, executed, parse_request-plain, execute-plain,
}
use http_cpp.HttpServer.HttpWebsite.{HttpWebsite}
use http_cpp.HttpServer.HttpWebsite
use http_cpp.HttpWorker.{find_website, catch_into_response, process, uncaught, answer}

module _ (b : Build) (memory : Memory) (websites_ : List HttpWebsite) where
  processed : Text → Outcome HttpResponse
  processed frame = parsed b memory frame >>= λ request.
      find_website websites_ request >>= λ website.
      executed b memory website.resource_factory_ request

  -- The answer to a request as a function of the request.
  unfoldable pub plain_answer : Text → Outcome Text
  unfolding processed
  plain_answer frame = uncaught (catch_into_response (processed frame) >>= print_response)

  process-plain :
      (frame : Text) (c : HandlerCache)
      → IsCoherent c
      → (process b memory websites_ frame c).0 ≡ processed frame
  unfolding process processed HttpWebsite.execute
  process-plain frame c i =
      then_exec-outcome IsCoherent _ _
        (λ request c' i'.
          then_exec-outcome IsCoherent _ _
            (λ website. execute-plain b memory website.resource_factory_ request)
            (find_website websites_ request, c') i')
        (parse_request b memory frame c) (parse_request-IsCoherent b memory frame c i)
      ∙ ap
          (λ o. o >>= λ request. find_website websites_ request >>= λ website.
            executed b memory website.resource_factory_ request)
          (parse_request-plain b memory frame c i)

  pub answer-uncached :
      (frame : Text) (c : HandlerCache)
      → IsCoherent c
      → (answer b memory websites_ frame c).0 ≡ plain_answer frame
  unfolding answer plain_answer
  answer-uncached frame c i =
      ap (λ o. uncaught (catch_into_response o >>= print_response)) (process-plain frame c i)
