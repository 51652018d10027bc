-- ===== src/HttpWorker/Laws.antt =====
-- Every request that a worker reads gets one answer, and its errors get theirs.
use http_cpp.Base.{
  ◌≡◌, refl, Text, codes, List, [], ◌∷◌, ◌++◌, none, some, Outcome, ok, throw, terminate, undefined,
  true, to_string, text_eq, Exception, http_invalid_request, invalid_argument, ◌>>=◌, Option,
  Option-cases, inl, inr, subst, ap, then_exec-keeps,
}
use http_cpp.Build.{Build}
use http_cpp.HttpConstants.{reason_phrase, status_code}
use http_cpp.HttpStructure.{HttpRequest, http_request, print_response, print_headers}
use http_cpp.HttpProtocolHandler.{
  one_zero, version_text, HandlerCache, extract_http_version, parse_by, parse_request_one_zero,
}
use http_cpp.HttpProtocolHandler.Laws.{IsCoherent, version_of}
use http_cpp.HttpService.{Memory, parse_request}
use http_cpp.HttpService.ExtractHost.{extract_host}
use http_cpp.HttpService.Parsing.{
  parse_request-unknown, parse_request-known, extract_host-unfilled, parse_request-IsCoherent,
  execute-IsCoherent,
}
use http_cpp.HttpServer.HttpWebsite.{HttpWebsite}
use http_cpp.HttpServer.HttpWebsite
use http_cpp.HttpServer.Forward.{Frames, receive_parts, as_req}
use http_cpp.HttpServer.Forward.Laws.{frames_of, joined, receive_parts-frames_of}
use http_cpp.HttpWorker.{find_website, process, uncaught, answer, handle_request}

abbrev cache_of : HandlerCache → Option (Outcome Frames × Frames × HandlerCache) → HandlerCache
cache_of c none = c
cache_of c (some (result, rest, c')) = c'

-- One reply to this identity, or the end of the process; never an exception.
abbrev pub IsOneReply : Text → Outcome Frames → Type 0
IsOneReply id (ok sent) = (text : Text) × (sent ≡ as_req id text)
IsOneReply id (throw e) = ⊥
IsOneReply id terminate = Unit
IsOneReply id undefined = Unit

abbrev pub bad_request_text : Text
bad_request_text = codes "HTTP/1.1 400 Bad Request\r\n\r\n"

abbrev pub internal_server_error_text : Text
internal_server_error_text = codes "HTTP/1.1 500 Internal Server Error\r\n\r\n"

IsOneReply-uncaught :
    (id : Text) (o : Outcome Text) → IsOneReply id (uncaught o >>= λ text. ok (as_req id text))
IsOneReply-uncaught id (ok text) = (text, refl)
IsOneReply-uncaught id (throw e) = tt
IsOneReply-uncaught id terminate = tt
IsOneReply-uncaught id undefined = tt

module _ (b : Build) (memory : Memory) (websites_ : List HttpWebsite) where
  answer-IsOneReply :
      (id frame : Text) (c : HandlerCache)
      → IsOneReply id ((answer b memory websites_ frame c).0 >>= λ text. ok (as_req id text))
  unfolding answer
  answer-IsOneReply id frame c = IsOneReply-uncaught id _

  -- A worker takes exactly the frames of one request and answers it once, to its identity, whatever
  -- the request holds, unless the process ends: no exception gets out.
  pub handle_request-answers :
      (id : Text) (parts : List Text) (last : Text) (rest : Frames) (c : HandlerCache)
      → (result : Outcome Frames) × (c' : HandlerCache) × (handle_request b memory websites_
            (record { body = id; more = true } ∷ frames_of parts last ++ rest)
            c
          ≡ some (result, rest, c'))
        × IsOneReply id result
  unfolding handle_request
  handle_request-answers id parts last rest c = (
    (answer b memory websites_ (joined parts last) c).0 >>= (λ text. ok (as_req id text)),
    (answer b memory websites_ (joined parts last) c).1,
    rw (receive_parts-frames_of [] parts last rest, handle_request),
    answer-IsOneReply id (joined parts last) c,
  )

  process-throw :
      (e : Exception) (frame : Text) (c : HandlerCache)
      → (parse_request b memory frame c).0 ≡ throw e
      → (process b memory websites_ frame c).0 ≡ throw e
  unfolding process
  process-throw e frame c h = rw h

  process-lost :
      (e : Exception) (request : HttpRequest) (frame : Text) (c : HandlerCache)
      → (parse_request b memory frame c).0 ≡ ok request
      → extract_host request ≡ throw e
      → (process b memory websites_ frame c).0 ≡ throw e
  unfolding process
  process-lost e request frame c h x = rw (h, x)

  -- From a coherent cache of handlers, a request with a version other than 1.1 and 1.0 is answered
  -- by 400.
  pub answer-unknown_version :
      (frame version : Text) (c : HandlerCache)
      → IsCoherent c
      → extract_http_version frame ≡ ok version
      → version_of version ≡ none
      → (answer b memory websites_ frame c).0 ≡ ok bad_request_text
  unfolding answer print_response reason_phrase status_code print_headers to_string
  answer-unknown_version frame version c i e h = rw (
      process-throw http_invalid_request frame c
        (parse_request-unknown b memory frame version c i e h))

  -- From a coherent cache of handlers, a request of version 1.0, which is never parsed, is answered
  -- by 500 whatever it asks for.
  pub answer-one_zero :
      (frame : Text) (c : HandlerCache)
      → IsCoherent c
      → extract_http_version frame ≡ ok (version_text one_zero)
      → (answer b memory websites_ frame c).0 ≡ ok internal_server_error_text
  unfolding answer print_response reason_phrase status_code print_headers to_string parse_by
      parse_request_one_zero text_eq
  answer-one_zero frame c i e = rw (
      process-lost invalid_argument (http_request memory.method) frame c
        (parse_request-known b memory frame (version_text one_zero) c i e one_zero refl)
        (extract_host-unfilled memory.method))

  -- The cache of handlers stays coherent through every request.
  pub answer-IsCoherent :
      (frame : Text) (c : HandlerCache)
      → IsCoherent c
      → IsCoherent (answer b memory websites_ frame c).1
  unfolding answer process HttpWebsite.execute
  answer-IsCoherent frame c i =
      then_exec-keeps IsCoherent _ (parse_request b memory frame c)
        (parse_request-IsCoherent b memory frame c i)
        λ request c' i'.
          then_exec-keeps IsCoherent _ (find_website websites_ request, c') i'
            λ website. execute-IsCoherent b memory website.resource_factory_ request

  pub handle_request-IsCoherent :
      (request rest : Frames) (result : Outcome Frames) (c c' : HandlerCache)
      → IsCoherent c
      → handle_request b memory websites_ request c ≡ some (result, rest, c')
      → IsCoherent c'
  unfolding handle_request
  handle_request-IsCoherent [] rest result c c' i e = cc
  handle_request-IsCoherent (id ∷ waiting) rest result c c' i e =
      elim (Option-cases (receive_parts [] waiting)) [
        | inl missing ↦ let lost = rw (missing, handle_request) at e in cc
        | inr ((frame, left), found) ↦
            let answered = rw (found, handle_request) at e in
            subst IsCoherent (ap (cache_of c) answered) (answer-IsCoherent frame c i)
      ]
