-- ===== src/HttpWorker/RoundTrip.antt =====
-- The way of a request through the server's proxy and a worker, and of its answer back.
use http_cpp.Base.{
  ◌≡◌, ◌≢◌, refl, sym, ap, ◌∙◌, Text, List, [], ◌∷◌, append-nil, some, false, Outcome, ok, ◌>>=◌,
  is_empty,
}
use http_cpp.Build.{Build}
use http_cpp.HttpProtocolHandler.{HandlerCache}
use http_cpp.HttpService.{Memory}
use http_cpp.HttpServer.HttpWebsite.{HttpWebsite}
use http_cpp.HttpServer.Forward.{
  as_req, as_stream, receive_parts, forward_as_req, forward_as_stream,
}
use http_cpp.HttpServer.Forward.Laws.{
  Message, message_frames, joined, forward_as_req-frames_of, forward_as_stream-frames_of,
}
use http_cpp.HttpWorker.{answer, handle_request}

is_empty-false : (s : Text) → s ≢ [] → is_empty s ≡ false
is_empty-false [] filled = absurd (filled refl)
is_empty-false (c ∷ s) filled = refl

module _ (b : Build) (memory : Memory) (websites_ : List HttpWebsite) where
  -- Where the answer to a request's text is a text, and neither is empty: the proxy hands the
  -- worker one message of the request with its identity, the worker sends one message of the answer
  -- with that identity, and the proxy hands the connection of that identity the answer and then the
  -- empty message that closes it; nothing is left to receive on the way.
  pub request-round_trip :
      (m : Message) (c c' : HandlerCache) (text : Text)
      → joined m.parts m.last ≢ []
      → text ≢ []
      → answer b memory websites_ (joined m.parts m.last) c ≡ (ok text, c')
      → (forward_as_req (message_frames m) ≡ some ([], as_req m.id (joined m.parts m.last)))
        × (handle_request b memory websites_ (as_req m.id (joined m.parts m.last)) c
            ≡ some (ok (as_req m.id text), [], c'))
        × (forward_as_stream (as_req m.id text) ≡ some ([], as_stream m.id text))
  unfolding handle_request receive_parts
  request-round_trip m c c' text asked told e = (
    ap forward_as_req (sym (append-nil (message_frames m)))
        ∙ rw
            (
              forward_as_req-frames_of m.id m.parts m.last [],
              is_empty-false (joined m.parts m.last) asked,
            )
            refl,
    ap
        (λ (r : Outcome Text × HandlerCache).
          some ((r.0 >>= λ told. ok (as_req m.id told)), [], r.1))
        e,
    rw (forward_as_stream-frames_of m.id [] text [], is_empty-false text told) refl,
  )
