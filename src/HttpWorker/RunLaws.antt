-- ===== src/HttpWorker/RunLaws.antt =====
-- The loop of a worker answers every request in its order, until it is told to quit.
use http_cpp.Base.{
  ◌≡◌, refl, ap, sym, subst, ◌∙◌, Text, codes, List, [], ◌∷◌, ◌++◌, map, append_assoc, append-nil,
  Option, none, some, true, false, Outcome, ok, throw, terminate, undefined, ◌>>=◌, text_eq,
}
use http_cpp.Build.{Build}
use http_cpp.HttpProtocolHandler.{HandlerCache}
use http_cpp.HttpService.{Memory}
use http_cpp.HttpServer.HttpWebsite.{HttpWebsite}
use http_cpp.HttpServer.Forward.{Frames, as_req}
use http_cpp.HttpServer.Forward.Laws.{Message, message_frames}
use http_cpp.HttpWorker.{handle_request, handle_status}
use http_cpp.HttpWorker.Laws.{IsOneReply, handle_request-answers}
use http_cpp.HttpWorker.Run.{Polled, Worker, take_request, replied, poll_once, run}

abbrev pub requested : Message → Polled
requested m = record { status = none; request = some (message_frames m) }

-- One reply for each identity, in their order.
abbrev pub IsReplies : List Message → Frames → Type 0
IsReplies [] sent = sent ≡ []
IsReplies (m ∷ ms) sent =
    (text : Text) × (more : Frames) × (sent ≡ as_req m.id text ++ more) × IsReplies ms more

-- What is sent after this is a reply to each message; or the process ended. No exception.
abbrev pub IsAnswered : List Message → Frames → Outcome Worker → Type 0
IsAnswered ms before (ok w) =
    (replies : Frames) × (w.sent ≡ before ++ replies) × IsReplies ms replies
IsAnswered ms before (throw e) = ⊥
IsAnswered ms before terminate = Unit
IsAnswered ms before undefined = Unit

IsAnswered-cons :
    (m : Message) (ms : List Message) (before : Frames) (text : Text) (o : Outcome Worker)
    → IsAnswered ms (before ++ as_req m.id text) o
    → IsAnswered (m ∷ ms) before o
IsAnswered-cons m ms before text (ok w) (replies, e, all) = (
  as_req m.id text ++ replies,
  e ∙ append_assoc before (as_req m.id text) replies,
  (text, replies, refl, all),
)
IsAnswered-cons m ms before text (throw e) h = h
IsAnswered-cons m ms before text terminate h = tt
IsAnswered-cons m ms before text undefined h = tt

module _ (b : Build) (memory : Memory) (websites_ : List HttpWebsite) where
  IsAnswered-after :
      (m : Message) (ms : List Message) (w : Worker) (c : HandlerCache) (result : Outcome Frames)
      → ((w' : Worker)
          → w'.running ≡ true
          → IsAnswered ms w'.sent (run b memory websites_ (map requested ms) w'))
      → w.running ≡ true
      → IsOneReply m.id result
      → IsAnswered (m ∷ ms) w.sent (
          (result >>= λ frames. ok (record w { cache = c; sent = w.sent ++ frames })) >>= λ next.
          run b memory websites_ (map requested ms) next)
  IsAnswered-after m ms w c (ok sent) further r (text, e) =
      subst
        (λ s.
          IsAnswered (m ∷ ms) w.sent (
            run b memory websites_ (map requested ms) (record w { cache = c; sent = w.sent ++ s })))
        (sym e)
        (IsAnswered-cons m ms w.sent text _
          (further (record w { cache = c; sent = w.sent ++ as_req m.id text }) r))
  IsAnswered-after m ms w c (throw e) further r one = one
  IsAnswered-after m ms w c terminate further r one = tt
  IsAnswered-after m ms w c undefined further r one = tt

  -- A running worker that is polled with requests answers each of them once, in their order, and
  -- goes on running; or the process ends. No exception leaves the loop.
  pub run-answers :
      (ms : List Message) (w : Worker)
      → w.running ≡ true
      → IsAnswered ms w.sent (run b memory websites_ (map requested ms) w)
  unfolding run poll_once
  run-answers [] w r = ([], sym (append-nil w.sent), refl)
  run-answers (m ∷ ms) w r =
      let (result, c, e, one) =
        handle_request-answers b memory websites_ m.id m.parts m.last [] w.cache in
      let read =
        subst (λ f. handle_request b memory websites_ f w.cache ≡ some (result, [], c))
          (append-nil (message_frames m)) e in
      rw (r, read, run) (IsAnswered-after m ms w c result (λ w'. run-answers ms w') r one)

  pub run_of_stopped :
      (ps : List Polled) (w : Worker) → w.running ≡ false → run b memory websites_ ps w ≡ ok w
  unfolding run
  run_of_stopped [] w h = refl
  run_of_stopped (p ∷ ps) w h = rw (h, run) (ap (λ r. ok (record w { running = r })) h)

  replied-stopped :
      (ps : List Polled) (w : Worker) (o : Option (Outcome Frames × Frames × HandlerCache))
      → w.running ≡ false
      → (replied w o >>= λ next. run b memory websites_ ps next) ≡ replied w o
  replied-stopped ps w none h = run_of_stopped ps w h
  replied-stopped ps w (some (ok sent, rest, c)) h = run_of_stopped ps _ h
  replied-stopped ps w (some (throw e, rest, c)) h = refl
  replied-stopped ps w (some (terminate, rest, c)) h = refl
  replied-stopped ps w (some (undefined, rest, c)) h = refl

  -- A worker that is told to quit answers a request of the same poll, and nothing after it.
  pub run-quit :
      (request : Option Frames) (ps : List Polled) (w : Worker)
      → w.running ≡ true
      → run b memory websites_ (record { status = some (codes "QUIT"); request = request } ∷ ps) w
        ≡ take_request b memory websites_ request (record w { running = false })
  unfolding run poll_once handle_status text_eq
  run-quit none ps w r = rw (r, run) (run_of_stopped ps (record w { running = false }) refl)
  run-quit (some frames) ps w r =
      rw (r, run)
        (replied-stopped ps (record w { running = false })
          (handle_request b memory websites_ frames w.cache) refl)
