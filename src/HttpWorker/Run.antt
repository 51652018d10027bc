-- ===== src/HttpWorker/Run.antt =====
-- `run` of src/http_worker.cpp: the loop of a worker's thread.
use http_cpp.Base.{
  Text, List, [], ◌∷◌, ◌++◌, Option, none, some, Bool, true, false, Outcome, ok, ◌>>=◌,
}
use http_cpp.Build.{Build}
use http_cpp.HttpProtocolHandler.{HandlerCache}
use http_cpp.HttpService.{Memory}
use http_cpp.HttpServer.HttpWebsite.{HttpWebsite}
use http_cpp.HttpServer.Forward.{Frames}
use http_cpp.HttpWorker.{handle_request, handle_status}

-- What one `zmq::poll` reports: a status message, the frames of a request, or both. ZeroMQ
-- delivers the frames of a message together.
pub record Polled : Type 0 where
  pub status : Option Text
  pub request : Option Frames

pub record Worker : Type 0 where
  pub running : Bool
  -- The cache of protocol handlers.
  pub cache : HandlerCache
  -- What was sent on the socket of requests.
  pub sent : Frames

-- The status message is handled in priority.
abbrev pub take_status : Option Text → Worker → Worker
take_status none w = w
take_status (some status_str) w = record w { running = handle_status status_str w.running }

-- A worker that waits for frames which do not come stays where it is.
abbrev pub replied : Worker → Option (Outcome Frames × Frames × HandlerCache) → Outcome Worker
replied w none = ok w
replied w (some (result, rest, c)) =
    result >>= λ frames. ok (record w { cache = c; sent = w.sent ++ frames })

module _ (b : Build) (memory : Memory) (websites_ : List HttpWebsite) where
  abbrev pub take_request : Option Frames → Worker → Outcome Worker
  take_request none w = ok w
  take_request (some frames) w = replied w (handle_request b memory websites_ frames w.cache)

  -- One round of the loop.
  unfoldable pub poll_once : Polled → Worker → Outcome Worker
  poll_once p w = take_request p.request (take_status p.status w)

  -- The loop `while (running)` over what its polls report, in their order.
  unfoldable pub run : List Polled → Worker → Outcome Worker
  unfolding poll_once
  run [] w = ok w
  run (p ∷ ps) w = elim w.running [ true ↦ (poll_once p w >>= λ next. run ps next) | false ↦ ok w ]
