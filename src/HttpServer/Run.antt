-- ===== src/HttpServer/Run.antt =====
-- `run` of src/http_server.cpp: the proxy between the clients' connections and the workers.
use http_cpp.Base.{List, [], ◌∷◌, ◌++◌, Option, none, some}
use http_cpp.HttpServer.Forward.{Frames, forward_as_req, forward_as_stream}

-- What one `zmq::poll` reports: a message of a client, an answer of a worker, or both. ZeroMQ
-- delivers the frames of a message together.
pub record Polled : Type 0 where
  pub from_http : Option Frames
  pub from_worker : Option Frames

-- What was sent on the two sockets.
pub record Sent : Type 0 where
  pub to_workers : Frames
  pub to_http : Frames

abbrev pub sent_of : Option (Frames × Frames) → Frames
sent_of none = []
sent_of (some (rest, frames)) = frames

abbrev pub forwarded : (Frames → Option (Frames × Frames)) → Option Frames → Frames
forwarded forward none = []
forwarded forward (some from) = sent_of (forward from)

-- One round of the polling loop.
unfoldable pub poll_once : Polled → Sent → Sent
poll_once p s = record {
  to_workers = s.to_workers ++ forwarded forward_as_req p.from_http;
  to_http = s.to_http ++ forwarded forward_as_stream p.from_worker;
}

-- The loop never ends by itself: what it has sent after these polls.
unfoldable pub run : List Polled → Sent → Sent
unfolding poll_once
run [] s = s
run (p ∷ ps) s = run ps (poll_once p s)
