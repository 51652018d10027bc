-- ===== src/HttpServer/Server/Loop.antt =====
-- The whole of `http_server::run` of src/http_server.cpp: the start of the workers, the polling loop
-- with the error that it catches and throws again, and what stands behind the loop.
pub mod Laws
use http_cpp.Base.{
  List, [], ◌∷◌, Bool, true, Option, none, some, Outcome, ok, throw, terminate, undefined,
  zmq_error, ◌>>◌,
}
use http_cpp.HttpServer.Run.{Polled, Sent, poll_once}
use http_cpp.HttpServer.Server.{HttpServer, log, start_workers, shut_down}

-- A poll that reports messages, or one that throws a `zmq::error_t`.
pub data ServerPoll : Type 0 where
  polled : Polled → ServerPoll
  failed : ServerPoll

-- The loop over these polls, and how it was left, if it was.
unfoldable pub proxy : Bool → List ServerPoll → Sent → Option (Outcome (Unit {0})) × Sent
proxy logger_ [] sent = (none, sent)
proxy logger_ (polled p ∷ ps) sent = proxy logger_ ps (poll_once p sent)
proxy logger_ (failed ∷ ps) sent = (some (log logger_ >> throw zmq_error), sent)

abbrev pub after_proxy :
    HttpServer
    → Option (Outcome (Unit {0})) × Sent
    → Option (Outcome (Unit {0})) × HttpServer × Sent
after_proxy s (none, sent) = (none, s, sent)
after_proxy s (some (ok u), sent) = let (result, s') = shut_down s in (some result, s', sent)
after_proxy s (some result, sent) = (some result, s, sent)

abbrev pub after_start :
    List ServerPoll
    → Sent
    → Outcome (Unit {0}) × HttpServer
    → Option (Outcome (Unit {0})) × HttpServer × Sent
after_start ps sent (ok u, s) = after_proxy s (proxy s.logger_ ps sent)
after_start ps sent (result, s) = (some result, s, sent)

-- `run`: how it ended within these polls, if it did, the server, and what was relayed.
unfoldable pub run :
    List ServerPoll → HttpServer → Sent → Option (Outcome (Unit {0})) × HttpServer × Sent
unfolding proxy start_workers shut_down
run ps s sent = after_start ps sent (start_workers s)
