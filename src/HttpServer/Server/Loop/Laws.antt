-- ===== src/HttpServer/Server/Loop/Laws.antt =====
-- The server is never shut down.
use http_cpp.Base.{
  ◌≡◌, refl, ap, ◌∙◌, List, [], ◌∷◌, true, Option, none, some, Outcome, throw, zmq_error,
}
use http_cpp.HttpServer.Run.{Polled, Sent}
use http_cpp.HttpServer.Run as Run
use http_cpp.HttpServer.Server.{HttpServer}
use http_cpp.HttpServer.Server.Laws.{with_started, start_workers-started}
use http_cpp.HttpServer.Server.Loop.{
  ServerPoll, polled, failed, proxy, after_proxy, after_start, run,
}

-- The reports of the polls before the first one that fails.
abbrev pub reports : List ServerPoll → List Polled
reports [] = []
reports (polled p ∷ ps) = p ∷ reports ps
reports (failed ∷ ps) = []

-- How the loop was left: by the error of a poll, if one fails.
abbrev pub left_by : List ServerPoll → Option (Outcome (Unit {0}))
left_by [] = none
left_by (polled p ∷ ps) = left_by ps
left_by (failed ∷ ps) = some (throw zmq_error)

proxy-reports :
    (ps : List ServerPoll) (sent : Sent)
    → proxy true ps sent ≡ (left_by ps, Run.run (reports ps) sent)
unfolding proxy Run.run
proxy-reports [] sent = refl
proxy-reports (polled p ∷ ps) sent = proxy-reports ps (Run.poll_once p sent)
proxy-reports (failed ∷ ps) sent = refl

after_proxy-left_by :
    (s : HttpServer) (ps : List ServerPoll) (sent : Sent)
    → after_proxy s (left_by ps, sent) ≡ (left_by ps, s, sent)
after_proxy-left_by s [] sent = refl
after_proxy-left_by s (polled p ∷ ps) sent = after_proxy-left_by s ps sent
after_proxy-left_by s (failed ∷ ps) sent = refl

-- A server with a logger starts its workers and relays what its polls report until one of them fails;
-- then `run` is left by the error of that poll, and else it goes on. In no case are the workers told to
-- quit or stopped: what stands behind the loop is never reached.
pub run-never_quits :
    (ps : List ServerPoll) (s : HttpServer) (sent : Sent)
    → s.logger_ ≡ true
    → run ps s sent ≡ (left_by ps, with_started s, Run.run (reports ps) sent)
unfolding run
run-never_quits ps s sent l =
    ap (after_start ps sent) (start_workers-started s l)
    ∙ ap (after_proxy (with_started s)) (ap (λ g. proxy g ps sent) l ∙ proxy-reports ps sent)
    ∙ after_proxy-left_by (with_started s) ps (Run.run (reports ps) sent)
