-- ===== src/HttpWorker/Thread.antt =====
-- The thread of a worker, `run` of src/http_worker.cpp: its sockets, and its loop with the errors
-- of ZeroMQ that the loop catches.
use http_cpp.Base.{Bool, List, [], ◌∷◌, true, false, Outcome, ok, ◌>>=◌, ◌>>◌}
use http_cpp.Build.{Build}
use http_cpp.HttpService.{Memory}
use http_cpp.HttpServer.HttpWebsite.{HttpWebsite}
use http_cpp.HttpWorker.{uncaught}
use http_cpp.HttpWorker.Run.{Polled, Worker, poll_once}

-- A poll that reports messages, or one that throws a `zmq::error_t`.
pub data Poll : Type 0 where
  polled : Polled → Poll
  failed : Poll

module _ (b : Build) (memory : Memory) (websites_ : List HttpWebsite) where
  -- A round of the loop, whose handler logs an error of the poll.
  abbrev pub round : Poll → Worker → Outcome Worker
  round (polled p) w = poll_once b memory websites_ p w
  round failed w = ok w

  unfoldable pub loop : List Poll → Worker → Outcome Worker
  loop [] w = ok w
  loop (p ∷ ps) w = elim w.running [ true ↦ (round p w >>= λ next. loop ps next) | false ↦ ok w ]

  -- The thread's function, over the outcomes of connecting its two sockets.
  unfoldable pub run_thread :
      Outcome (Unit {0}) → Outcome (Unit {0}) → List Poll → Worker → Outcome Worker
  unfolding loop
  run_thread status request ps w = uncaught (status >> request >> loop ps w)

  -- The polls that report messages.
  abbrev pub reports : List Poll → List Polled
  reports [] = []
  reports (polled p ∷ ps) = p ∷ reports ps
  reports (failed ∷ ps) = reports ps

  abbrev if_running : Outcome Worker → Worker → Bool → Outcome Worker
  if_running next w running = elim running [ true ↦ next | false ↦ ok w ]
