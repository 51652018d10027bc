-- ===== src/HttpServer/Server/Laws.antt =====
-- The start and the end of a server.
use http_cpp.Base.{
  ◌≡◌, refl, Text, codes, List, [], ◌∷◌, ◌++◌, Bool, true, false, Outcome, ok, undefined, text_eq,
  map,
}
use http_cpp.Runnable.{start}
use http_cpp.HttpServer.HttpWebsite.{HttpWebsite}
use http_cpp.HttpServer.Connect.{System}
use http_cpp.HttpServer.Connect as Connect
use http_cpp.HttpServer.Server.{
  ServerWorker, HttpServer, is_registered, start_workers, prepare, main,
}

-- A server whose workers were started.
abbrev pub with_started : HttpServer → HttpServer
with_started s = record s {
  workers_ =
      map (λ i. record { identifier_ = i; thread = record { running = true; joinable = true } })
        (3 ∷ 2 ∷ 1 ∷ 0 ∷ [])
      ++ s.workers_;
  published = s.published ++ (codes "START" ∷ []);
}

pub start_workers-started :
    (s : HttpServer) → s.logger_ ≡ true → start_workers s ≡ (ok tt, with_started s)
unfolding start_workers start
start_workers-started s l = rw l refl

-- No logger of the program has the name that the server asks for, so its first line of a log is
-- written through a null pointer: where the addresses inside the process can be bound, `main` is
-- undefined behaviour, whatever the files, the libraries and the addresses of the system.
pub main-undefined :
    (ndebug : Bool) (bind : Text → Outcome (Unit {0})) (sys : System)
    → bind (codes "inproc://http_workers_status") ≡ ok tt
    → bind (codes "inproc://http_workers_requests") ≡ ok tt
    → main ndebug bind sys ≡ undefined
unfolding main text_eq
main-undefined ndebug bind sys status requests = rw (status, requests) refl

-- With a logger of the name that the server asks for, addresses inside the process that can be
-- bound, and both websites connected, `main` comes to the polling loop with those websites, four
-- running workers numbered from 0, and the signal to start sent to them.
pub prepare-ready :
    (ndebug : Bool) (loggers : List Text) (bind : Text → Outcome (Unit {0})) (sys : System)
    (first both : List HttpWebsite)
    → is_registered (codes "server") loggers ≡ true
    → bind (codes "inproc://http_workers_status") ≡ ok tt
    → bind (codes "inproc://http_workers_requests") ≡ ok tt
    → Connect.connect ndebug sys (codes "hello_world") (codes "localhost") 8081 [] []
      ≡ (ok tt, first)
    → Connect.connect ndebug sys
        (codes "example/rest_webservice.dll")
        (codes "localhost")
        8082
        []
        first
      ≡ (ok tt, both)
    → prepare ndebug loggers bind sys
      ≡ ok (
          with_started (record { logger_ = true; websites_ = both; workers_ = []; published = [] }))
unfolding prepare
prepare-ready ndebug loggers bind sys first both known status requests one two =
    rw
      (
        known,
        status,
        requests,
        one,
        two,
        start_workers-started
            (record { logger_ = true; websites_ = both; workers_ = []; published = [] }) refl,
      )
      refl

-- A worker whose thread was joined.
abbrev pub joined_worker : ServerWorker → ServerWorker
joined_worker w = record w { thread = record { running = false; joinable = false } }
