-- ===== src/HttpServer/Server.antt =====
-- The life of a server around its polling loop: the constructor, `connect`, the start of `run` and
-- what stands behind its loop, of src/http_server.cpp, and `main` of src/main.cpp.
pub mod Laws
pub mod Serves
pub mod Loop
use http_cpp.Base.{
  ℕ, zero, suc, ◌+◌, ◌≡◌, Text, codes, List, [], ◌∷◌, ◌++◌, Bool, true, false, ◌||◌, Outcome, ok,
  throw, terminate, undefined, Exception, zmq_error, ◌>>=◌, ◌>>◌, noexcept, Exec, then_exec,
  text_eq,
}
use http_cpp.Runnable.{ClassThread, class_thread}
use http_cpp.Runnable as Runnable
use http_cpp.HttpServer.HttpWebsite.{HttpWebsite}
use http_cpp.HttpServer.Connect.{System}
use http_cpp.HttpServer.Connect as Connect

-- A worker as the server keeps it.
pub record ServerWorker : Type 0 where
  pub identifier_ : ℕ
  pub thread : ClassThread

pub record HttpServer : Type 0 where
  -- `logger_` is no null pointer.
  pub logger_ : Bool
  pub websites_ : List HttpWebsite
  pub workers_ : List ServerWorker
  -- What was sent on the status socket.
  pub published : List Text

-- A line that is logged through `logger_`.
abbrev pub log : Bool → Outcome (Unit {0})
log true = ok tt
log false = undefined

-- `spdlog::get`, which answers a null pointer for a name that is not registered.
unfoldable pub is_registered : Text → List Text → Bool
is_registered name [] = false
is_registered name (n ∷ names) = text_eq n name || is_registered name names

-- An error of the binding is logged and thrown again.
abbrev pub bound_or_logged : Bool → Outcome (Unit {0}) → Outcome (Unit {0})
bound_or_logged logger_ (throw zmq_error) = log logger_ >> throw zmq_error
bound_or_logged logger_ result = result

-- The constructor, over the names of the loggers and the binding of an address.
unfoldable pub http_server : List Text → (Text → Outcome (Unit {0})) → Outcome HttpServer
unfolding is_registered
http_server loggers bind =
    let logger_ = is_registered (codes "server") loggers in
    bound_or_logged logger_ (bind (codes "inproc://http_workers_status"))
    >> bound_or_logged logger_ (bind (codes "inproc://http_workers_requests"))
    >> ok (record { logger_ = logger_; websites_ = []; workers_ = []; published = [] })

abbrev with_websites :
    HttpServer → Outcome (Unit {0}) × List HttpWebsite → Outcome (Unit {0}) × HttpServer
with_websites s (result, ws) = (result, record s { websites_ = ws })

-- `connect`, whose first line is logged.
unfoldable pub connect : Bool → System → Text → Text → ℕ → Text → Exec HttpServer (Unit {0})
connect ndebug sys website_path host_name port website_name s = elim s.logger_ [
  | false ↦ (undefined, s)
  | true ↦
      with_websites s
        (Connect.connect ndebug sys website_path host_name port website_name s.websites_)
]

abbrev put_front :
    HttpServer → ℕ → Outcome (Unit {0}) × ClassThread → Outcome (Unit {0}) × HttpServer
put_front s i (result, t) =
    (result, record s { workers_ = record { identifier_ = i; thread = t } ∷ s.workers_ })

-- A round of the loop that launches the workers.
unfoldable pub launch_worker : ℕ → Exec HttpServer (Unit {0})
launch_worker i s = put_front s i (Runnable.start class_thread)

-- The rounds that are left, from the worker `i` on.
unfoldable pub launch_from : ℕ → ℕ → Exec HttpServer (Unit {0})
unfolding launch_worker
launch_from zero i s = (ok tt, s)
launch_from (suc left) i s = then_exec (λ u. launch_from left (i + 1)) (launch_worker i s)

abbrev pub publish : Text → Exec HttpServer (Unit {0})
publish message s = (ok tt, record s { published = s.published ++ (message ∷ []) })

-- `run` until its polling loop.
unfoldable pub start_workers : Exec HttpServer (Unit {0})
unfolding launch_from
start_workers s =
    then_exec (λ u s'. then_exec (λ v. publish (codes "START")) (launch_from 4 0 s'))
      (log s.logger_, s)

-- What is left of stopping the workers behind one of them.
abbrev stopped :
    ServerWorker
    → List ServerWorker
    → Outcome (Unit {0}) × ClassThread
    → Outcome (Unit {0}) × List ServerWorker
    → Outcome (Unit {0}) × List ServerWorker
stopped w ws (ok u, t) (result, rest) = (result, record w { thread = t } ∷ rest)
stopped w ws (result, t) later = (result, record w { thread = t } ∷ ws)

-- The loop that stops the workers.
unfoldable pub stop_all : Exec (List ServerWorker) (Unit {0})
stop_all [] = (ok tt, [])
stop_all (w ∷ ws) = stopped w ws (Runnable.stop w.thread) (stop_all ws)

abbrev with_workers :
    HttpServer → Outcome (Unit {0}) × List ServerWorker → Outcome (Unit {0}) × HttpServer
with_workers s (result, ws) = (result, record s { workers_ = ws })

-- `run` behind its polling loop, which the loop never reaches.
unfoldable pub shut_down : Exec HttpServer (Unit {0})
unfolding stop_all
shut_down s =
    then_exec
      (λ u s'.
        then_exec (λ v s''. with_workers s'' (stop_all s''.workers_)) (publish (codes "QUIT") s'))
      (log s.logger_, s)

abbrev state_after : Outcome (Unit {0}) × HttpServer → Outcome HttpServer
state_after (result, s) = result >> ok s

-- `main` until the polling loop, over the names of the loggers. An exception that leaves it ends the
-- process.
unfoldable pub prepare :
    Bool → List Text → (Text → Outcome (Unit {0})) → System → Outcome HttpServer
unfolding http_server connect start_workers
prepare ndebug loggers bind sys = noexcept (do
  server ← http_server loggers bind
  first ← state_after (connect ndebug sys (codes "hello_world") (codes "localhost") 8081 [] server)
  second ←
      state_after
        (connect ndebug sys (codes "example/rest_webservice.dll") (codes "localhost") 8082 [] first)
  state_after (start_workers second))

-- The loggers that the program registers, in any order: those of src/logger.cpp and
-- libhttp-cpp/src/logger.cpp, and that of `main`.
abbrev pub main_loggers : List Text
main_loggers = codes "server1" ∷ codes "worker" ∷ codes "service" ∷ codes "server2" ∷ []

unfoldable pub main : Bool → (Text → Outcome (Unit {0})) → System → Outcome HttpServer
unfolding prepare
main ndebug bind sys = prepare ndebug main_loggers bind sys
