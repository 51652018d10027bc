-- ===== src/Cluster/Clients.antt =====
-- Clients that ask the program of src/main.cpp for messages.
use http_cpp.Base.{
  ◌≡◌, ◌≢◌, Text, codes, List, [], ◌++◌, some, false, true, Outcome, ok, ◌>>=◌, All,
}
use http_cpp.Base.TextLaws.{Lacks}
use http_cpp.Build.{Build}
use http_cpp.HttpConstants.{http_unknown}
use http_cpp.HttpStructure.{print_response}
use http_cpp.HttpProtocolOneOne.RequestLine.{IsWord}
use http_cpp.HttpService.{Memory}
use http_cpp.HttpService.ExtractHost.{path_byte}
use http_cpp.HttpService.ExtractHostLaws.{port_text}
use http_cpp.HttpServer.HttpWebsite.{HttpWebsite}
use http_cpp.HttpServer.Connect.{System}
use http_cpp.HttpServer.Forward.{Frames, as_req}
use http_cpp.HttpServer.Forward.Laws.{Message, joined}
use http_cpp.HttpServer.Server.Serves.{IsReady, websites}
use http_cpp.HttpWorker.ServeFile.{get_frame}
use http_cpp.HttpWorker.ServeMessage.{message_response}
use http_cpp.Cluster.{Cluster}
use http_cpp.Cluster.Owed.{relayed_answer}

-- A message that came from a client, with the identifier that it asks for.
abbrev pub IsAsking : Message × Text → Type 0
IsAsking (m, id) =
    (joined m.parts m.last
      ≡ get_frame (codes "message/" ++ id) (codes "localhost" ++ port_text (some 8082)))
    × (id ≢ [])
    × Lacks b'/' id
    × IsWord (codes "message/" ++ id)
    × All (λ d. path_byte d ≡ true) (codes "message/" ++ id)

-- What the client gets.
abbrev pub reply : Text → Message × Text → Outcome Frames
reply date (m, id) =
    print_response (message_response date id) >>= λ text. ok (relayed_answer (as_req m.id text))

module _ (b : Build) (memory : Memory) (loggers : List Text) (bind : Text → Outcome (Unit {0}))
    (sys : System) (ready : IsReady b.ndebug loggers bind sys)
    (adjacent : b.entity_follows_request ≡ false) (unset : memory.status ≡ http_unknown) where
  abbrev sites : List HttpWebsite
  sites = websites b.ndebug loggers bind sys ready
