-- ===== src/HttpServer/Server/Serves.antt =====
-- `main` of src/main.cpp, from its start to the answers of its two websites.
use http_cpp.Base.{
  ◌≡◌, ◌≢◌, refl, arith, Text, codes, List, [], ◌∷◌, ◌++◌, some, Bool, true, false, Outcome, ok,
  All, to_string, text_eq,
}
use http_cpp.Base.TextLaws.{Lacks}
use http_cpp.Build.{Build}
use http_cpp.HttpConstants.{http_unknown}
use http_cpp.HttpStructure.{print_response}
use http_cpp.HttpProtocolOneOne.RequestLine.{IsWord}
use http_cpp.HttpProtocolHandler.{HandlerCache}
use http_cpp.HttpProtocolHandler.Laws.{IsCoherent}
use http_cpp.HttpService.{Memory}
use http_cpp.HttpService.ExtractHost.{path_byte}
use http_cpp.HttpService.ExtractHostLaws.{port_text}
use http_cpp.HttpServer.HttpWebsite.{HttpWebsite, find_website_by, website_eq_host}
use http_cpp.HttpService.Host.{host_eq}
use http_cpp.HttpResourceFactory.{create_filesystem_handle, create_external_handle}
use http_cpp.HttpServer.Connect.{System}
use http_cpp.HttpServer.Server.{HttpServer, is_registered}
use http_cpp.HttpWorker.{answer}
use http_cpp.HttpWorker.ServeFile.{get_frame}
use http_cpp.HttpWorker.ServeMessage.{message_response, answer-get_message}
use http_cpp.LibRest.{create_resource}
use http_cpp.LibRest.MyService.{setup}

-- A system on which both websites of `main` can be connected: the directory, and the library of the
-- service of messages. The loggers are those that are registered.
pub record IsReady (ndebug : Bool) (loggers : List Text) (bind : Text → Outcome (Unit {0}))
    (sys : System) : Type 0 where
  pub named : is_registered (codes "server") loggers ≡ true
  pub status_bound : bind (codes "inproc://http_workers_status") ≡ ok tt
  pub requests_bound : bind (codes "inproc://http_workers_requests") ≡ ok tt
  pub directory_exists : sys.files.exists (codes "hello_world") ≡ true
  pub is_directory : sys.files.is_directory (codes "hello_world") ≡ true
  pub library_exists : sys.files.exists (codes "example/rest_webservice.dll") ≡ true
  pub is_no_directory : sys.files.is_directory (codes "example/rest_webservice.dll") ≡ false
  pub is_file : sys.files.is_regular_file (codes "example/rest_webservice.dll") ≡ true
  pub loads : sys.load (codes "example/rest_webservice.dll") ≡ ok (create_resource ndebug setup.1)
  pub first_bound : sys.bind (codes "tcp://*:8081") ≡ ok tt
  pub second_bound : sys.bind (codes "tcp://*:8082") ≡ ok tt

module _ (ndebug : Bool) (loggers : List Text) (bind : Text → Outcome (Unit {0})) (sys : System)
    (ready : IsReady ndebug loggers bind sys) where
  abbrev pub hello_world : HttpWebsite
  hello_world = record {
    name_ = [];
    host_ = record { name = codes "localhost"; port = 8081 };
    service_path_ = codes "hello_world";
    resource_factory_ = create_filesystem_handle sys.files ndebug (codes "hello_world");
  }

  abbrev pub rest_webservice : HttpWebsite
  rest_webservice = record {
    name_ = [];
    host_ = record { name = codes "localhost"; port = 8082 };
    service_path_ = codes "example/rest_webservice.dll";
    resource_factory_ = create_external_handle sys.files (create_resource ndebug setup.1);
  }

  abbrev pub websites : List HttpWebsite
  websites = hello_world ∷ rest_webservice ∷ []

  finds-rest_webservice :
      find_website_by (record { name = codes "localhost"; port = 8082 }) websites
      ≡ some rest_webservice
  unfolding find_website_by website_eq_host host_eq text_eq
  finds-rest_webservice = refl

one_line :
    Lacks b'\n' (codes "localhost" ++ port_text (some 8081))
    × Lacks b'\n' (codes "localhost" ++ port_text (some 8082))
unfolding to_string
one_line = (ground arith, ground arith)

-- The second website answers for a message.
pub websites-message :
    (b : Build) (memory : Memory) (loggers : List Text) (bind : Text → Outcome (Unit {0}))
    (sys : System) (id : Text) (c : HandlerCache) (ready : IsReady b.ndebug loggers bind sys)
    → b.entity_follows_request ≡ false
    → memory.status ≡ http_unknown
    → id ≢ []
    → Lacks b'/' id
    → IsWord (codes "message/" ++ id)
    → All (λ d. path_byte d ≡ true) (codes "message/" ++ id)
    → IsCoherent c
    → (answer b memory
        (websites b.ndebug loggers bind sys ready)
        (get_frame (codes "message/" ++ id) (codes "localhost" ++ port_text (some 8082)))
        c).0
      ≡ print_response (message_response memory.date id)
websites-message b memory loggers bind sys id c ready adjacent unset filled no_slash word bytes
      coherent =
    answer-get_message b memory id (codes "localhost") (some 8082) filled no_slash word bytes
      (λ e. cc) (ground arith) (omega arith) one_line.1 adjacent unset
      (websites b.ndebug loggers bind sys ready) sys.files c
      (rest_webservice b.ndebug loggers bind sys ready) coherent
      (finds-rest_webservice b.ndebug loggers bind sys ready) refl
