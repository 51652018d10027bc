-- ===== src/Examples/Starting.antt =====
-- The start of the program.
use http_cpp.Base.{
  ◌≡◌, refl, Text, codes, [], ◌∷◌, none, some, ok, throw, zmq_error, true, false, Outcome,
  undefined, text_eq,
}
use http_cpp.HttpResourceFactory.{create_filesystem_handle, create_external_handle}
use http_cpp.HttpServer.HttpWebsite.{HttpWebsite}
use http_cpp.HttpServer.Run as Run
use http_cpp.HttpServer.Server.Loop as Loop
use http_cpp.HttpServer.Server.Loop.{polled, failed}
use http_cpp.HttpServer.Server.Loop.Laws.{run-never_quits}
use http_cpp.HttpServer.Connect.{System}
use http_cpp.HttpServer.Server.{HttpServer, main}
use http_cpp.HttpServer.Server.Laws.{with_started, main-undefined}

-- The directory and the library that `main` connects.
abbrev installed : System
installed = record {
  files = record {
    exists = λ p. true;
    is_directory = text_eq (codes "hello_world");
    is_regular_file = text_eq (codes "example/rest_webservice.dll");
    entries = λ p. [];
    contents = λ p. [];
    last_write_date = λ p. [];
    magic_file = λ p. none;
    has_magic = false;
  };
  load = λ p. ok (λ request. ok none);
  bind = λ address. ok tt;
}

abbrev inside : Text → Outcome (Unit {0})
inside address = ok tt

main-undefined_example : main false inside installed ≡ undefined
main-undefined_example = main-undefined false inside installed refl refl

abbrev hello : HttpWebsite
hello = record {
  name_ = [];
  host_ = record { name = codes "localhost"; port = 8081 };
  service_path_ = codes "hello_world";
  resource_factory_ = create_filesystem_handle installed.files false (codes "hello_world");
}

abbrev messages : HttpWebsite
messages = record {
  name_ = [];
  host_ = record { name = codes "localhost"; port = 8082 };
  service_path_ = codes "example/rest_webservice.dll";
  resource_factory_ = create_external_handle installed.files (λ request. ok none);
}

abbrev connected : HttpServer
connected = record {
  logger_ = true;
  websites_ = hello ∷ messages ∷ [];
  workers_ = [];
  published = [];
}

-- A poll that reports nothing, and one that fails.
run-never_quits_example :
    Loop.run
      (polled (record { from_http = none; from_worker = none }) ∷ failed ∷ [])
      connected
      (record { to_workers = []; to_http = [] })
    ≡ (
      some (throw zmq_error),
      with_started connected,
      Run.run
          (record { from_http = none; from_worker = none } ∷ [])
          (record { to_workers = []; to_http = [] }),
    )
run-never_quits_example =
    run-never_quits (polled (record { from_http = none; from_worker = none }) ∷ failed ∷ [])
      connected (record { to_workers = []; to_http = [] }) refl
