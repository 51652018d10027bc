-- ===== src/Examples/Program.antt =====
-- The whole program, on a system where it is installed.
use http_cpp.Base.{refl, Text, codes, [], ◌∷◌, ◌||◌, none, ok, true, false, Outcome, text_eq}
use http_cpp.HttpServer.Connect.{System}
use http_cpp.HttpServer.Server.{HttpServer, is_registered}
use http_cpp.HttpServer.Server.Serves.{IsReady}
use http_cpp.LibRest.{create_resource}
use http_cpp.LibRest.MyService.{setup}

abbrev index : Text
index = codes "hello_world/index.html"

abbrev library : Text
library = codes "example/rest_webservice.dll"

abbrev pub installed : System
installed = record {
  files = record {
    exists = λ p. true;
    is_directory = text_eq (codes "hello_world");
    is_regular_file = λ p. text_eq p index || text_eq p library;
    entries = λ p. [];
    contents = λ p. codes "<html>";
    last_write_date = λ p. codes "yesterday";
    magic_file = λ p. none;
    has_magic = true;
  };
  load = λ p. ok (create_resource false setup.1);
  bind = λ address. ok tt;
}

abbrev pub inside : Text → Outcome (Unit {0})
inside address = ok tt

pub installed-IsReady : IsReady false (codes "server" ∷ []) inside installed
unfolding is_registered text_eq
installed-IsReady = record {
  named = refl;
  status_bound = refl;
  requests_bound = refl;
  directory_exists = refl;
  is_directory = refl;
  library_exists = refl;
  is_no_directory = refl;
  is_file = refl;
  loads = refl;
  first_bound = refl;
  second_bound = refl;
}
