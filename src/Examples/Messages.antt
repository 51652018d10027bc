-- ===== src/Examples/Messages.antt =====
-- A request for a message, with its answer.
use http_cpp.Base.{◌≡◌, refl, arith, codes, [], ◌++◌, some, ok, true, false, text_eq, to_string}
use http_cpp.HttpConstants.{http_unknown}
use http_cpp.HttpFilesystemResource.{FileSystem}
use http_cpp.HttpStructure.{print_response}
use http_cpp.HttpProtocolHandler.{empty_cache}
use http_cpp.HttpProtocolHandler.Laws.{empty_cache-IsCoherent}
use http_cpp.HttpResourceFactory.{create_resource_factory}
use http_cpp.HttpService.{Memory}
use http_cpp.Base.TextLaws.{Lacks}
use http_cpp.HttpService.ExtractHostLaws.{port_text}
use http_cpp.HttpServer.Connect.{System, connect, http_website}
use http_cpp.HttpServer.HttpWebsite.{emplace_website}
use http_cpp.HttpWorker.{answer}
use http_cpp.HttpWorker.ServeFile.{get_frame}
use http_cpp.HttpWorker.ServeMessage.{message_response, connect-get_message}
use http_cpp.LibRest.{create_resource}
use http_cpp.LibRest.MyService.{setup}
use http_cpp.Examples.Parsing.{plain}
use http_cpp.Examples.Services.{memory}
use http_cpp.Examples.Routes.{no_files}

abbrev one_library : FileSystem
one_library = record no_files {
  exists = λ p. text_eq p (codes "service.so");
  is_regular_file = λ p. text_eq p (codes "service.so");
}

abbrev loading : System
loading = record {
  files = one_library;
  load = λ path. ok (create_resource false setup.1);
  bind = λ address. ok tt;
}

abbrev pub unset : Memory
unset = record memory { status = http_unknown }

connected : (connect false loading (codes "service.so") (codes "localhost") 8082 [] []).0 ≡ ok tt
unfolding connect http_website create_resource_factory text_eq emplace_website to_string
connected = refl

library_there : one_library.exists (codes "service.so") ≡ true
unfolding text_eq
library_there = refl

one_line : Lacks b'\n' (codes "localhost" ++ port_text (some 8082))
unfolding to_string
one_line = ground arith

connect-get_message_example :
    (answer plain unset
      (connect false loading (codes "service.so") (codes "localhost") 8082 [] []).1
      (get_frame (codes "message/42") (codes "localhost" ++ port_text (some 8082)))
      empty_cache).0
    ≡ print_response (message_response (codes "today") (codes "42"))
connect-get_message_example =
    connect-get_message plain unset loading (codes "service.so") (codes "localhost") [] (codes "42")
      (some 8082) [] empty_cache refl refl (λ e. cc) (ground arith) (omega arith) one_line (λ e. cc)
      (ground arith) (ground arith) (ground arith) library_there refl library_there refl tt
      empty_cache-IsCoherent connected
