-- ===== src/Examples/Websites.antt =====
-- Websites that are connected, and files that they serve.
use http_cpp.Base.{
  ◌≡◌, refl, codes, Text, [], some, none, ok, throw, invalid_argument, zmq_error, false, true,
  text_eq, if◌then◌else◌, to_string, length,
}
use http_cpp.Base.Order.{text_order}
use http_cpp.Base.StdMap.{find}
use http_cpp.HttpConstants.{m_get, m_head, http_ok, http_continue}
use http_cpp.GenericStructure.{GenericRequest, GenericResponse, generic_response}
use http_cpp.HttpFilesystemResource.{FileSystem, http_filesystem_resource, execute}
use http_cpp.HttpFilesystemResource.Laws.{execute-get_head}
use http_cpp.HttpResourceFactory.{create_resource_factory}
use http_cpp.HttpServer.HttpWebsite.{emplace_website}
use http_cpp.HttpServer.Connect.{System, connect, http_website}
use http_cpp.HttpServer.Laws.{connect-unchanged}
use http_cpp.HttpServer.Websites.{
  IsAscending, IsConnected, connect-IsAscending, connect-IsConnected,
}

-- A directory "/www" with one file.
abbrev index : Text
index = codes "/www/index.html"

abbrev pub one_file : FileSystem
one_file = record {
  exists = λ p. if text_eq p (codes "/www") then true else text_eq p index;
  is_directory = λ p. text_eq p (codes "/www");
  is_regular_file = λ p. text_eq p index;
  entries = λ p. [];
  contents = λ p. if text_eq p index then codes "<html>" else [];
  last_write_date = λ p. codes "today";
  magic_file = λ p. some (codes "text/html");
  has_magic = true;
}

abbrev get_index : GenericRequest
get_index = record {
  method = m_get;
  request_uri = codes "/index.html";
  header = [];
  message_body = [];
}

abbrev head_index : GenericRequest
head_index = record get_index { method = m_head }

abbrev fresh : GenericResponse
fresh = generic_response http_continue

nothing_yet : find (codes "Content-Length") fresh.header ≡ none
unfolding find
nothing_yet = refl

execute-get_head_example :
    let got = (execute one_file (http_filesystem_resource index) get_index fresh).1 in
    let seen = (execute one_file (http_filesystem_resource index) head_index fresh).1 in
    (got.message_body ≡ one_file.contents index)
    × (seen.message_body ≡ fresh.message_body)
    × (seen.header ≡ got.header)
    × (find (codes "Content-Length") seen.header ≡ some (to_string (length got.message_body)))
    × (got.status_code ≡ http_ok)
    × (seen.status_code ≡ http_ok)
execute-get_head_example =
    execute-get_head one_file index get_index head_index fresh refl refl tt nothing_yet

-- A system whose binding succeeds, and one where the address is in use.
abbrev pub binding : System
binding = record {
  files = one_file;
  load = λ path. throw invalid_argument;
  bind = λ address. ok tt;
}

abbrev in_use : System
in_use = record binding { bind = λ address. throw zmq_error }

refused : (connect false in_use (codes "/www") (codes "localhost") 81 [] []).0 ≡ throw zmq_error
unfolding connect http_website create_resource_factory text_eq emplace_website to_string
refused = refl

connect-unchanged_example :
    (connect false in_use (codes "/www") (codes "localhost") 81 [] []).1 ≡ []
connect-unchanged_example =
    connect-unchanged false in_use (codes "/www") (codes "localhost") 81 [] [] zmq_error refl
      refused

connect-IsAscending_example :
    IsAscending (connect false binding (codes "/www") (codes "localhost") 81 [] []).1
connect-IsAscending_example =
    connect-IsAscending false binding (codes "/www") (codes "localhost") 81 [] [] tt

accepted : (connect false binding (codes "/www") (codes "localhost") 81 [] []).0 ≡ ok tt
unfolding connect http_website create_resource_factory text_eq emplace_website to_string
accepted = refl

connect-IsConnected_example :
    IsConnected
      (http_website false binding
        (codes "/www")
        (record { name = codes "localhost"; port = 81 })
        [])
      (record { name = codes "localhost"; port = 81 })
      []
      (connect false binding (codes "/www") (codes "localhost") 81 [] []).1
connect-IsConnected_example =
    connect-IsConnected false binding (codes "/www") (codes "localhost") 81 [] [] tt accepted
