-- ===== src/HttpStructure.antt =====
-- libhttp-cpp/include/http_structure.h, http_structure.hpp and libhttp-cpp/src/http_structure.cpp:
-- the structured request and response, and how a response is written.
pub mod Laws
use http_cpp.Base.{ℕ, zero, suc, Text, codes, List, [], ◌∷◌, ◌++◌, Outcome, ok, ◌>>=◌, to_string}
use http_cpp.Base.Order.{text_order}
use http_cpp.Base.StdMap.{StdMap, insert_all}
use http_cpp.HttpConstants.{Method, Status, status_code, reason_phrase, methods, method_code, crlf}
use http_cpp.GenericStructure.{HeaderMap, GenericRequest, GenericResponse}

pub data ParsingStatus : Type 0 where
  success empty_request invalid_request_line invalid_method : ParsingStatus

pub record HttpRequest : Type 0 where
  pub method : Method
  pub request_uri : Text
  pub http_version : Text
  pub general_header : HeaderMap
  pub request_header : HeaderMap
  pub entity_header : HeaderMap
  pub message_body : Text

-- `http_request structured_request;` leaves the method as the memory was.
abbrev pub http_request : Method → HttpRequest
http_request uninitialised = record {
  method = uninitialised;
  request_uri = [];
  http_version = [];
  general_header = [];
  request_header = [];
  entity_header = [];
  message_body = [];
}

unfoldable pub to_generic : HttpRequest → GenericRequest
to_generic r = record {
  method = r.method;
  request_uri = r.request_uri;
  header =
      insert_all r.entity_header (insert_all r.request_header (insert_all r.general_header []));
  message_body = r.message_body;
}

pub record HttpResponse : Type 0 where
  pub http_version : Text
  pub status_code : Status
  pub general_header : HeaderMap
  pub response_header : HeaderMap
  pub entity_header : HeaderMap
  pub message_body : Text

abbrev pub default_http_version : Text
default_http_version = codes "HTTP/1.1"

-- The constructor from a version leaves the status as the memory was.
abbrev pub http_response : Text → Status → HttpResponse
http_response version uninitialised = record {
  http_version = version;
  status_code = uninitialised;
  general_header = [];
  response_header = [];
  entity_header = [];
  message_body = [];
}

-- The constructor from a generic response takes its status and its body, and no header.
abbrev pub http_response_of : GenericResponse → Text → HttpResponse
http_response_of g version = record {
  http_version = version;
  status_code = g.status_code;
  general_header = [];
  response_header = [];
  entity_header = [];
  message_body = g.message_body;
}

-- `operator<<` of a method: the entry of the table at its underlying value.
abbrev entry_at : List Text → ℕ → Text
entry_at [] i = []
entry_at (t ∷ ts) zero = t
entry_at (t ∷ ts) (suc i) = entry_at ts i

unfoldable pub print_method : Method → Text
print_method m = entry_at methods (method_code m)

-- One loop of `operator<<` over a header map.
unfoldable pub print_headers : HeaderMap → Text
print_headers [] = []
print_headers ((k, v) ∷ m) = k ++ codes ": " ++ v ++ crlf ++ print_headers m

-- `operator<<` of a response; an unknown status throws in `reason_phrase`.
unfoldable pub print_response : HttpResponse → Outcome Text
print_response r = do
  phrase ← reason_phrase r.status_code
  ok (
      r.http_version
      ++ codes " "
      ++ to_string (status_code r.status_code)
      ++ codes " "
      ++ phrase
      ++ crlf
      ++ print_headers r.general_header
      ++ print_headers r.response_header
      ++ print_headers r.entity_header
      ++ crlf
      ++ r.message_body)
