-- ===== src/HttpService/ExtractHost.antt =====
-- `http_service::extract_host` of libhttp-cpp/src/http_service.cpp.
use http_cpp.Base.{
  ℕ, Text, codes, none, some, Bool, not, ◌||◌, text_eq, Outcome, ok, throw, http_invalid_request,
  invalid_argument, is_empty, decimal_value, is_digit, ltb, ◌==◌, if◌then◌else◌,
}
use http_cpp.Base.Order.{text_order}
use http_cpp.Base.StdMap.{find}
use http_cpp.Base.Regex.{
  Regex, many, seq, opt, group, plus, literal, any_byte, Captures, regex_match,
}
use http_cpp.HttpStructure.{HttpRequest}
use http_cpp.HttpService.Host.{Host}

-- "[^\/:]"
abbrev pub host_byte : ℕ → Bool
host_byte c = not (c == b'/' || c == b':')

-- "[^\?]"
abbrev pub path_byte : ℕ → Bool
path_byte c = not (c == b'?')

-- "(:([0-9]+))?"
abbrev pub port_part : ℕ → ℕ → Regex
port_part outer inner = opt (group outer (seq (literal b':') (group inner (plus is_digit))))

-- "(\?(.*))?"
abbrev pub query_part : ℕ → ℕ → Regex
query_part outer inner = opt (group outer (seq (literal b'?') (group inner (many any_byte))))

-- "http:\/\/([^\/:]+)(:([0-9]+))?([^\?]*)(\?(.*))?"
abbrev pub absolute_uri_regex : Regex
absolute_uri_regex = seq (literal b'h') (
    seq (literal b't') (
      seq (literal b't') (
        seq (literal b'p') (
          seq (literal b':') (
            seq (literal b'/') (
              seq (literal b'/') (
                seq (group 1 (plus host_byte))
                  (seq (port_part 2 3) (seq (group 4 (many path_byte)) (query_part 5 6))))))))))

-- "(\/([^\?]*))(\?(.*))?"
abbrev pub absolute_path_regex : Regex
absolute_path_regex = seq (group 1 (seq (literal b'/') (group 2 (many path_byte)))) (query_part 3 4)

-- "([^\/:]+)(:([0-9]+))?"
abbrev pub host_regex : Regex
host_regex = seq (group 1 (plus host_byte)) (port_part 2 3)

-- `ss >> port`, and 80 where that fails: on no digits, and on a value beyond a uint16_t.
unfoldable pub read_port : Text → ℕ
read_port raw_port =
    if is_empty raw_port
    then 80
    else (let port = decimal_value 0 raw_port in if ltb 65535 port then 80 else port)

abbrev pub host_of : Captures → Host
host_of matches = record { name = matches 1; port = read_port (matches 3) }

-- The last test, "*", and the failure.
abbrev pub other_form : Text → Outcome Host
other_form request_uri =
    if text_eq request_uri (codes "*")
    then ok (record { name = codes "*"; port = 80 })
    else throw invalid_argument

-- The Host header of a request for an absolute path. One that does not fit the pattern is passed
-- over.
unfoldable pub host_of_header : HttpRequest → Outcome Host
host_of_header request = elim (find (codes "Host") request.request_header) [
  | none ↦ throw http_invalid_request
  | some header ↦ elim (regex_match host_regex header) [
    | some matches ↦ ok (host_of matches)
    | none ↦ other_form request.request_uri
  ]
]

unfoldable pub extract_host : HttpRequest → Outcome Host
unfolding host_of_header
extract_host request = elim (regex_match absolute_uri_regex request.request_uri) [
  | some matches ↦ ok (host_of matches)
  | none ↦ elim (regex_match absolute_path_regex request.request_uri) [
    | some matches ↦ host_of_header request
    | none ↦ other_form request.request_uri
  ]
]
