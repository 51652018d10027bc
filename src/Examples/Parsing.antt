-- ===== src/Examples/Parsing.antt =====
-- Requests that are parsed, and a date.
use http_cpp.Base.{
  ◌≡◌, refl, arith, codes, Text, List, [], ◌∷◌, ◌++◌, some, ok, terminate, undefined, false,
  find_index, text_eq,
}
use http_cpp.Base.Order.{text_order}
use http_cpp.Build.{Build}
use http_cpp.HttpConstants.{crlf, m_options, methods}
use http_cpp.HttpConstants.HttpDate.{Tm, httptime}
use http_cpp.HttpConstants.DateOverflow.{IsCalendar, httptime-overflow}
use http_cpp.HttpStructure.{http_request, HttpRequest, success, print_headers}
use http_cpp.HttpProtocolOneOne.{parse_request}
use http_cpp.HttpProtocolOneOne.RequestLine.{
  request_line, filled_line, fill_headers, parse_request-newline, parse_request-crlf,
  parse_request-bare,
}

abbrev pub plain : Build
plain = record { ndebug = false; entity_follows_request = false }

abbrev host_and_length : List (Text × Text)
host_and_length = (codes "Host", codes "h:80") ∷ (codes "Content-Length", codes "2") ∷ []

abbrev blank : HttpRequest
blank = http_request m_options

get_index : find_index (codes "GET") methods ≡ some 1
unfolding find_index text_eq
get_index = refl

-- A whole request with two headers and a body.
parse_request-newline_example :
    parse_request plain
      (request_line (codes "GET") (codes "/a") (codes "HTTP/1.1")
        ++ 10 ∷ (print_headers host_and_length ++ 10 ∷ codes "hi"))
      blank
    ≡ ok (
      success,
      record (fill_headers host_and_length (filled_line 1 (codes "/a") (codes "HTTP/1.1") blank)) {
        message_body = codes "hi";
      },
    )
parse_request-newline_example =
    parse_request-newline plain (codes "GET") (codes "/a") (codes "HTTP/1.1") 1 host_and_length
      (codes "hi") blank refl (ground arith) (ground arith) (ground arith) get_index (ground arith)

-- The same with the blank line of HTTP.
parse_request-crlf_example :
    parse_request plain
      (request_line (codes "GET") (codes "/a") (codes "HTTP/1.1")
        ++ 10 ∷ (print_headers host_and_length ++ (crlf ++ codes "hi")))
      blank
    ≡ ok (
      success,
      record (fill_headers host_and_length (filled_line 1 (codes "/a") (codes "HTTP/1.1") blank)) {
        message_body = [];
      },
    )
parse_request-crlf_example =
    parse_request-crlf plain (codes "GET") (codes "/a") (codes "HTTP/1.1") 1 host_and_length
      (codes "hi") blank refl (ground arith) (ground arith) (ground arith) get_index (ground arith)
      (ground arith) (ground arith)

-- A header without a value behind two good ones.
parse_request-bare_example :
    parse_request plain
      (request_line (codes "GET") (codes "/a") (codes "HTTP/1.1")
        ++ 10 ∷ (print_headers host_and_length ++ ((codes "Accept" ++ codes ":\r") ++ 10 ∷ crlf)))
      blank
    ≡ terminate
parse_request-bare_example =
    parse_request-bare plain (codes "GET") (codes "/a") (codes "HTTP/1.1") 1 host_and_length
      (codes "Accept") crlf blank refl (ground arith) (ground arith) (ground arith) get_index
      (ground arith) (ground arith) (ground arith)

abbrev two_lines : Text
two_lines = codes "Host: a\r\n\r\n"

abbrev new_year : Tm
new_year = record {
  tm_wday = 5;
  tm_mday = 1;
  tm_mon = 0;
  tm_year = 116;
  tm_hour = 0;
  tm_min = 0;
  tm_sec = 0;
}

httptime-overflow_example : httptime new_year ≡ undefined
httptime-overflow_example = httptime-overflow new_year new_year-IsCalendar
  where
    new_year-IsCalendar : IsCalendar new_year
    new_year-IsCalendar = record {
      wday = omega arith;
      mday = omega arith;
      mon = omega arith;
      year = omega arith;
      hour = omega arith;
      min = omega arith;
      sec = omega arith;
    }
