-- ===== src/HttpProtocolOneOne.antt =====
-- libhttp-cpp/src/http_protocol_one_one.h and http_protocol_one_one.cpp: HTTP/1.1.
pub mod Headers
pub mod RequestLine
mod Tests
use http_cpp.Base.{
  ℕ, zero, suc, ◌+◌, Text, codes, List, [], ◌∷◌, ◌++◌, Option, none, some, Bool, true, false, not,
  ◌&&◌, Outcome, ok, throw, terminate, undefined, out_of_range, ◌>>=◌, ◌>>◌, noexcept, assert_that,
  is_empty, find_index, find_byte, pop_back_if, is_space, split, getline, ltb, leb, if◌then◌else◌,
  length, take, drop,
}
use http_cpp.Base.Order.{text_order}
use http_cpp.Base.StdMap.{StdMap, emplace, assign, assign_all}
use http_cpp.Build.{Build}
use http_cpp.HttpConstants.{
  Method, m_options, m_get, m_head, m_post, m_put, m_delete, m_trace, m_connect, methods,
  general_headers, request_headers, entity_headers,
}
use http_cpp.GenericStructure.{GenericResponse}
use http_cpp.HttpStructure.{
  ParsingStatus, success, empty_request, invalid_request_line, HttpRequest, HttpResponse,
  print_method, http_response_of,
}

abbrev pub http_version : Text
http_version = codes "HTTP/1.1"

-- `static_cast<http_constants::method>` of an index into the table of methods.
unfoldable pub method_of_index : ℕ → Method
method_of_index zero = m_options
method_of_index (suc zero) = m_get
method_of_index (suc (suc zero)) = m_head
method_of_index (suc (suc (suc zero))) = m_post
method_of_index (suc (suc (suc (suc zero)))) = m_put
method_of_index (suc (suc (suc (suc (suc zero))))) = m_delete
method_of_index (suc (suc (suc (suc (suc (suc zero)))))) = m_trace
method_of_index n = m_connect

-- `substr(pos)`
unfoldable pub substr_from : ℕ → Text → Outcome Text
substr_from pos s = if leb pos (length s) then ok (drop pos s) else throw out_of_range

-- `std::getline` of a line that is empty before: it stays empty where nothing can be read.
abbrev pub line_of : Option (Text × Option Text) → Text × Option Text
line_of none = ([], none)
line_of (some found) = found

-- The last part is dropped if it is empty, as it is behind a carriage return.
unfoldable pub drop_empty_back : List Text → List Text
drop_empty_back [] = []
drop_empty_back (w ∷ []) = if is_empty w then [] else w ∷ []
drop_empty_back (w ∷ v ∷ ws) = w ∷ drop_empty_back (v ∷ ws)

-- `entity_iter != std::cend(http_constants::REQUEST_HEADER)`, which compares the places of two
-- arrays: equal only at the first entity header, and only if the arrays are adjacent.
abbrev is_first : Option ℕ → Bool
is_first (some zero) = true
is_first (some (suc i)) = false
is_first none = false

-- `request.substr(input.tellg())`: the unread bytes; after a failed read `tellg` is -1, which
-- the comparison with the size takes for a large number.
abbrev pub body_of : Option Text → Text
body_of none = []
body_of (some s) = s

abbrev pub with_body : HttpRequest × Option Text → ParsingStatus × HttpRequest
with_body (r, unread) = (success, record r { message_body = body_of unread })

module _ (b : Build) where
  unfoldable pub store_header : Text → Text → HttpRequest → Outcome HttpRequest
  store_header header property r = elim (find_index header general_headers) [
    | some i ↦ ok (record r { general_header = emplace header property r.general_header })
    | none ↦ elim (find_index header request_headers) [
      | some i ↦ ok (record r { request_header = emplace header property r.request_header })
      | none ↦
          if not (b.entity_follows_request && is_first (find_index header entity_headers))
          then ok (record r { entity_header = emplace header property r.entity_header })
          else (assert_that b.ndebug false >> ok r)
    ]
  ]

  -- The body of the header loop; `continue` leaves the request as it is.
  unfoldable pub parse_header_line : Text → HttpRequest → Outcome HttpRequest
  parse_header_line line r = elim (find_byte 58 line) [
    | none ↦ ok r
    | some colon ↦ if ltb (length line) 2 then ok r else (do
      let rest = pop_back_if 13 (pop_back_if 10 line)
      property ← substr_from (colon + 2) rest
      store_header (take colon rest) property r)
  ]

  -- The header loop on the unread bytes: the request, and the bytes unread behind the blank line
  -- that ended it, if one did. A round reads a byte at least, so fuel beyond the number of unread
  -- bytes is enough.
  unfoldable pub parse_headers : ℕ → Option Text → HttpRequest → Outcome (HttpRequest × Option Text)
  parse_headers zero unread r = ok (r, none)
  parse_headers (suc fuel) none r = ok (r, none)
  parse_headers (suc fuel) (some s) r = elim (getline s) [
    | none ↦ ok (r, none)
    | some (line, rest) ↦
        if is_empty line
        then ok (r, rest)
        else (do filled ← parse_header_line line r; parse_headers fuel rest filled)
  ]

  -- What follows the request line, once its three parts are known.
  unfoldable pub parse_rest :
      ℕ → Text → Text → Text → Option Text → HttpRequest → Outcome (ParsingStatus × HttpRequest)
  parse_rest fuel raw_method raw_request_uri raw_http_version unread r =
      elim (find_index raw_method methods) [
        | none ↦ ok (invalid_request_line, r)
        | some index ↦ do
          filled ← parse_headers fuel unread (record r {
            method = method_of_index index;
            request_uri = raw_request_uri;
            http_version = raw_http_version;
          })
          ok (with_body filled)
      ]

  -- The request line has three parts, or it is refused.
  unfoldable pub parse_parts :
      ℕ → List Text → Option Text → HttpRequest → Outcome (ParsingStatus × HttpRequest)
  parse_parts fuel (m ∷ u ∷ v ∷ []) unread r = parse_rest fuel m u v unread r
  parse_parts fuel _ unread r = ok (invalid_request_line, r)

  unfoldable pub parse_request : Text → HttpRequest → Outcome (ParsingStatus × HttpRequest)
  parse_request request r =
      if is_empty request
      then ok (empty_request, r)
      else (let (request_line, unread) = line_of (getline request) in
          noexcept (
            parse_parts (suc (length request)) (drop_empty_back (split is_space request_line))
              unread r))

-- The date is the text of `http_constants::http_date()`.
unfoldable pub make_response : Text → GenericResponse → HttpResponse
make_response date g =
    let response = http_response_of g http_version in
    record response {
      general_header = assign (codes "Date") date response.general_header;
      response_header =
          assign (codes "Server") (codes "http-cpp v0.1")
            (assign_all g.header response.response_header);
    }

-- The keys of the dispatcher, as the constructor fills it, in the order of the map.
abbrev pub dispatcher_ : List Method
dispatcher_ = m_get ∷ m_head ∷ []

-- The loop of `list_implemented_methods`.
unfoldable pub list_methods : Bool → List Method → Text
list_methods first [] = []
list_methods first (m ∷ ms) =
    (if first then [] else codes ", ") ++ print_method m ++ list_methods false ms

unfoldable pub list_implemented_methods : Text
unfolding list_methods
list_implemented_methods = list_methods true dispatcher_
