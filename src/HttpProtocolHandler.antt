-- ===== src/HttpProtocolHandler.antt =====
-- libhttp-cpp/src/http_protocol_handler.h, .hpp, .cpp, http_protocol_handler_cache.h, .cpp and
-- http_protocol_one_zero.h, .cpp: the handlers of the two protocol versions and their cache.
pub mod Laws
pub mod Version
use http_cpp.Base.{
  ℕ, ◌+◌, Text, codes, List, [], ◌∷◌, Option, none, some, Bool, true, false, Outcome, ok, throw,
  terminate, undefined, out_of_range, ◌>>=◌, ◌>>◌, noexcept, assert_that, Exec, is_empty, find_byte,
  pop_back_if, getline, text_eq, if◌then◌else◌, drop,
}
use http_cpp.Base.Order.{text_order}
use http_cpp.Base.StdMap.{StdMap, find, emplace, assign, assign_all}
use http_cpp.Build.{Build}
use http_cpp.GenericStructure.{GenericResponse}
use http_cpp.HttpStructure.{ParsingStatus, success, HttpRequest, HttpResponse, http_response_of}
use http_cpp.HttpProtocolOneOne.{line_of}
use http_cpp.HttpProtocolOneOne

pub data ProtocolVersion : Type 0 where
  one_one one_zero : ProtocolVersion

-- `T::http_version`
abbrev pub version_text : ProtocolVersion → Text
version_text one_one = codes "HTTP/1.1"
version_text one_zero = codes "HTTP/1.0"

-- A handler object: its class, and its place in memory.
pub record Handler : Type 0 where
  pub version : ProtocolVersion
  pub address : ℕ

-- The cache, with the number of handlers that were ever made, which names the next place.
pub record HandlerCache : Type 0 where
  pub cache_ : StdMap Text Handler
  pub made : ℕ

abbrev pub empty_cache : HandlerCache
empty_cache = record { cache_ = []; made = 0 }

abbrev is_some {ℓ} : {A : Type ℓ} → Option A → Bool
is_some none = false
is_some (some a) = true

unfoldable pub contains : HandlerCache → Text → Bool
contains c key = is_some (find key c.cache_)

-- `cache_.at(key)`
unfoldable pub get : HandlerCache → Text → Outcome Handler
get c key = elim (find key c.cache_) [ none ↦ throw out_of_range | some h ↦ ok h ]

-- The stored handler, or `nullptr` where the key was there before.
unfoldable pub insert : Text → Handler → HandlerCache → Option Handler × HandlerCache
insert key value c = elim (find key c.cache_) [
  | none ↦ (some value, record c { cache_ = emplace key value c.cache_ })
  | some h ↦ (none, c)
]

-- `std::make_unique<T>()`
abbrev make : ProtocolVersion → HandlerCache → Handler × HandlerCache
make v c = (record { version = v; address = c.made }, record c { made = c.made + 1 })

unfoldable pub make_handle_impl : Build → ProtocolVersion → Exec HandlerCache (Option Handler)
unfolding contains get insert
make_handle_impl b v c =
    if contains c (version_text v)
    then (noexcept (get c (version_text v) >>= λ raw_ptr. ok (some raw_ptr)), c)
    else (let (value, c') = make v c in
        let (raw_ptr, c'') = insert (version_text v) value c' in
        (assert_that b.ndebug (is_some raw_ptr) >> ok raw_ptr, c''))

unfoldable pub get_handler : Build → Text → Exec HandlerCache (Option Handler)
get_handler b http_version c =
    if text_eq http_version (version_text one_one)
    then make_handle_impl b one_one c
    else if text_eq http_version (version_text one_zero)
    then make_handle_impl b one_zero c
    else (ok none, c)

-- With no space in the line `first_space_it + 1` lies behind the end.
unfoldable pub extract_http_version : Text → Outcome Text
extract_http_version request =
    let (whole, unread) = line_of (getline request) in
    if is_empty whole
    then ok []
    else (let line = pop_back_if 13 whole in
        elim (find_byte 32 line) [
          | none ↦ undefined
          | some first ↦
              let behind = drop (first + 1) line in
              elim (find_byte 32 behind) [
                | none ↦ ok []
                | some second ↦ ok (drop (second + 1) behind)
              ]
        ])

-- http_protocol_one_zero::parse_request
unfoldable pub parse_request_one_zero : Text → HttpRequest → Outcome (ParsingStatus × HttpRequest)
parse_request_one_zero request r = ok (success, r)

-- http_protocol_one_zero::make_response
unfoldable pub make_response_one_zero : Text → GenericResponse → HttpResponse
make_response_one_zero date g =
    let response = http_response_of g (version_text one_zero) in
    record response {
      general_header = assign (codes "Date") date response.general_header;
      response_header =
          assign (codes "Server") (codes "http-cpp v0.1")
            (assign_all g.header response.response_header);
    }

-- The virtual calls.
unfoldable pub parse_by :
    Build → ProtocolVersion → Text → HttpRequest → Outcome (ParsingStatus × HttpRequest)
parse_by b one_one = HttpProtocolOneOne.parse_request b
parse_by b one_zero = parse_request_one_zero

unfoldable pub respond_by : ProtocolVersion → Text → GenericResponse → HttpResponse
respond_by one_one = HttpProtocolOneOne.make_response
respond_by one_zero = make_response_one_zero
