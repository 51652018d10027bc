-- ===== src/HttpConstants.antt =====
-- libhttp-cpp/include/http_constants.h and libhttp-cpp/src/http_constants.cpp: methods, status
-- codes, the tables of header names, reason phrases.
pub mod HttpDate
pub mod DateOverflow
pub mod MethodOrder
use http_cpp.Base.{
  ℕ, zero, suc, ◌+◌, ◌/◌, ◌%◌, ◌≡◌, refl, Text, codes, List, [], ◌∷◌, Outcome, ok, throw,
  invalid_argument,
}

pub data Method : Type 0 where
  m_options m_get m_head m_post m_put m_delete m_trace m_connect : Method

-- The underlying value of a method.
abbrev pub method_code : Method → ℕ
method_code m_options = 0
method_code m_get = 1
method_code m_head = 2
method_code m_post = 3
method_code m_put = 4
method_code m_delete = 5
method_code m_trace = 6
method_code m_connect = 7

abbrev pub methods : List Text
methods =
    codes "OPTIONS"
    ∷ codes "GET"
    ∷ codes "HEAD"
    ∷ codes "POST"
    ∷ codes "PUT"
    ∷ codes "DELETE"
    ∷ codes "TRACE"
    ∷ codes "CONNECT"
    ∷ []

abbrev pub general_headers : List Text
general_headers =
    codes "Cache-Control"
    ∷ codes "Connection"
    ∷ codes "Date"
    ∷ codes "Pragma"
    ∷ codes "Trailer"
    ∷ codes "Transfer-Encoding"
    ∷ codes "Upgrade"
    ∷ codes "Via"
    ∷ codes "Warning"
    ∷ []

abbrev pub request_headers : List Text
request_headers =
    codes "Accept"
    ∷ codes "Accept-Charset"
    ∷ codes "Accept-Encoding"
    ∷ codes "Accept-Language"
    ∷ codes "Authorization"
    ∷ codes "Expect"
    ∷ codes "From"
    ∷ codes "Host"
    ∷ codes "If-Match"
    ∷ codes "If-Modified-Since"
    ∷ codes "If-None-Match"
    ∷ codes "If-Range"
    ∷ codes "If-Unmodified-Since"
    ∷ codes "Max-Forwards"
    ∷ codes "Proxy-Authorization"
    ∷ codes "Range"
    ∷ codes "Referer"
    ∷ codes "TE"
    ∷ codes "User-Agent"
    ∷ []

abbrev pub entity_headers : List Text
entity_headers =
    codes "Allow"
    ∷ codes "Content-Encoding"
    ∷ codes "Content-Language"
    ∷ codes "Content-Length"
    ∷ codes "Content-Location"
    ∷ codes "Content-MD5"
    ∷ codes "Content-Range"
    ∷ codes "Content-Type"
    ∷ codes "Expires"
    ∷ codes "Last-Modified"
    ∷ []

abbrev pub crlf : Text
crlf = 13 ∷ 10 ∷ []

pub data Status : Type 0 where
  http_unknown http_continue http_switching_protocols : Status
  http_ok http_created http_accepted http_nonauthoritative : Status
  http_no_content http_reset_content http_partial_content : Status
  http_multiple_choices http_moved_permanently http_found http_see_other : Status
  http_not_modified http_use_proxy http_temporary_redirect : Status
  http_bad_request http_unhautorized http_payment_required http_forbidden : Status
  http_not_found http_method_not_allowed http_not_acceptable : Status
  http_proxy_authentication_required http_request_timeout http_conflict http_gone : Status
  http_length_required http_precondition_failed http_request_entry_too_large : Status
  http_requesturi_too_large http_unsupported_media_type : Status
  http_requested_range_not_satisfiable http_expectation_failed : Status
  http_internal_server_error http_not_implemented http_bad_gateway : Status
  http_service_unavailable http_gateway_timeout http_version_not_supported : Status
  -- A value of the underlying uint16_t that no enumerator names.
  other_status : ℕ → Status

-- The underlying value of a status.
unfoldable pub status_code : Status → ℕ
status_code http_unknown = 0
status_code http_continue = 100
status_code http_switching_protocols = 101
status_code http_ok = 200
status_code http_created = 201
status_code http_accepted = 202
status_code http_nonauthoritative = 203
status_code http_no_content = 204
status_code http_reset_content = 205
status_code http_partial_content = 206
status_code http_multiple_choices = 300
status_code http_moved_permanently = 301
status_code http_found = 302
status_code http_see_other = 303
status_code http_not_modified = 304
status_code http_use_proxy = 305
status_code http_temporary_redirect = 307
status_code http_bad_request = 400
status_code http_unhautorized = 401
status_code http_payment_required = 402
status_code http_forbidden = 403
status_code http_not_found = 404
status_code http_method_not_allowed = 405
status_code http_not_acceptable = 406
status_code http_proxy_authentication_required = 407
status_code http_request_timeout = 408
status_code http_conflict = 409
status_code http_gone = 410
status_code http_length_required = 411
status_code http_precondition_failed = 412
status_code http_request_entry_too_large = 413
status_code http_requesturi_too_large = 414
status_code http_unsupported_media_type = 415
status_code http_requested_range_not_satisfiable = 416
status_code http_expectation_failed = 417
status_code http_internal_server_error = 500
status_code http_not_implemented = 501
status_code http_bad_gateway = 502
status_code http_service_unavailable = 503
status_code http_gateway_timeout = 504
status_code http_version_not_supported = 505
status_code (other_status n) = n

-- `default: throw`
unfoldable pub reason_phrase : Status → Outcome Text
reason_phrase http_unknown = ok (codes "Unknown")
reason_phrase http_continue = ok (codes "Continue")
reason_phrase http_switching_protocols = ok (codes "Switching Protocols")
reason_phrase http_ok = ok (codes "OK")
reason_phrase http_created = ok (codes "Created")
reason_phrase http_accepted = ok (codes "Accepted")
reason_phrase http_nonauthoritative = ok (codes "Non-Authoritative Information")
reason_phrase http_no_content = ok (codes "No Content")
reason_phrase http_reset_content = ok (codes "Reset Content")
reason_phrase http_partial_content = ok (codes "Partial Content")
reason_phrase http_multiple_choices = ok (codes "Multiple Choices")
reason_phrase http_moved_permanently = ok (codes "Moved Permanently")
reason_phrase http_found = ok (codes "Found")
reason_phrase http_see_other = ok (codes "See Other")
reason_phrase http_not_modified = ok (codes "Not Modified")
reason_phrase http_use_proxy = ok (codes "Use Proxy")
reason_phrase http_temporary_redirect = ok (codes "Temporary Redirect")
reason_phrase http_bad_request = ok (codes "Bad Request")
reason_phrase http_unhautorized = ok (codes "Unauthorized")
reason_phrase http_payment_required = ok (codes "Payment Required")
reason_phrase http_forbidden = ok (codes "Forbidden")
reason_phrase http_not_found = ok (codes "Not Found")
reason_phrase http_method_not_allowed = ok (codes "Method Not Allowed")
reason_phrase http_not_acceptable = ok (codes "Not Acceptable")
reason_phrase http_proxy_authentication_required = ok (codes "Proxy Authentication Required")
reason_phrase http_request_timeout = ok (codes "Request Time-out")
reason_phrase http_conflict = ok (codes "Conflict")
reason_phrase http_gone = ok (codes "Gone")
reason_phrase http_length_required = ok (codes "Length Required")
reason_phrase http_precondition_failed = ok (codes "Precondition Failed")
reason_phrase http_request_entry_too_large = ok (codes "Request Entity Too Large")
reason_phrase http_requesturi_too_large = ok (codes "Request-URI Too Large")
reason_phrase http_unsupported_media_type = ok (codes "Unsupported Media Type")
reason_phrase http_requested_range_not_satisfiable = ok (codes "Requested range not satisfiable")
reason_phrase http_expectation_failed = ok (codes "Expectation Failed")
reason_phrase http_internal_server_error = ok (codes "Internal Server Error")
reason_phrase http_not_implemented = ok (codes "Not Implemented")
reason_phrase http_bad_gateway = ok (codes "Bad Gateway")
reason_phrase http_service_unavailable = ok (codes "Service Unavailable")
reason_phrase http_gateway_timeout = ok (codes "Gateway Time-out")
reason_phrase http_version_not_supported = ok (codes "HTTP Version not supported")
reason_phrase (other_status n) = throw invalid_argument

pub data StatusClass : Type 0 where
  informational success redirection client_error server_error : StatusClass
  -- A value of the underlying uint8_t that no enumerator names.
  other_class : ℕ → StatusClass

-- `static_cast<status_class>`
abbrev pub status_class_of : ℕ → StatusClass
status_class_of (suc zero) = informational
status_class_of (suc (suc zero)) = success
status_class_of (suc (suc (suc zero))) = redirection
status_class_of (suc (suc (suc (suc zero)))) = client_error
status_class_of (suc (suc (suc (suc (suc zero))))) = server_error
status_class_of n = other_class n

-- The first digit is stored in a uint8_t.
unfoldable pub get_status_class : Status → StatusClass
unfolding status_code
get_status_class code = status_class_of (status_code code / 100 % 256)
