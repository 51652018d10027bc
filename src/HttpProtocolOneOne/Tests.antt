-- ===== src/HttpProtocolOneOne/Tests.antt =====
-- Tests of the parser.
use http_cpp.Base.{
  ◌≡◌, refl, Text, codes, [], ◌∷◌, ok, terminate, false, text_eq, find_index, find_byte,
  pop_back_if, split, getline,
}
use http_cpp.Base.Order.{text_order, text_cmp}
use http_cpp.Base.StdMap.{emplace}
use http_cpp.Build.{Build}
use http_cpp.HttpConstants.{m_options, m_get}
use http_cpp.HttpStructure.{success, http_request}
use http_cpp.HttpStructure.{print_method}
use http_cpp.HttpProtocolOneOne.{
  list_implemented_methods, parse_request, parse_parts, parse_rest, parse_headers,
  parse_header_line, store_header, substr_from, drop_empty_back, method_of_index,
}

abbrev plain : Build
plain = record { ndebug = false; entity_follows_request = false }

abbrev crlf_request : Text
crlf_request = codes "GET /a HTTP/1.1\r\nHost: h:80\r\nX: y\r\n\r\nbody"

parse_test :
    parse_request plain crlf_request (http_request m_options)
    ≡ ok (
      success,
      record {
        method = m_get;
        request_uri = codes "/a";
        http_version = codes "HTTP/1.1";
        general_header = [];
        request_header = (codes "Host", codes "h:80") ∷ [];
        entity_header = (codes "X", codes "y") ∷ [];
        message_body = [];
      },
    )
unfolding parse_request parse_parts parse_rest parse_headers parse_header_line store_header
    substr_from drop_empty_back method_of_index find_index find_byte pop_back_if split getline
    emplace text_cmp text_eq
parse_test = refl

parse_crash :
    parse_request plain (codes "GET /a HTTP/1.1\r\nHost:\r\n\r\n") (http_request m_options)
    ≡ terminate
unfolding parse_request parse_parts parse_rest parse_headers parse_header_line store_header
    substr_from drop_empty_back method_of_index find_index find_byte pop_back_if split getline
    emplace text_cmp text_eq
parse_crash = refl

methods_test : list_implemented_methods ≡ codes "GET, HEAD"
unfolding list_implemented_methods print_method
methods_test = refl
