-- ===== src/Examples/Hosts.antt =====
-- Hosts of requests.
use http_cpp.Base.{◌≡◌, refl, arith, codes, [], ◌∷◌, ◌++◌, some, none, ok, to_string}
use http_cpp.Base.Order.{text_order, text_cmp}
use http_cpp.Base.StdMap.{find}
use http_cpp.HttpConstants.{m_get}
use http_cpp.HttpStructure.{http_request, HttpRequest}
use http_cpp.HttpService.Host.{Host}
use http_cpp.HttpService.ExtractHost.{extract_host}
use http_cpp.HttpService.ExtractHostLaws.{
  port_text, extract_host-absolute_uri, extract_host-host_header,
}

abbrev pub absolute : HttpRequest
absolute = record (http_request m_get) { request_uri = codes "http://www.a.org:8080/x" }

absolute_uri :
    absolute.request_uri
    ≡ codes "http://" ++ (codes "www.a.org" ++ (port_text (some 8080) ++ codes "/x"))
unfolding to_string
absolute_uri = refl

extract_host-absolute_uri_example :
    extract_host absolute ≡ ok (record { name = codes "www.a.org"; port = 8080 })
extract_host-absolute_uri_example =
    extract_host-absolute_uri (codes "www.a.org") (some 8080) (codes "/x") absolute (λ e. cc)
      (ground arith) (omega arith) (ground arith) (ground arith) absolute_uri

abbrev pub with_host : HttpRequest
with_host = record (http_request m_get) {
  request_uri = codes "/x";
  request_header = (codes "Host", codes "localhost") ∷ [];
}

found : find (codes "Host") with_host.request_header ≡ some (codes "localhost" ++ [])
unfolding find text_cmp
found = refl

extract_host-host_header_example :
    extract_host with_host ≡ ok (record { name = codes "localhost"; port = 80 })
extract_host-host_header_example =
    extract_host-host_header (codes "localhost") none (codes "x") with_host (λ e. cc) (ground arith)
      tt (ground arith) refl found

abbrev without_host : HttpRequest
without_host = record (http_request m_get) { request_uri = codes "/x" }

missing : find (codes "Host") without_host.request_header ≡ none
unfolding find
missing = refl

abbrev a_host : Host
a_host = record { name = codes "a"; port = 81 }
