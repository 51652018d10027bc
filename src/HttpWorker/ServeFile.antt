-- ===== src/HttpWorker/ServeFile.antt =====
-- A GET request for a file, from its text to the text of the answer.
use http_cpp.Base.{
  ◌≡◌, ◌≢◌, refl, ◌∙◌, arith, Text, codes, List, [], ◌∷◌, ◌++◌, Option, ℕ, some, true, false, ok,
  All, ltb, length, length-append, to_string, text_eq, find_index,
}
use http_cpp.Base.Order.{text_order, text_cmp}
use http_cpp.Base.StdMap.{find, emplace, insert_all, assign, assign_all}
use http_cpp.Base.TextLaws.{Lacks}
use http_cpp.Build.{Build}
use http_cpp.HttpConstants.{m_get, methods, crlf, http_ok, reason_phrase}
use http_cpp.HttpStructure.{
  HttpRequest, HttpResponse, http_request, to_generic, print_headers, print_response,
}
use http_cpp.HttpProtocolOneOne.{method_of_index, make_response}
use http_cpp.HttpProtocolOneOne.RequestLine.{
  IsWord, request_line, fill_headers, fill_header, parse_request-crlf,
}
use http_cpp.HttpProtocolHandler.{HandlerCache, one_one, parse_by, respond_by}
use http_cpp.HttpProtocolHandler.Laws.{IsCoherent}
use http_cpp.HttpProtocolHandler.Version.{extract_http_version-request_line}
use http_cpp.HttpFilesystemResource.{
  FileSystem, http_filesystem_resource, get_content_type, fetch_resource_header,
  fetch_resource_content,
}
use http_cpp.HttpFilesystemResource
use http_cpp.HttpResourceFactory.{create_filesystem_handle, resource_at}
use http_cpp.HttpService
use http_cpp.HttpService.{Memory, parse_request, run_request, catch_all}
use http_cpp.HttpService.ExtractHost.{extract_host, host_byte, path_byte}
use http_cpp.HttpService.ExtractHostLaws.{IsPort, port_of, port_text, extract_host-host_header}
use http_cpp.HttpService.Laws.{IsAddressed, execute-eq}
use http_cpp.HttpService.Parsing.{parse_request-known, parse_request-IsCoherent}
use http_cpp.HttpServer.HttpWebsite.{HttpWebsite, find_website_by}
use http_cpp.HttpServer.HttpWebsite
use http_cpp.HttpWorker.{find_website, process, answer}

-- The text of the request, as a browser writes it.
abbrev pub get_frame : Text → Text → Text
get_frame path host =
    request_line (codes "GET") (b'/' ∷ path) (codes "HTTP/1.1")
    ++ 10 ∷ (print_headers ((codes "Host", host) ∷ []) ++ (crlf ++ []))

abbrev pub parsed : Text → Text → HttpRequest
parsed path host = record {
  method = m_get;
  request_uri = b'/' ∷ path;
  http_version = codes "HTTP/1.1";
  general_header = [];
  request_header = (codes "Host", host) ∷ [];
  entity_header = [];
  message_body = [];
}

-- The response to a request for the file at a path.
abbrev pub file_response : FileSystem → Text → Text → HttpResponse
file_response fs date p = record {
  http_version = codes "HTTP/1.1";
  status_code = http_ok;
  general_header = (codes "Date", date) ∷ [];
  response_header =
      (codes "Content-Length", to_string (length (fs.contents p)))
      ∷ (codes "Content-Type", get_content_type fs p)
      ∷ (codes "Last-Modified", fs.last_write_date p)
      ∷ (codes "Server", codes "http-cpp v0.1")
      ∷ [];
  entity_header = [];
  message_body = fs.contents p;
}

module _ (b : Build) (memory : Memory) (websites_ : List HttpWebsite) where
  pub process-served :
      (frame : Text) (c : HandlerCache) (request : HttpRequest) (website : HttpWebsite)
      (response : HttpResponse)
      → (parse_request b memory frame c).0 ≡ ok request
      → find_website websites_ request ≡ ok website
      → (HttpWebsite.execute b memory website request (parse_request b memory frame c).1).0
        ≡ ok response
      → (process b memory websites_ frame c).0 ≡ ok response
  unfolding process
  process-served frame c request website response p f e = rw (p, f, e)

  module _ (path name : Text) (port : Option ℕ) (word : IsWord path)
      (bytes : All (λ c. path_byte c ≡ true) path) (named : name ≢ [])
      (host : All (λ c. host_byte c ≡ true) name) (small : IsPort port)
      (one_line : Lacks b'\n' (name ++ port_text port))
      (adjacent : b.entity_follows_request ≡ false) where
    get_index : find_index (codes "GET") methods ≡ some 1
    unfolding find_index text_eq
    get_index = refl

    pub parsed-eq :
        (c : HandlerCache)
        → IsCoherent c
        → (parse_request b memory (get_frame path (name ++ port_text port)) c).0
          ≡ ok (parsed path (name ++ port_text port))
    unfolding parse_by fill_headers fill_header find_index text_eq emplace method_of_index
    parsed-eq c i =
        parse_request-known b memory (get_frame path (name ++ port_text port)) (codes "HTTP/1.1") c
          i
          (extract_http_version-request_line (codes "GET") (b'/' ∷ path) (codes "HTTP/1.1")
            (print_headers ((codes "Host", name ++ port_text port) ∷ []) ++ (crlf ++ []))
            (ground arith) (refl, word) (ground arith))
          one_one refl
        ∙ rw
            (parse_request-crlf b (codes "GET") (b'/' ∷ path) (codes "HTTP/1.1") 1
              ((codes "Host", name ++ port_text port) ∷ []) [] (http_request memory.method) adjacent
              (ground arith) (refl, word) (ground arith) get_index
              ((ground arith, ground arith, one_line), tt) tt tt)
            refl

    pub parsed-host :
        extract_host (parsed path (name ++ port_text port))
        ≡ ok (record { name = name; port = port_of port })
    unfolding find text_cmp
    parsed-host =
        extract_host-host_header name port path (parsed path (name ++ port_text port)) named host
          small bytes refl refl

    unfoldable pub parsed-IsAddressed :
        (c : HandlerCache) → IsCoherent c → IsAddressed (parsed path (name ++ port_text port)) c
    unfolding text_eq
    parsed-IsAddressed c i = record {
      host = record { name = name; port = port_of port };
      extracted = parsed-host;
      version = one_one;
      versioned = refl;
      coherent = i;
    }

    module _ (fs : FileSystem) (virtual_path_ : Text)
        (there : fs.exists (virtual_path_ ++ b'/' ∷ path) ≡ true)
        (regular : fs.is_regular_file (virtual_path_ ++ b'/' ∷ path) ≡ true) where
      not_empty : ltb 0 (length (virtual_path_ ++ b'/' ∷ path)) ≡ true
      not_empty = ground (arith, length-append virtual_path_ (b'/' ∷ path))

      handle-eq :
          create_filesystem_handle fs b.ndebug virtual_path_
            (to_generic (parsed path (name ++ port_text port)))
          ≡ ok (
              some (
                HttpFilesystemResource.execute fs
                  (http_filesystem_resource (virtual_path_ ++ b'/' ∷ path))))
      unfolding create_filesystem_handle resource_at to_generic
      handle-eq = rw (not_empty, there, regular, create_filesystem_handle, resource_at) refl

      execute-file :
          (c : HandlerCache)
          → IsCoherent c
          → (HttpService.execute b memory
              (create_filesystem_handle fs b.ndebug virtual_path_)
              (parsed path (name ++ port_text port))
              c).0
            ≡ ok (file_response fs memory.date (virtual_path_ ++ b'/' ∷ path))
      unfolding run_request HttpFilesystemResource.execute fetch_resource_header
          fetch_resource_content to_generic insert_all emplace assign assign_all text_cmp respond_by
          make_response parsed-IsAddressed
      execute-file c i =
          execute-eq b memory (create_filesystem_handle fs b.ndebug virtual_path_)
            (parsed path (name ++ port_text port)) c (parsed-IsAddressed c i)
          ∙ rw handle-eq refl

      -- A GET for a path without spaces and "?", with a Host header that names the host and the port, or no port for port 80, and with the
      -- line ends of HTTP, to a server with a website for that host and port that serves the files under a
      -- directory: where the path leads to a regular file, the worker answers with the printed
      -- response "200 OK" with the file's length, type and date in its headers and the bytes of the
      -- file as its body. It holds with any coherent cache of handlers, in builds where the entity
      -- headers do not stand directly behind the request headers.
      pub answer-get_file :
          (c : HandlerCache) (w : HttpWebsite)
          → IsCoherent c
          → find_website_by (record { name = name; port = port_of port }) websites_ ≡ some w
          → w.resource_factory_ ≡ create_filesystem_handle fs b.ndebug virtual_path_
          → (answer b memory websites_ (get_frame path (name ++ port_text port)) c).0
            ≡ print_response (file_response fs memory.date (virtual_path_ ++ b'/' ∷ path))
      unfolding answer find_website HttpWebsite.execute print_response reason_phrase
      answer-get_file c w i known serves =
          let c' = (parse_request b memory (get_frame path (name ++ port_text port)) c).1 in
          let coherent =
            parse_request-IsCoherent b memory (get_frame path (name ++ port_text port)) c i in
          let served =
            process-served (get_frame path (name ++ port_text port)) c
              (parsed path (name ++ port_text port)) w
              (file_response fs memory.date (virtual_path_ ++ b'/' ∷ path)) (parsed-eq c i)
              (rw (parsed-host, known) refl) (rw serves (execute-file c' coherent)) in
          rw served refl
