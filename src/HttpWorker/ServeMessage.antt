-- ===== src/HttpWorker/ServeMessage.antt =====
-- A GET request to the service of messages in example/rest_webservice, from `http_server::connect` of
-- its library and the text of the request to the text of the answer.
use http_cpp.Base.{
  ℕ, Option, ◌≡◌, ◌≢◌, refl, sym, ap, ◌∙◌, Text, codes, List, [], ◌∷◌, ◌++◌, some, Bool, true,
  false, ok, All,
}
use http_cpp.Base.Order.{text_order, text_cmp}
use http_cpp.Base.StdMap.{insert_all, emplace, assign, assign_all}
use http_cpp.Base.TextLaws.{Lacks}
use http_cpp.Build.{Build}
use http_cpp.HttpConstants.{http_ok, http_unknown, reason_phrase}
use http_cpp.HttpStructure.{HttpResponse, to_generic, print_response}
use http_cpp.HttpProtocolOneOne.{make_response}
use http_cpp.HttpProtocolOneOne.RequestLine.{IsWord}
use http_cpp.HttpProtocolHandler.{HandlerCache, respond_by}
use http_cpp.HttpProtocolHandler.Laws.{IsCoherent}
use http_cpp.HttpFilesystemResource.{FileSystem}
use http_cpp.HttpResource.{ExternalService}
use http_cpp.HttpResourceFactory.{create_external_handle, create_resource_factory}
use http_cpp.HttpService
use http_cpp.HttpService.{Memory, parse_request, run_request}
use http_cpp.HttpService.Host.{Host}
use http_cpp.HttpService.ExtractHost.{host_byte, path_byte}
use http_cpp.HttpService.ExtractHostLaws.{IsPort, port_of, port_text}
use http_cpp.HttpService.Laws.{execute-eq}
use http_cpp.HttpService.Parsing.{parse_request-IsCoherent}
use http_cpp.HttpServer.HttpWebsite.{HttpWebsite, find_website_by}
use http_cpp.HttpServer.HttpWebsite
use http_cpp.HttpServer.Connect.{System, http_website, connect}
use http_cpp.HttpServer.Laws.{host_eq_refl}
use http_cpp.HttpServer.Websites.{IsAscending, connect-IsConnected}
use http_cpp.LibRest.{RestFunction, create_resource}
use http_cpp.LibRest as LibRest
use http_cpp.LibRest.MyService.{setup, get_message, append_params}
use http_cpp.LibRest.MyService.Laws.{setup-message}
use http_cpp.HttpWorker.{find_website, answer}
use http_cpp.HttpWorker.ServeFile.{
  get_frame, parsed, parsed-eq, parsed-host, parsed-IsAddressed, process-served,
}
use http_cpp.HttpWorker.ServeSite.{factory_or}

abbrev message_path : Text → Text
message_path id = codes "message/" ++ id

-- The response to a request for a message.
abbrev pub message_response : Text → Text → HttpResponse
message_response date id = record {
  http_version = codes "HTTP/1.1";
  status_code = http_ok;
  general_header = (codes "Date", date) ∷ [];
  response_header = (codes "Server", codes "http-cpp v0.1") ∷ [];
  entity_header = [];
  message_body = codes "GET message\nid:" ++ id;
}

module _ (b : Build) (memory : Memory) (id name : Text) (port : Option ℕ) (filled : id ≢ [])
    (no_slash : Lacks b'/' id) (word : IsWord (message_path id))
    (bytes : All (λ c. path_byte c ≡ true) (message_path id)) (named : name ≢ [])
    (host : All (λ c. host_byte c ≡ true) name) (small : IsPort port)
    (one_line : Lacks b'\n' (name ++ port_text port)) (adjacent : b.entity_follows_request ≡ false)
    (unset : memory.status ≡ http_unknown) where
  handle-eq :
      (fs : FileSystem)
      → create_external_handle fs
          (create_resource b.ndebug setup.1)
          (to_generic (parsed (message_path id) (name ++ port_text port)))
        ≡ ok (some (LibRest.execute (some get_message) ((codes "id", id) ∷ [])))
  unfolding create_external_handle create_resource to_generic
  handle-eq fs = rw ((setup-message b.ndebug id filled no_slash).1) refl

  execute-message :
      (fs : FileSystem) (c : HandlerCache)
      → IsCoherent c
      → (HttpService.execute b memory
          (create_external_handle fs (create_resource b.ndebug setup.1))
          (parsed (message_path id) (name ++ port_text port))
          c).0
        ≡ ok (message_response memory.date id)
  unfolding run_request LibRest.execute append_params to_generic insert_all emplace assign
      assign_all text_cmp respond_by make_response parsed-IsAddressed
  execute-message fs c i =
      execute-eq b memory (create_external_handle fs (create_resource b.ndebug setup.1))
        (parsed (message_path id) (name ++ port_text port)) c
        (parsed-IsAddressed b memory [] (message_path id) name port word bytes named host small
          one_line adjacent c i)
      ∙ rw (handle-eq fs, unset) refl

  -- The worker's answer, where the website is in place.
  pub answer-get_message :
      (websites_ : List HttpWebsite) (fs : FileSystem) (c : HandlerCache) (w : HttpWebsite)
      → IsCoherent c
      → find_website_by (record { name = name; port = port_of port }) websites_ ≡ some w
      → w.resource_factory_ ≡ create_external_handle fs (create_resource b.ndebug setup.1)
      → (answer b memory websites_ (get_frame (message_path id) (name ++ port_text port)) c).0
        ≡ print_response (message_response memory.date id)
  unfolding answer find_website HttpWebsite.execute print_response reason_phrase
  answer-get_message websites_ fs c w i known serves =
      let path = message_path id in
      let coherent =
        parse_request-IsCoherent b memory (get_frame path (name ++ port_text port)) c i in
      let served =
        process-served b memory websites_ (get_frame path (name ++ port_text port)) c
          (parsed path (name ++ port_text port)) w (message_response memory.date id)
          (parsed-eq b memory websites_ path name port word bytes named host small one_line adjacent
            c i)
          (rw
            (
              parsed-host b memory websites_ path name port word bytes named host small one_line
                  adjacent,
              known,
            )
            refl)
          (rw serves (
            execute-message fs
              (parse_request b memory (get_frame path (name ++ port_text port)) c).1 coherent)) in
      rw served refl

-- The website of a library asks the service that was loaded from it.
factory_of_library :
    (ndebug : Bool) (sys : System) (website_path website_name : Text) (host : Host)
    (service_ : ExternalService) (w : HttpWebsite)
    → sys.files.exists website_path ≡ true
    → sys.files.is_directory website_path ≡ false
    → sys.files.is_regular_file website_path ≡ true
    → sys.load website_path ≡ ok service_
    → http_website ndebug sys website_path host website_name ≡ ok w
    → w.resource_factory_ ≡ create_external_handle sys.files service_
unfolding http_website create_resource_factory
factory_of_library ndebug sys website_path website_name host service_ w there no_directory regular
      loaded made =
    sym (
      ap (factory_or w.resource_factory_)
        (rw (there, no_directory, regular, loaded, http_website, create_resource_factory) at made))

-- After a successful `connect` of a library to a host and port, of a server whose websites are in
-- the order of their hosts, where the library loads as the service of messages that is set up: a GET
-- for "/message/" and an identifier without a slash, with that host and port in its Host header, where port 80 may be left out, and the line
-- ends of HTTP, is answered by the printed response "200 OK" with the text "GET message", a line end,
-- "id:" and the identifier. It holds from any coherent cache of handlers, in builds where the entity
-- headers do not stand directly behind the request headers, and where the status member, which the
-- service does not set, happens to hold http_unknown.
pub connect-get_message :
    (b : Build) (memory : Memory) (sys : System) (website_path name website_name id : Text)
    (port : Option ℕ) (ws : List HttpWebsite) (c : HandlerCache)
    → b.entity_follows_request ≡ false
    → memory.status ≡ http_unknown
    → name ≢ []
    → All (λ d. host_byte d ≡ true) name
    → IsPort port
    → Lacks b'\n' (name ++ port_text port)
    → id ≢ []
    → Lacks b'/' id
    → IsWord (codes "message/" ++ id)
    → All (λ d. path_byte d ≡ true) (codes "message/" ++ id)
    → sys.files.exists website_path ≡ true
    → sys.files.is_directory website_path ≡ false
    → sys.files.is_regular_file website_path ≡ true
    → sys.load website_path ≡ ok (create_resource b.ndebug setup.1)
    → IsAscending ws
    → IsCoherent c
    → (connect b.ndebug sys website_path name (port_of port) website_name ws).0 ≡ ok tt
    → (answer b memory
        (connect b.ndebug sys website_path name (port_of port) website_name ws).1
        (get_frame (codes "message/" ++ id) (name ++ port_text port))
        c).0
      ≡ print_response (message_response memory.date id)
connect-get_message b memory sys website_path name website_name id port ws c adjacent unset named
      host small line filled no_slash word bytes there no_directory regular loaded sorted coherent
      done =
    let k =
      connect-IsConnected b.ndebug sys website_path name (port_of port) website_name ws sorted
        done in
    answer-get_message b memory id name port filled no_slash word bytes named host small line
      adjacent unset (connect b.ndebug sys website_path name (port_of port) website_name ws).1
      sys.files c k.website coherent
      (k.finds (record { name = name; port = port_of port })
        ∙ rw (host_eq_refl (record { name = name; port = port_of port })) refl)
      (factory_of_library b.ndebug sys website_path website_name _
        (create_resource b.ndebug setup.1) k.website there no_directory regular loaded k.is_made)
