-- ===== src/Examples/Routes.antt =====
-- Routes that are registered and dispatched.
use http_cpp.Base.{
  ◌≡◌, refl, codes, Text, List, [], ◌∷◌, some, none, ok, throw, terminate, invalid_argument,
  decimal_value, false, split, text_eq,
}
use http_cpp.Base.Order.{text_order}
use http_cpp.Base.StdMap.{find}
use http_cpp.Base.Regex.{regex_match, match_from, match_many}
use http_cpp.HttpConstants.{m_get}
use http_cpp.HttpConstants.MethodOrder.{method_order}
use http_cpp.GenericStructure.{GenericRequest}
use http_cpp.HttpStructure.{HttpRequest}
use http_cpp.HttpProtocolHandler.{empty_cache, one_one}
use http_cpp.HttpProtocolHandler.Laws.{empty_cache-IsCoherent}
use http_cpp.HttpFilesystemResource.{FileSystem}
use http_cpp.HttpResourceFactory.{create_external_handle}
use http_cpp.HttpService
use http_cpp.HttpService.ExtractHost.{extract_host, read_port}
use http_cpp.HttpService.Laws.{IsAddressed}
use http_cpp.Router.{
  DispatchNode, new_node, add_route, add_at, get_dispatch, get_at, dispatch_split, find_route,
  dynamic_name, add_function,
}
use http_cpp.Router.Dispatch.{Fits, bound, get_dispatch-add_route, add_route-again}
use http_cpp.LibRest.{RestFunction, create_resource}
use http_cpp.LibRest.Laws.{execute-absolute_uri}
use http_cpp.LibRest.MyService.{setup, get_message_author, delete_message}
use http_cpp.Examples.Parsing.{plain}
use http_cpp.Examples.Hosts.{absolute}
use http_cpp.Examples.Services.{memory}

abbrev one_route : DispatchNode RestFunction
one_route = new_node

abbrev the_route : Text
the_route = codes "/message/:id/author"

abbrev route_parts : List Text
route_parts = codes "message" ∷ codes ":id" ∷ codes "author" ∷ []

abbrev the_path : Text
the_path = codes "/message/7/author"

abbrev path_parts : List Text
path_parts = codes "message" ∷ codes "7" ∷ codes "author" ∷ []

split_route : dispatch_split the_route ≡ ok route_parts
unfolding dispatch_split split
split_route = refl

split_path : dispatch_split the_path ≡ ok path_parts
unfolding dispatch_split split
split_path = refl

added : (add_route m_get the_route get_message_author one_route).0 ≡ ok tt
unfolding add_route add_at dispatch_split split add_function find regex_match match_from match_many
    dynamic_name find_route
added = refl

fits : Fits route_parts path_parts one_route []
unfolding regex_match match_from match_many dynamic_name find_route find
fits = (refl, (refl, (refl, (refl, refl, (refl, (refl, tt))))))

get_dispatch-add_route_example :
    get_dispatch false m_get the_path (add_route m_get the_route get_message_author one_route).1 []
    ≡ (ok (some get_message_author), bound route_parts path_parts [])
get_dispatch-add_route_example =
    get_dispatch-add_route false m_get get_message_author one_route [] the_route the_path
      route_parts path_parts split_route split_path added fits

add_route-again_example :
    add_route m_get the_route delete_message
      (add_route m_get the_route get_message_author one_route).1
    ≡ (throw invalid_argument, (add_route m_get the_route get_message_author one_route).1)
add_route-again_example =
    add_route-again m_get get_message_author delete_message the_route one_route added

abbrev get_author : GenericRequest
get_author = record { method = m_get; request_uri = the_path; header = []; message_body = [] }

nothing : get_dispatch false m_get the_path one_route [] ≡ (ok none, [])
unfolding get_dispatch get_at dispatch_split split find_route
nothing = refl

abbrev pub no_files : FileSystem
no_files = record {
  exists = λ p. false;
  is_directory = λ p. false;
  is_regular_file = λ p. false;
  entries = λ p. [];
  contents = λ p. [];
  last_write_date = λ p. [];
  magic_file = λ p. none;
  has_magic = false;
}

abbrev get_absolute : HttpRequest
get_absolute = record absolute { http_version = codes "HTTP/1.1" }

get_absolute-IsAddressed : IsAddressed get_absolute empty_cache
unfolding extract_host text_eq regex_match match_from match_many read_port decimal_value
get_absolute-IsAddressed = record {
  host = record { name = codes "www.a.org"; port = 8080 };
  extracted = refl;
  version = one_one;
  versioned = refl;
  coherent = empty_cache-IsCoherent;
}

execute-absolute_uri_example :
    (HttpService.execute plain memory
      (create_external_handle no_files (create_resource false setup.1))
      get_absolute
      empty_cache).0
    ≡ terminate
execute-absolute_uri_example =
    execute-absolute_uri plain memory no_files setup.1 get_absolute empty_cache b'h'
      (codes "ttp://www.a.org:8080/x") get_absolute-IsAddressed refl (λ e. cc)
