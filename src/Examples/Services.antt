-- ===== src/Examples/Services.antt =====
-- Requests that a service executes.
use http_cpp.Base.{◌≡◌, refl, codes, [], ◌∷◌, some, ok, throw, http_invalid_request, text_eq}
use mathlib.Core.Option
use http_cpp.Base.Order.{text_order, text_cmp}
use http_cpp.Base.StdMap.{find, assign}
use http_cpp.CustomResource
use http_cpp.Base.Regex.{regex_match, match_from, match_many}
use http_cpp.HttpConstants.{m_options, http_ok, http_unknown, http_continue}
use http_cpp.GenericStructure.{generic_response, GenericResponse}
use http_cpp.HttpStructure.{HttpRequest, to_generic}
use http_cpp.HttpResource.{Resource}
use http_cpp.HttpProtocolHandler.{empty_cache, one_one, one_zero, version_text, get_handler}
use http_cpp.HttpProtocolHandler.Laws.{
  IsCoherent, HasVersion, version_of, empty_cache-IsCoherent, get_handler-refines,
}
use http_cpp.HttpService.{Memory, execute}
use http_cpp.HttpService.ExtractHost.{extract_host, read_port}
use http_cpp.HttpService.Laws.{IsAddressed, status_of, body_of, execute-served}
use http_cpp.Examples.Parsing.{plain}
use http_cpp.Examples.Hosts.{with_host}

abbrev pub get_x : HttpRequest
get_x = record with_host { http_version = codes "HTTP/1.1" }

abbrev pub memory : Memory
memory = record { method = m_options; status = http_continue; date = codes "today" }

get_x-IsAddressed : IsAddressed get_x empty_cache
unfolding extract_host find text_cmp text_eq regex_match match_from match_many read_port
get_x-IsAddressed = record {
  host = record { name = codes "localhost"; port = 80 };
  extracted = refl;
  version = one_one;
  versioned = refl;
  coherent = empty_cache-IsCoherent;
}

abbrev hello : Resource
hello request g = (ok tt, record g { status_code = http_unknown; message_body = codes "hello" })

execute-served_example :
    (status_of (execute plain memory (λ request. ok (some hello)) get_x empty_cache).0
      ≡ some http_ok)
    × (body_of (execute plain memory (λ request. ok (some hello)) get_x empty_cache).0
        ≡ some (codes "hello"))
execute-served_example =
    execute-served plain memory (λ request. ok (some hello)) get_x empty_cache get_x-IsAddressed
      hello
      (record (generic_response http_continue) {
        status_code = http_unknown;
        message_body = codes "hello";
      })
      refl refl

-- The example of a resource that sets no status.
abbrev silent : GenericResponse
silent = record (generic_response http_continue) {
  header =
      (codes "Content-Length", []) ∷ (codes "Content-Type", []) ∷ (codes "Last-Modified", []) ∷ [];
  message_body = codes "Content\r\n";
}

silent-eq :
    CustomResource.execute (to_generic get_x) (generic_response memory.status) ≡ (ok tt, silent)
unfolding CustomResource.execute assign text_cmp
silent-eq = refl

abbrev refusing : Resource
refusing request g = (throw http_invalid_request, record g { message_body = codes "no" })

get_handler-refines_example :
    HasVersion
      (get_handler plain (version_text one_zero) empty_cache).0
      (version_of (version_text one_zero))
    × IsCoherent (get_handler plain (version_text one_zero) empty_cache).1
    × (get_handler plain
          (version_text one_zero)
          (get_handler plain (version_text one_zero) empty_cache).1
        ≡ get_handler plain (version_text one_zero) empty_cache)
get_handler-refines_example =
    get_handler-refines plain (version_text one_zero) empty_cache empty_cache-IsCoherent
