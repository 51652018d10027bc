-- ===== src/Examples/Proxy.antt =====
-- Messages that the proxy relays, and a thread that is started and stopped.
use http_cpp.Base.{
  ◌≡◌, refl, codes, List, [], ◌∷◌, ◌++◌, map, some, none, ok, text_eq, getline, find_byte,
  pop_back_if, to_string,
}
use http_cpp.HttpConstants.{reason_phrase, status_code}
use http_cpp.HttpStructure.{print_response, print_headers}
use http_cpp.HttpProtocolHandler.{empty_cache, extract_http_version, get_handler}
use http_cpp.HttpServer.Forward.Laws.{Message, joined}
use http_cpp.HttpServer.Run.{run, Sent}
use http_cpp.HttpServer.RunLaws.{Round, polled, all_requests, all_answers, run-relays}
use http_cpp.HttpService.{parse_request}
use http_cpp.HttpWorker.{answer}
use http_cpp.HttpWorker.Laws.{bad_request_text}
use http_cpp.Examples.Parsing.{plain}
use http_cpp.Examples.Services.{memory}
use http_cpp.Examples.Workers.{old_client, new_client, two_zero_text}

-- A connection, which sends an empty message first; then a request; then its answer.
abbrev connected : Message
connected = record { id = codes "c2"; parts = []; last = [] }

abbrev answered : Message
answered = record { id = codes "c2"; parts = []; last = bad_request_text }

abbrev rounds : List Round
rounds = (some connected, none) ∷ (some new_client, none) ∷ (some old_client, some answered) ∷ []

abbrev none_sent : Sent
none_sent = record { to_workers = []; to_http = [] }

run-relays_example :
    run (map polled rounds) none_sent
    ≡ record { to_workers = [] ++ all_requests rounds; to_http = [] ++ all_answers rounds }
run-relays_example = run-relays rounds none_sent

two_zero-answer :
    answer plain memory [] (joined [] two_zero_text) empty_cache
    ≡ (ok bad_request_text, empty_cache)
unfolding answer parse_request print_response reason_phrase status_code print_headers to_string
    get_handler extract_http_version getline find_byte pop_back_if text_eq
two_zero-answer = refl
