-- ===== src/Examples/Workers.antt =====
-- Requests that a worker answers.
use http_cpp.Base.{
  ◌≡◌, refl, codes, Text, [], ◌∷◌, some, none, ok, false, true, text_eq, getline, find_byte,
  pop_back_if,
}
use http_cpp.HttpProtocolHandler.{empty_cache, extract_http_version, one_zero, version_text}
use http_cpp.HttpProtocolHandler.Laws.{version_of, empty_cache-IsCoherent}
use http_cpp.HttpServer.Forward.Laws.{Message, message_frames}
use http_cpp.HttpWorker.{answer}
use http_cpp.HttpWorker.Laws.{bad_request_text, answer-unknown_version}
use http_cpp.HttpWorker.Run.{run, Worker, take_request}
use http_cpp.HttpWorker.RunLaws.{requested, run-quit}
use http_cpp.Examples.Parsing.{plain}
use http_cpp.Examples.Services.{memory}

abbrev pub one_zero_text : Text
one_zero_text = codes "GET / HTTP/1.0\r\n\r\n"

abbrev pub two_zero_text : Text
two_zero_text = codes "GET / HTTP/2.0\r\n\r\n"

abbrev pub old_client : Message
old_client = record {
  id = codes "c1";
  parts = codes "GET / HT" ∷ [];
  last = codes "TP/1.0\r\n\r\n";
}

abbrev pub new_client : Message
new_client = record { id = codes "c2"; parts = []; last = two_zero_text }

pub version_zero : extract_http_version one_zero_text ≡ ok (version_text one_zero)
unfolding extract_http_version getline find_byte pop_back_if
version_zero = refl

pub version_two : extract_http_version two_zero_text ≡ ok (codes "HTTP/2.0")
unfolding extract_http_version getline find_byte pop_back_if
version_two = refl

pub no_two : version_of (codes "HTTP/2.0") ≡ none
unfolding text_eq
no_two = refl

answer-unknown_version_example :
    (answer plain memory [] two_zero_text empty_cache).0 ≡ ok bad_request_text
answer-unknown_version_example =
    answer-unknown_version plain memory [] two_zero_text (codes "HTTP/2.0") empty_cache
      empty_cache-IsCoherent version_two no_two

abbrev idle : Worker
idle = record { running = true; cache = empty_cache; sent = [] }

run-quit_example :
    run plain memory []
      (record { status = some (codes "QUIT"); request = some (message_frames old_client) }
        ∷ requested new_client
        ∷ [])
      idle
    ≡ take_request plain memory []
        (some (message_frames old_client))
        (record idle { running = false })
run-quit_example =
    run-quit plain memory [] (some (message_frames old_client)) (requested new_client ∷ []) idle
      refl
