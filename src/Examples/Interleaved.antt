-- ===== src/Examples/Interleaved.antt =====
-- Two clients and two workers.
use http_cpp.Base.{refl, codes, [], ◌∷◌, ◌<◌}
use http_cpp.HttpProtocolHandler.{HandlerCache, empty_cache}
use http_cpp.HttpServer.Forward.{
  as_req, as_stream, receive_parts, forward_as_stream, receive_message,
}
use http_cpp.HttpWorker.{answer}
use http_cpp.HttpWorker.Laws.{bad_request_text, internal_server_error_text}
use http_cpp.Cluster.{Node, Cluster, relay_answer, pending}
use http_cpp.Cluster.Termination.{Step-pending}
use http_cpp.Examples.Parsing.{plain}
use http_cpp.Examples.Services.{memory}
use http_cpp.Examples.Workers.{one_zero_text, two_zero_text, old_client, new_client}

abbrev idle_node : Node
idle_node = record { inbox = []; outbox = [] }

-- The cache after a request of the new client, and after one of the old client behind it.
abbrev after_new : HandlerCache
after_new = (answer plain memory [] two_zero_text empty_cache).1

abbrev after_both : HandlerCache
after_both = (answer plain memory [] one_zero_text after_new).1

-- Both requests wait for a worker, that of the new client for the second one.
abbrev both_wait : Cluster
both_wait = record {
  arrived = old_client ∷ new_client ∷ [];
  waiting = [];
  nodes =
      record { inbox = as_req (codes "c1") one_zero_text ∷ []; outbox = [] }
      ∷ record { inbox = as_req (codes "c2") two_zero_text ∷ []; outbox = [] }
      ∷ [];
  cache = empty_cache;
  sent = [];
}

-- The second worker was faster.
abbrev all_done : Cluster
all_done = record {
  arrived = old_client ∷ new_client ∷ [];
  waiting = [];
  nodes = idle_node ∷ idle_node ∷ [];
  cache = after_both;
  sent =
      as_stream (codes "c2") bad_request_text
      ∷ as_stream (codes "c1") internal_server_error_text
      ∷ [];
}

-- The answer to the old client waits for the server.
abbrev one_left : Cluster
one_left = record all_done {
  nodes =
      record { inbox = []; outbox = as_req (codes "c1") internal_server_error_text ∷ [] }
      ∷ idle_node
      ∷ [];
  sent = as_stream (codes "c2") bad_request_text ∷ [];
}

Step-pending_example : pending all_done < pending one_left
unfolding forward_as_stream receive_message receive_parts
Step-pending_example =
    Step-pending plain memory [] {s = one_left} {t = all_done}
      (relay_answer (as_req (codes "c1") internal_server_error_text) [] []
        (record { inbox = []; outbox = as_req (codes "c1") internal_server_error_text ∷ [] })
        (idle_node ∷ []) refl refl refl)
      refl
