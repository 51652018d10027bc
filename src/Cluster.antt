-- ===== src/Cluster.antt =====
-- The server with several workers, of src/http_server.cpp and src/http_worker.cpp, as interleaved
-- steps: the polling loop of the server and the loops of the workers, each round of which takes one
-- message. The sockets keep messages whole; which worker gets a request is left open, as is whose
-- turn it is. A worker's call of `handle_request` is one step, so two calls never use the cache of
-- handlers at once.
pub mod Owed
pub mod Weights
pub mod Conserves
pub mod Termination
pub mod Drains
pub mod Clients
use http_cpp.Base.{
  ℕ, zero, suc, ◌≡◌, ◌+◌, ◌*◌, Text, List, [], ◌∷◌, ◌++◌, some, Outcome, ok, length,
}
use http_cpp.Build.{Build}
use http_cpp.HttpProtocolHandler.{HandlerCache, empty_cache}
use http_cpp.HttpService.{Memory}
use http_cpp.HttpServer.HttpWebsite.{HttpWebsite}
use http_cpp.HttpServer.Forward.{Frames, forward_as_req, forward_as_stream}
use http_cpp.HttpServer.Forward.Laws.{Message, message_frames}
use http_cpp.HttpServer.Run.{forwarded}
use http_cpp.HttpWorker.{handle_request}

-- A worker's connection to the server: the messages that wait for it, and its answers that wait for
-- the server.
pub record Node : Type 0 where
  pub inbox : List Frames
  pub outbox : List Frames

pub record Cluster : Type 0 where
  -- Every message that came from a client until now.
  pub arrived : List Message
  -- Those that the server has not taken yet.
  pub waiting : List Message
  pub nodes : List Node
  pub cache : HandlerCache
  -- What was sent to the clients, an answer each.
  pub sent : List Frames

-- The server of `n` workers before its first message.
abbrev idle_nodes : ℕ → List Node
idle_nodes zero = []
idle_nodes (suc n) = record { inbox = []; outbox = [] } ∷ idle_nodes n

abbrev pub ready : ℕ → Cluster
ready n = record {
  arrived = [];
  waiting = [];
  nodes = idle_nodes n;
  cache = empty_cache;
  sent = [];
}

-- Nothing was sent for an empty message.
abbrev pub deliver : Frames → Node → Node
deliver [] node = node
deliver (f ∷ frames) node = record node { inbox = node.inbox ++ ((f ∷ frames) ∷ []) }

module _ (b : Build) (memory : Memory) (websites_ : List HttpWebsite) where
  pub data Step (s t : Cluster) : Type 0 where
    -- A client sends a message.
    arrive :
        (m : Message)
        → t ≡ record s { arrived = s.arrived ++ (m ∷ []); waiting = s.waiting ++ (m ∷ []) }
        → Step s t
    -- The server relays it to a worker.
    relay_request :
        (m : Message) (more : List Message) (before : List Node) (node : Node) (after : List Node)
        → s.waiting ≡ m ∷ more
        → s.nodes ≡ before ++ (node ∷ after)
        → t ≡ record s {
          waiting = more;
          nodes =
              before ++ (deliver (forwarded forward_as_req (some (message_frames m))) node ∷ after);
        }
        → Step s t
    -- A worker answers it.
    answer_request :
        (request : Frames) (more : List Frames) (before : List Node) (node : Node)
        (after : List Node) (answer rest : Frames) (c : HandlerCache)
        → node.inbox ≡ request ∷ more
        → s.nodes ≡ before ++ (node ∷ after)
        → handle_request b memory websites_ request s.cache ≡ some (ok answer, rest, c)
        → t ≡ record s {
          nodes =
              before ++ (record { inbox = more; outbox = node.outbox ++ (answer ∷ []) } ∷ after);
          cache = c;
        }
        → Step s t
    -- The server relays the answer to the client.
    relay_answer :
        (answer : Frames) (more : List Frames) (before : List Node) (node : Node)
        (after : List Node)
        → node.outbox ≡ answer ∷ more
        → s.nodes ≡ before ++ (node ∷ after)
        → t ≡ record s {
          nodes = before ++ (record node { outbox = more } ∷ after);
          sent = s.sent ++ (forwarded forward_as_stream (some answer) ∷ []);
        }
        → Step s t

  pub data Reachable (n : ℕ) : Cluster → Type 0 where
    initial : Reachable n (ready n)
    next : {s t : Cluster} → Reachable n s → Step s t → Reachable n t

-- How many steps are left to be done for the messages that came.
abbrev pub pending_at : Node → ℕ
pending_at node = 2 * length node.inbox + length node.outbox

abbrev pub pending_in : List Node → ℕ
pending_in [] = 0
pending_in (node ∷ nodes) = pending_at node + pending_in nodes

abbrev pub pending : Cluster → ℕ
pending s = 3 * length s.waiting + pending_in s.nodes
