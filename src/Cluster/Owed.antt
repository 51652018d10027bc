-- ===== src/Cluster/Owed.antt =====
-- The answers that are owed to the clients, and those that were sent.
use http_cpp.Base.{
  Text, List, [], ◌∷◌, ◌++◌, map, Option, none, some, Outcome, ok, undefined, ◌>>=◌, is_empty,
  if◌then◌else◌,
}
use http_cpp.Build.{Build}
use http_cpp.HttpService.{Memory}
use http_cpp.HttpServer.HttpWebsite.{HttpWebsite}
use http_cpp.HttpServer.Forward.{Frames, receive_message, forward_as_stream, as_req}
use http_cpp.HttpServer.Forward.Laws.{Message, joined}
use http_cpp.HttpServer.Run.{forwarded}
use http_cpp.HttpWorker.Uncached.{plain_answer}
use http_cpp.Cluster.{Node, Cluster}

-- What the server sends a client for an answer.
abbrev pub relayed_answer : Frames → Frames
relayed_answer answer = forwarded forward_as_stream (some answer)

module _ (b : Build) (memory : Memory) (websites_ : List HttpWebsite) where
  -- What is sent to the client of this identity for this request, if the process does not end.
  unfoldable pub reply_to : Text → Text → Outcome Frames
  reply_to id frame =
      plain_answer b memory websites_ frame >>= λ text. ok (relayed_answer (as_req id text))

  -- No answer is owed to an empty message.
  abbrev pub owed_to : List Message → List (Outcome Frames)
  owed_to [] = []
  owed_to (m ∷ ms) =
      (if is_empty (joined m.parts m.last) then [] else reply_to m.id (joined m.parts m.last) ∷ [])
      ++ owed_to ms

  abbrev pub owed_for : Option (Text × Text × Frames) → Outcome Frames
  owed_for none = undefined
  owed_for (some (id, frame, rest)) = reply_to id frame

  -- For a request that waits for a worker.
  unfoldable pub owed_request : Frames → Outcome Frames
  owed_request frames = owed_for (receive_message frames)

  abbrev pub owed_at : Node → List (Outcome Frames)
  owed_at node =
      map owed_request node.inbox ++ map (λ answer. ok (relayed_answer answer)) node.outbox

  abbrev pub owed_in : List Node → List (Outcome Frames)
  owed_in [] = []
  owed_in (node ∷ nodes) = owed_at node ++ owed_in nodes

  -- What was sent and is still to be sent.
  abbrev pub accounted : Cluster → List (Outcome Frames)
  accounted s = owed_to s.waiting ++ (owed_in s.nodes ++ map ok s.sent)
