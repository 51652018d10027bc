-- ===== src/HttpServer/RunLaws.antt =====
-- The polling loop relays every message as it came, in its order.
use http_cpp.Base.{
  ◌≡◌, refl, sym, ap, ◌∙◌, Text, List, [], ◌∷◌, ◌++◌, map, append_assoc, append-nil, Option, none,
  some, true, is_empty, if◌then◌else◌,
}
use http_cpp.HttpServer.Forward.{Frame, Frames, forward_as_req, forward_as_stream}
use http_cpp.HttpServer.Forward.Laws.{
  Message, message_frames, joined, forward_as_req-frames_of, forward_as_stream-frames_of,
}
use http_cpp.HttpServer.Run.{Polled, Sent, forwarded, sent_of, poll_once, run}

abbrev pub framed : Option Message → Option Frames
framed none = none
framed (some m) = some (message_frames m)

-- The messages of one poll: a client's and a worker's.
abbrev pub Round : Type 0
Round = Option Message × Option Message

abbrev pub polled : Round → Polled
polled (client, worker) = record { from_http = framed client; from_worker = framed worker }

-- A request for a worker: one message of the identity and all bytes.
abbrev pub request_frames : Text → Text → Frames
request_frames id text = message_frames (record { id = id; parts = []; last = text })

-- An answer for a client: two messages to its connection, each the identity and a text, that of the
-- answer and the empty one by which ZeroMQ closes the connection. The code marks every frame as
-- followed by more.
abbrev pub marked : Text → Frame
marked text = record { body = text; more = true }

abbrev pub client_frames : Text → Text → Frames
client_frames id text = map marked (id ∷ text ∷ id ∷ [] ∷ [])

-- What is relayed of a message, in the frames of the other side.
abbrev pub relayed : (Text → Text → Frames) → Option Message → Frames
relayed as_message none = []
relayed as_message (some m) =
    if is_empty (joined m.parts m.last) then [] else as_message m.id (joined m.parts m.last)

abbrev pub all_requests : List Round → Frames
all_requests [] = []
all_requests ((client, worker) ∷ rounds) = relayed request_frames client ++ all_requests rounds

abbrev pub all_answers : List Round → Frames
all_answers [] = []
all_answers ((client, worker) ∷ rounds) = relayed client_frames worker ++ all_answers rounds

pub forwarded-req : (m : Option Message) → forwarded forward_as_req (framed m) ≡ relayed request_frames m
forwarded-req none = refl
forwarded-req (some m) = ap sent_of (
    ap forward_as_req (sym (append-nil (message_frames m)))
    ∙ forward_as_req-frames_of m.id m.parts m.last [])

forwarded-stream :
    (m : Option Message) → forwarded forward_as_stream (framed m) ≡ relayed client_frames m
forwarded-stream none = refl
forwarded-stream (some m) = ap sent_of (
    ap forward_as_stream (sym (append-nil (message_frames m)))
    ∙ forward_as_stream-frames_of m.id m.parts m.last [])

after :
    (before later : Frames) {f g : Frames} → f ≡ g → (before ++ f) ++ later ≡ before ++ (g ++ later)
after before later {f} {g} e = ap (λ x. (before ++ x) ++ later) e ∙ append_assoc before g later

-- After any polls, the workers were sent every request of a client that is not empty, as its
-- identity and one frame with all its bytes; and the clients every answer that is not empty, as its
-- identity and all its bytes, and then the identity and an empty frame, which closes the connection:
-- each in its order, and nothing else.
pub run-relays :
    (rounds : List Round) (s : Sent)
    → run (map polled rounds) s ≡ record {
      to_workers = s.to_workers ++ all_requests rounds;
      to_http = s.to_http ++ all_answers rounds;
    }
unfolding run poll_once
run-relays [] s = rw (append-nil s.to_workers, append-nil s.to_http) refl
run-relays ((client, worker) ∷ rounds) s =
    run-relays rounds (poll_once (polled (client, worker)) s) ∙ λ i. record {
      to_workers = after s.to_workers (all_requests rounds) (forwarded-req client) i;
      to_http = after s.to_http (all_answers rounds) (forwarded-stream worker) i;
    }
