-- ===== src/HttpServer/Forward.antt =====
-- `forward_as_req` and `forward_as_stream` of src/http_server.cpp, over messages of ZeroMQ: a
-- message is a row of frames, each marked if more follow.
pub mod Laws
use http_cpp.Base.{
  ℕ, Text, List, [], ◌∷◌, ◌++◌, Option, none, some, Bool, true, false, is_empty, if◌then◌else◌,
}

pub record Frame : Type 0 where
  pub body : Text
  pub more : Bool

-- The frames that wait at a socket, and those that were sent to one.
abbrev pub Frames : Type 0
Frames = List Frame

-- The loop that receives every part of a message, after what was received before; `none` where it
-- waits for frames that have not come.
unfoldable pub receive_parts : Text → Frames → Option (Text × Frames)
receive_parts frame [] = none
receive_parts frame (part ∷ waiting) = elim part.more [
  | true ↦ receive_parts (frame ++ part.body) waiting
  | false ↦ some (frame ++ part.body, waiting)
]

-- The identity frame, then the full message.
unfoldable pub receive_message : Frames → Option (Text × Text × Frames)
receive_message [] = none
receive_message (id ∷ waiting) = elim (receive_parts [] waiting) [
  | none ↦ none
  | some (frame, rest) ↦ some (id.body, frame, rest)
]

abbrev pub as_req : Text → Text → Frames
as_req id frame = record { body = id; more = true } ∷ record { body = frame; more = false } ∷ []

-- The message, and an empty one that closes the connection, each behind the identity.
abbrev pub as_stream : Text → Text → Frames
as_stream id frame =
    record { body = id; more = true }
    ∷ record { body = frame; more = true }
    ∷ record { body = id; more = true }
    ∷ record { body = []; more = true }
    ∷ []

-- What is left to receive at `from`, and what is sent to `to`; nothing for an empty message.
abbrev pub send_unless_empty :
    (Text → Text → Frames) → Option (Text × Text × Frames) → Option (Frames × Frames)
send_unless_empty as_message none = none
send_unless_empty as_message (some (id, frame, rest)) =
    some (rest, (if is_empty frame then [] else as_message id frame))

unfoldable pub forward_as_req : Frames → Option (Frames × Frames)
forward_as_req from = send_unless_empty as_req (receive_message from)

unfoldable pub forward_as_stream : Frames → Option (Frames × Frames)
forward_as_stream from = send_unless_empty as_stream (receive_message from)
