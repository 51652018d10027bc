-- ===== src/HttpServer/Forward/Laws.antt =====
-- What is forwarded of a message that is there as a whole.
use http_cpp.Base.{
  ◌≡◌, refl, Text, List, [], ◌∷◌, ◌++◌, some, true, false, is_empty, append_assoc, if◌then◌else◌,
}
use http_cpp.HttpServer.Forward.{
  Frames, receive_parts, receive_message, as_req, as_stream, forward_as_req, forward_as_stream,
}

-- The frames of a message: all but the last are marked.
abbrev pub frames_of : List Text → Text → Frames
frames_of [] last = record { body = last; more = false } ∷ []
frames_of (part ∷ parts) last = record { body = part; more = true } ∷ frames_of parts last

-- The text of all of them.
abbrev pub joined : List Text → Text → Text
joined [] last = last
joined (part ∷ parts) last = part ++ joined parts last

-- A message: an identity, and the parts of a text.
pub record Message : Type 0 where
  pub id : Text
  pub parts : List Text
  pub last : Text

abbrev pub message_frames : Message → Frames
message_frames m = record { body = m.id; more = true } ∷ frames_of m.parts m.last

pub receive_parts-frames_of :
    (acc : Text) (parts : List Text) (last : Text) (rest : Frames)
    → receive_parts acc (frames_of parts last ++ rest) ≡ some (acc ++ joined parts last, rest)
unfolding receive_parts
receive_parts-frames_of acc [] last rest = refl
receive_parts-frames_of acc (part ∷ parts) last rest =
    rw (receive_parts-frames_of (acc ++ part) parts last rest, append_assoc)

-- A request of a client reaches the workers as its identity and one frame with all of its bytes;
-- exactly its frames are taken, and nothing is sent for an empty one, as on a new connection.
pub forward_as_req-frames_of :
    (id : Text) (parts : List Text) (last : Text) (rest : Frames)
    → forward_as_req (record { body = id; more = true } ∷ frames_of parts last ++ rest)
      ≡ some (rest, (if is_empty (joined parts last) then [] else as_req id (joined parts last)))
unfolding forward_as_req receive_message
forward_as_req-frames_of id parts last rest =
    rw (receive_parts-frames_of [] parts last rest, receive_message)

-- An answer of a worker reaches the client's connection, followed by the empty message that closes
-- it; nothing is sent for an empty answer.
pub forward_as_stream-frames_of :
    (id : Text) (parts : List Text) (last : Text) (rest : Frames)
    → forward_as_stream (record { body = id; more = true } ∷ frames_of parts last ++ rest)
      ≡ some (rest, (if is_empty (joined parts last) then [] else as_stream id (joined parts last)))
unfolding forward_as_stream receive_message
forward_as_stream-frames_of id parts last rest =
    rw (receive_parts-frames_of [] parts last rest, receive_message)
