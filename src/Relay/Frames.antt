-- ===== src/Relay/Frames.antt =====
-- packages/room-relay/src/server.ts: the handler of the `data` event, which splits the stream of a
-- socket into newline-terminated frames. The parser of a frame's JSON is a parameter.
use midnight_private_negotia.Common.{
  ℕ, ◌+◌, ◌≡◌, refl, true, Option, none, some, List, [], ◌∷◌, ◌++◌, ltb, ◌==◌, if◌then◌else◌, Text,
  Bool-cases, inl, inr,
}
use midnight_private_negotia.Agent.Types.{PartyRole}
use midnight_private_negotia.Relay.Server.{
  RelayRegistration, RelayPacket, invalid_frame, Socket, Server, update, reject, destroy, register,
  route_packet,
}

pub data RelayClientMessage : Type 0 where
  registers : RelayRegistration → RelayClientMessage
  packet : RelayPacket → RelayClientMessage

-- `parseRelayClientMessage(JSON.parse(frame))`, `none` where it throws.
abbrev pub FrameParser : Type 0
FrameParser = Text → Option RelayClientMessage

-- `Buffer.byteLength(text, "utf8")`
unfoldable pub byte_length : Text → ℕ
byte_length [] = 0
byte_length (c ∷ s) =
    (if ltb c 0x80 then 1 else if ltb c 0x800 then 2 else if ltb c 0x10000 then 3 else 4)
    + byte_length s

abbrev pub max_frame_bytes : ℕ
max_frame_bytes = 32_768

-- A character in front of a split stream: it ends an empty frame, or belongs to the first one.
abbrev pub push : ℕ → List Text × Text → List Text × Text
push c ([], rest) = if c == 10 then ([] ∷ [], rest) else ([], c ∷ rest)
push c (f ∷ frames, rest) = if c == 10 then ([] ∷ f ∷ frames, rest) else ((c ∷ f) ∷ frames, rest)

-- The frames before each newline and what follows the last newline: the `indexOf` loop.
unfoldable pub split_frames : Text → List Text × Text
split_frames [] = ([], [])
split_frames (c ∷ s) = push c (split_frames s)

abbrev pub handle_message :
    (PartyRole → Text) → Socket → Option RelayClientMessage → Server → Server
handle_message expected_tokens socket none s = reject socket invalid_frame s
handle_message expected_tokens socket (some (registers r)) s = register expected_tokens socket r s
handle_message expected_tokens socket (some (packet p)) s = route_packet socket p s

-- One frame: an empty one is skipped.
abbrev pub handle_frame : (PartyRole → Text) → FrameParser → Socket → Text → Server → Server
handle_frame expected_tokens parse socket [] s = s
handle_frame expected_tokens parse socket (c ∷ f) s =
    handle_message expected_tokens socket (parse (c ∷ f)) s

unfoldable pub handle_frames :
    (PartyRole → Text) → FrameParser → Socket → List Text → Server → Server
handle_frames expected_tokens parse socket [] s = s
handle_frames expected_tokens parse socket (f ∷ frames) s =
    handle_frames expected_tokens parse socket frames
      (handle_frame expected_tokens parse socket f s)

abbrev pub buffered : Option Text → Text
buffered none = []
buffered (some text) = text

-- The handler of the `data` event.
unfoldable pub receive : (PartyRole → Text) → FrameParser → Socket → Text → Server → Server
unfolding handle_frames split_frames byte_length
receive expected_tokens parse socket chunk s =
    let buffer = buffered (s.buffers socket) ++ chunk in
    let (frames, rest) = split_frames buffer in
    let handled = handle_frames expected_tokens parse socket frames s in
    if ltb max_frame_bytes (byte_length buffer)
    then destroy socket (reject socket invalid_frame s)
    else record handled { buffers = update handled.buffers socket (some rest) }

push-newline : (c : ℕ) (w : List Text × Text) → (c == 10) ≡ true → push c w ≡ ([] ∷ w.0, w.1)
push-newline c ([], rest) h = rw h
push-newline c (f ∷ fs, rest) h = rw h

-- Splitting a stream does not depend on how it comes in chunks: the frames of a first chunk, and then
-- those of its unfinished rest with the second chunk, are the frames of the whole, and the rest is too.
pub split_frames-append :
    (a b : Text)
    → split_frames (a ++ b) ≡ (
      (split_frames a).0 ++ (split_frames ((split_frames a).1 ++ b)).0,
      (split_frames ((split_frames a).1 ++ b)).1,
    )
unfolding split_frames
split_frames-append [] b = refl
split_frames-append (c ∷ a) b =
    step c (split_frames a) (split_frames (a ++ b)) (split_frames-append a b)
  where
    step :
        (c : ℕ) (first : List Text × Text) (whole : List Text × Text)
        → whole ≡ (first.0 ++ (split_frames (first.1 ++ b)).0, (split_frames (first.1 ++ b)).1)
        → push c whole ≡ (
          (push c first).0 ++ (split_frames ((push c first).1 ++ b)).0,
          (split_frames ((push c first).1 ++ b)).1,
        )
    step c ([], rest) whole h = elim (Bool-cases (c == 10)) [
      | inl newline ↦ rw (h, newline) (push-newline c (split_frames (rest ++ b)) newline)
      | inr other ↦ rw (h, other)
    ]
    step c (f ∷ fs, rest) whole h = elim (Bool-cases (c == 10)) [
      | inl newline ↦ rw (h, newline)
      | inr other ↦ rw (h, other)
    ]
