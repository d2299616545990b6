-- ===== src/Relay/Chunks.antt =====
-- packages/room-relay/src/server.ts: how the handler of the `data` event treats a stream that comes
-- in chunks.
use midnight_private_negotia.Common.{◌+◌, ◌≡◌, Option, some, List, [], ◌∷◌, ◌++◌, Text, arith}
use midnight_private_negotia.Agent.Types.{PartyRole}
use midnight_private_negotia.Relay.Server.{Socket, Server, update}
use midnight_private_negotia.Relay.Frames.{FrameParser, byte_length, split_frames, handle_frames}

pub byte_length-append : (s t : Text) → byte_length (s ++ t) ≡ byte_length s + byte_length t
unfolding byte_length
byte_length-append [] t = omega arith
byte_length-append (c ∷ s) t = omega (arith, byte_length-append s t)

-- The frames' handlers neither read nor write the buffers.
abbrev Buffers : Type 0
Buffers = Socket → Option Text

abbrev with_buffers : Buffers → Server → Server
with_buffers b s = record s { buffers = b }

module _ (tokens : PartyRole → Text) (parse : FrameParser) (socket : Socket) where
  -- The handler on a buffer that is not too long
  abbrev taken : Text → Server → Server
  taken buffer s =
      with_buffers (update s.buffers socket (some (split_frames buffer).1))
        (handle_frames tokens parse socket (split_frames buffer).0 s)
