-- ===== src/Noise/Handshake.antt =====
-- The handshake of src/noise_transport.rs, with its keys. `snow::HandshakeState` is a parameter: what a
-- state writes, and what it makes of a message; `none` is an error. A stream is the bytes that are still
-- to come and the bytes that were written.
pub mod Agreed
use shardscape.Base.{
  ℕ, ◌^◌, ltb, List, [], ◌∷◌, ◌++◌, Bytes, Option, none, some, and_then, length, take, drop,
  if◌then◌else◌, nat_beq,
}
use shardscape.Noise.{u16_be, from_be}

pub record Handshake (H T : Type 0) : Type 0 where
  pub write_message : H → Bytes → Option (Bytes × H)
  pub read_message : H → Bytes → Option (Bytes × H)
  pub into_transport_mode : H → Option T

pub record Pipe : Type 0 where
  pub incoming : Bytes
  pub outgoing : Bytes

-- A key in base64 has 32 bytes.
unfoldable pub decode_private_key : (Bytes → Option Bytes) → Bytes → Option Bytes
decode_private_key decode b64 = elim (decode b64) [
  | none ↦ none
  | some bytes ↦ if nat_beq (length bytes) 32 then some bytes else none
]

-- The digest of blake3 has 32 bytes.
unfoldable pub derive_psk : (Bytes → Bytes) → Bytes → Bytes
derive_psk blake3 cluster_secret = blake3 cluster_secret

-- A message and what comes after it; the end of the stream inside a frame is an error.
unfoldable pub recv_frame : Pipe → Option (Bytes × Pipe)
recv_frame pipe = elim (pipe.incoming) [
  | [] ↦ none
  | hi ∷ more ↦ elim more [
    | [] ↦ none
    | lo ∷ body ↦
        if ltb (length body) (from_be hi lo)
        then none
        else some (take (from_be hi lo) body, record pipe { incoming = drop (from_be hi lo) body })
  ]
]

unfoldable pub send_frame : Pipe → Bytes → Option Pipe
send_frame pipe bytes =
    if ltb (length bytes) (2 ^ 16)
    then some (record pipe { outgoing = pipe.outgoing ++ (u16_be (length bytes) ++ bytes) })
    else none

module _ {H T : Type 0} (noise : Handshake H T) where
  -- One message to the other side, with no payload.
  unfoldable pub writes : H × Pipe → Option (H × Pipe)
  writes (h, pipe) =
      and_then (noise.write_message h [])
        (λ (w : Bytes × H). and_then (send_frame pipe w.0) (λ (sent : Pipe). some (w.1, sent)))

  unfoldable pub reads : H × Pipe → Option (H × Pipe)
  reads (h, pipe) = and_then (recv_frame pipe) (λ (got : Bytes × Pipe).
      and_then (noise.read_message h got.0) (λ (r : Bytes × H). some (r.1, got.1)))

  unfoldable pub finish : H × Pipe → Option (T × Pipe)
  finish (h, pipe) = and_then (noise.into_transport_mode h) (λ (t : T). some (t, pipe))

  -- The responder.
  unfoldable pub accept : H → Pipe → Option (T × Pipe)
  accept h pipe = and_then (and_then (and_then (reads (h, pipe)) writes) reads) finish

  -- The initiator.
  unfoldable pub connect : H → Pipe → Option (T × Pipe)
  connect h pipe = and_then (and_then (and_then (writes (h, pipe)) reads) writes) finish
