-- ===== src/Noise.antt =====
-- src/noise_transport.rs: a stream of encrypted frames over a stream of bytes. Noise itself is a
-- parameter; the stream below is a script of what its next polls give, and the bytes written to it.
pub mod Reader
pub mod Writer
pub mod Frames
pub mod Sent
pub mod Received
pub mod Halves
pub mod Progress
pub mod Polls
pub mod Session
pub mod Handshake
mod Examples
use shardscape.Base.{
  ℕ, zero, suc, ◌+◌, ◌-◌, ◌*◌, ◌/◌, ◌%◌, ◌^◌, ◌<◌, min, ltb, List, [], ◌∷◌, ◌++◌, Bytes, Option,
  none, some, Bool, true, false, length, take, drop, if◌then◌else◌,
}

abbrev pub frame_len_size : ℕ
frame_len_size = 2

abbrev pub max_noise_msg : ℕ
max_noise_msg = 65535

abbrev pub tag_len : ℕ
tag_len = 16

-- `snow::TransportState` after the handshake: what the sender makes of a message under a nonce, and what
-- the receiver makes of a ciphertext; `none` is an error. The nonces are fields of the stream.
pub record Cipher : Type 0 where
  pub write_message : ℕ → Bytes → Option Bytes
  pub read_message : ℕ → Bytes → Option Bytes

pub data IoError : Type 0 where
  unexpected_eof invalid_data other write_zero inner_failed : IoError

pub data Poll (A : Type 0) : Type 0 where
  pending : Poll A
  failed : IoError → Poll A
  ready : A → Poll A

-- What a poll of the stream below gives to a reader. No bytes are its end.
pub data Arrival : Type 0 where
  stalls : Arrival
  breaks : Arrival
  brings : Bytes → Arrival

-- What it does for a writer: it takes at most so many bytes.
pub data Room : Type 0 where
  stalls : Room
  breaks : Room
  takes : ℕ → Room

-- The stream below; with nothing left in a script it stalls.
pub record Inner : Type 0 where
  pub arrivals : List Arrival
  pub rooms : List Room
  pub wire : Bytes

-- `NoiseStream`, with the nonces of its transport.
pub record NoiseStream : Type 0 where
  pub inner : Inner
  pub sent : ℕ
  pub received : ℕ
  pub read_plain : Bytes
  pub read_cipher : Bytes
  pub write_cipher : Bytes

abbrev pub from_transport : Inner → NoiseStream
from_transport inner = record {
  inner = inner;
  sent = 0;
  received = 0;
  read_plain = [];
  read_cipher = [];
  write_cipher = [];
}

-- A number as two bytes, the high one first.
abbrev pub u16_be : ℕ → Bytes
u16_be n = n % 2 ^ 16 / 256 ∷ n % 256 ∷ []

abbrev pub from_be : ℕ → ℕ → ℕ
from_be hi lo = hi * 256 + lo

-- A frame taken from the front of the inbound bytes: its ciphertext and what follows.
unfoldable pub split_frame : Bytes → Option (Bytes × Bytes)
split_frame [] = none
split_frame (hi ∷ []) = none
split_frame (hi ∷ lo ∷ rest) =
    if ltb (length rest) (from_be hi lo)
    then none
    else some (take (from_be hi lo) rest, drop (from_be hi lo) rest)

module _ (cipher : Cipher) where
  -- `Ok(None)` is `ready none`. The frame is consumed before it is decrypted.
  unfoldable pub try_decrypt_one_frame : NoiseStream → Poll (Option Bytes) × NoiseStream
  try_decrypt_one_frame s = elim (split_frame s.read_cipher) [
    | none ↦ (ready none, s)
    | some (frame, rest) ↦ elim (cipher.read_message s.received frame) [
      | none ↦ (failed invalid_data, record s { read_cipher = rest })
      | some plaintext ↦
          (ready (some plaintext), record s { read_cipher = rest; received = suc s.received })
    ]
  ]
