-- ===== src/Noise/Writer.antt =====
-- `poll_write`, `poll_flush` and `flush_write_cipher` of src/noise_transport.rs.
use shardscape.Base.{
  Bool, true, false, ℕ, zero, suc, ◌-◌, List, [], ◌∷◌, ◌++◌, Bytes, none, some, length, take, drop,
}
use shardscape.Noise.{
  Cipher, Poll, pending, failed, ready, Room, stalls, breaks, takes, Inner, NoiseStream, other,
  write_zero, inner_failed, max_noise_msg, tag_len, u16_be,
}

-- What is left of a flush: the bytes on the wire, those still buffered, and the script.
pub record Flushing : Type 0 where
  pub result : Poll (Unit {0})
  pub rooms : List Room
  pub wire : Bytes
  pub write_cipher : Bytes

-- The loop of `flush_write_cipher`: the buffered bytes go to the stream below as far as it takes them.
unfoldable pub flush : List Room → Bytes → Bytes → Flushing
flush rooms wire [] = record { result = ready tt; rooms = rooms; wire = wire; write_cipher = [] }
flush [] wire (b ∷ cipher) = record {
  result = pending;
  rooms = [];
  wire = wire;
  write_cipher = b ∷ cipher;
}
flush (stalls ∷ rooms) wire (b ∷ cipher) = record {
  result = pending;
  rooms = rooms;
  wire = wire;
  write_cipher = b ∷ cipher;
}
flush (breaks ∷ rooms) wire (b ∷ cipher) = record {
  result = failed inner_failed;
  rooms = rooms;
  wire = wire;
  write_cipher = b ∷ cipher;
}
flush (takes zero ∷ rooms) wire (b ∷ cipher) = record {
  result = failed write_zero;
  rooms = rooms;
  wire = wire;
  write_cipher = b ∷ cipher;
}
flush (takes (suc n) ∷ rooms) wire (b ∷ cipher) =
    flush rooms (wire ++ take (suc n) (b ∷ cipher)) (drop (suc n) (b ∷ cipher))

unfoldable pub flush_write_cipher : NoiseStream → Poll (Unit {0}) × NoiseStream
flush_write_cipher s =
    let f = flush s.inner.rooms s.inner.wire s.write_cipher in
    (
      f.result,
      record s {
        inner = record (s.inner) { rooms = f.rooms; wire = f.wire };
        write_cipher = f.write_cipher;
      },
    )

-- `slice::chunks`, on fuel: the length of the buffer is enough.
unfoldable pub chunks : ℕ → ℕ → Bytes → List Bytes
chunks zero n buf = []
chunks (suc fuel) n [] = []
chunks (suc fuel) n (b ∷ buf) = take n (b ∷ buf) ∷ chunks fuel n (drop n (b ∷ buf))

abbrev pub max_payload : ℕ
max_payload = max_noise_msg - tag_len

module _ (cipher : Cipher) where
  -- The loop that encrypts; a message that cannot be encrypted ends it, with the frames before it buffered.
  unfoldable pub encrypt : List Bytes → NoiseStream → Bool × NoiseStream
  encrypt [] s = (true, s)
  encrypt (chunk ∷ chunks) s = elim (cipher.write_message s.sent chunk) [
    | none ↦ (false, s)
    | some sealed ↦ encrypt chunks (record s {
      sent = suc s.sent;
      write_cipher = s.write_cipher ++ (u16_be (length sealed) ++ sealed);
    })
  ]

  -- A flush that stalls is not the caller's concern: its bytes are in the buffer.
  abbrev pub accepted : ℕ → Poll (Unit {0}) × NoiseStream → Poll ℕ × NoiseStream
  accepted n (failed e, s) = (failed e, s)
  accepted n (ready _, s) = (ready n, s)
  accepted n (pending, s) = (ready n, s)

  unfoldable pub encrypt_all : Bytes → NoiseStream → Poll ℕ × NoiseStream
  encrypt_all buf s =
      let sealed = encrypt (chunks (length buf) max_payload buf) s in
      elim (sealed.0) [
        | false ↦ (failed other, sealed.1)
        | true ↦ accepted (length buf) (flush_write_cipher sealed.1)
      ]

  -- The pending ciphertext of an earlier call goes first; with an empty buffer there is none.
  unfoldable pub poll_write : Bytes → NoiseStream → Poll ℕ × NoiseStream
  poll_write buf s =
      let drained = flush_write_cipher s in
      elim (drained.0) [
        | pending ↦ (pending, drained.1)
        | failed e ↦ (failed e, drained.1)
        | ready _ ↦ encrypt_all buf drained.1
      ]

  -- `flush_below` is the flush of the stream below, and `shutdown_below` its end.
  unfoldable pub poll_flush :
      (Inner → Poll (Unit {0}) × Inner) → NoiseStream → Poll (Unit {0}) × NoiseStream
  poll_flush flush_below s =
      let drained = flush_write_cipher s in
      elim (drained.0) [
        | pending ↦ drained
        | failed e ↦ drained
        | ready _ ↦
            let below = flush_below drained.1.inner in
            (below.0, record (drained.1) { inner = below.1 })
      ]

  unfoldable pub poll_shutdown :
      (Inner → Poll (Unit {0}) × Inner) → NoiseStream → Poll (Unit {0}) × NoiseStream
  poll_shutdown shutdown_below s =
      let drained = flush_write_cipher s in
      elim (drained.0) [
        | pending ↦ drained
        | failed e ↦ drained
        | ready _ ↦
            let below = shutdown_below drained.1.inner in
            (below.0, record (drained.1) { inner = below.1 })
      ]
