-- ===== src/Noise/Reader.antt =====
-- `poll_read` of src/noise_transport.rs.
use shardscape.Base.{
  ℕ, zero, suc, min, List, [], ◌∷◌, ◌++◌, Bytes, Option, none, some, length, take, drop,
}
use shardscape.Noise.{
  Cipher, Poll, pending, failed, ready, Arrival, stalls, breaks, brings, NoiseStream,
  unexpected_eof, inner_failed, try_decrypt_one_frame,
}

-- The end of the stream below: clean only between two frames.
abbrev pub at_end : Bytes → Poll Bytes
at_end [] = ready []
at_end (b ∷ cipher) = failed unexpected_eof

abbrev pub skip_arrival : List Arrival → NoiseStream → NoiseStream
skip_arrival rest s = record s { inner = record (s.inner) { arrivals = rest } }

-- What one round of the loop does: it is done, or it goes on.
pub data Round : Type 0 where
  done : Poll Bytes → NoiseStream → Round
  again : NoiseStream → Round

-- Step 3: more bytes from the wire.
unfoldable pub pull : NoiseStream → List Arrival → Round
pull s [] = done pending s
pull s (stalls ∷ rest) = done pending (skip_arrival rest s)
pull s (breaks ∷ rest) = done (failed inner_failed) (skip_arrival rest s)
pull s (brings [] ∷ rest) = done (at_end s.read_cipher) (skip_arrival rest s)
pull s (brings (b ∷ filled) ∷ rest) =
    again (record (skip_arrival rest s) { read_cipher = s.read_cipher ++ (b ∷ filled) })

-- Step 1: the plaintext that is there; `remaining` is the room in the caller's buffer.
abbrev pub hand_out : ℕ → NoiseStream → Round
hand_out remaining s =
    let to_copy = min remaining (length s.read_plain) in
    done (ready (take to_copy s.read_plain)) (record s { read_plain = drop to_copy s.read_plain })

module _ (cipher : Cipher) where
  -- Steps 2 and 3.
  unfoldable pub refill : NoiseStream → Round
  refill s =
      let result = try_decrypt_one_frame cipher s in
      elim (result.0) [
        | pending ↦ done pending result.1
        | failed e ↦ done (failed e) result.1
        | ready none ↦ pull result.1 result.1.inner.arrivals
        | ready (some plaintext) ↦
            again (record (result.1) { read_plain = result.1.read_plain ++ plaintext })
      ]

  abbrev pub round : ℕ → NoiseStream → Bytes → Round
  round remaining s [] = refill s
  round remaining s (b ∷ plain) = hand_out remaining s

  -- The loop, on fuel; `none` means that the fuel ran out.
  unfoldable pub poll_read : ℕ → ℕ → NoiseStream → Option (Poll Bytes × NoiseStream)
  poll_read zero remaining s = none
  poll_read (suc fuel) remaining s = elim (round remaining s s.read_plain) [
    | done result t ↦ some (result, t)
    | again t ↦ poll_read fuel remaining t
  ]
