-- ===== src/Noise/Halves.antt =====
-- Reading leaves the writing half of a stream alone.
use shardscape.Base.{
  ℕ, zero, suc, ◌≡◌, refl, sym, ap, ◌∙◌, inl, inr, List, [], ◌∷◌, Bytes, some, Option-cases,
}
use shardscape.Noise.{
  Cipher, Poll, failed, Arrival, stalls, breaks, brings, NoiseStream, invalid_data, split_frame,
  try_decrypt_one_frame,
}
use shardscape.Noise.Reader.{Round, done, again, pull, refill, round, poll_read}
use shardscape.Noise.Received.{Round-cases, refill-none, refill-some}

-- The parts of a stream that reading leaves alone.
pub record SameWriter (s t : NoiseStream) : Type 0 where
  pub sent : t.sent ≡ s.sent
  pub write_cipher : t.write_cipher ≡ s.write_cipher
  pub wire : t.inner.wire ≡ s.inner.wire
  pub rooms : t.inner.rooms ≡ s.inner.rooms

pub SameWriter-trans : (s t u : NoiseStream) → SameWriter s t → SameWriter t u → SameWriter s u
SameWriter-trans s t u h k = record {
  sent = k.sent ∙ h.sent;
  write_cipher = k.write_cipher ∙ h.write_cipher;
  wire = k.wire ∙ h.wire;
  rooms = k.rooms ∙ h.rooms;
}

module _ (cipher : Cipher) where
  abbrev Keeps : NoiseStream → Round → Type 0
  Keeps s (done result t) = SameWriter s t
  Keeps s (again t) = SameWriter s t

  pull-Keeps : (s : NoiseStream) (arrivals : List Arrival) → Keeps s (pull s arrivals)
  unfolding pull
  pull-Keeps s [] = (record { sent = refl; write_cipher = refl; wire = refl; rooms = refl })
  pull-Keeps s (stalls ∷ rest) = (record {
    sent = refl;
    write_cipher = refl;
    wire = refl;
    rooms = refl;
  })
  pull-Keeps s (breaks ∷ rest) = (record {
    sent = refl;
    write_cipher = refl;
    wire = refl;
    rooms = refl;
  })
  pull-Keeps s (brings [] ∷ rest) = (record {
    sent = refl;
    write_cipher = refl;
    wire = refl;
    rooms = refl;
  })
  pull-Keeps s (brings (b ∷ filled) ∷ rest) = (record {
    sent = refl;
    write_cipher = refl;
    wire = refl;
    rooms = refl;
  })

  refill-Keeps : (s : NoiseStream) → Keeps s (refill cipher s)
  unfolding refill try_decrypt_one_frame
  refill-Keeps s = elim (Option-cases (split_frame s.read_cipher)) [
    | inl e ↦ rw (refill-none cipher s e) (pull-Keeps s s.inner.arrivals)
    | inr ((frame, rest), e) ↦ elim (Option-cases (cipher.read_message s.received frame)) [
      | inl f ↦
          let one : try_decrypt_one_frame cipher s
              ≡ (failed invalid_data, record s { read_cipher = rest }) =
            rw (e, try_decrypt_one_frame) (rw f refl) in
          rw (ap (λ r. r.0) one, refill)
            (rw (ap (λ r. r.1) one)
              (record { sent = refl; write_cipher = refl; wire = refl; rooms = refl }))
      | inr (p, f) ↦
          rw (refill-some cipher s frame rest p e f)
            (record { sent = refl; write_cipher = refl; wire = refl; rooms = refl })
    ]
  ]

  round-Keeps :
      (remaining : ℕ) (s : NoiseStream) (plain : Bytes) → Keeps s (round cipher remaining s plain)
  round-Keeps remaining s [] = refill-Keeps s
  round-Keeps remaining s (b ∷ plain) = (record {
    sent = refl;
    write_cipher = refl;
    wire = refl;
    rooms = refl;
  })

  pub poll_read-SameWriter :
      (fuel remaining : ℕ) (s t : NoiseStream) (result : Poll Bytes)
      → poll_read cipher fuel remaining s ≡ some (result, t)
      → SameWriter s t
  unfolding poll_read
  poll_read-SameWriter zero remaining s t result e = absurd (cc (e))
  poll_read-SameWriter (suc fuel) remaining s t result e =
      let kept = round-Keeps remaining s s.read_plain in
      elim (Round-cases (round cipher remaining s s.read_plain)) [
        | inl (r, u, f) ↦
            let q : some (r, u) ≡ some (result, t) = rw (f, poll_read) at e in
            let there : u ≡ t = cc (q) in rw (sym there) (rw f at kept)
        | inr (u, f) ↦
            SameWriter-trans s u t (rw f at kept)
              (poll_read-SameWriter fuel remaining u t result (rw (f, poll_read) at e))
      ]
