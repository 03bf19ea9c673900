-- ===== src/Noise/Polls.antt =====
-- What one poll does to the writing half of a stream, and that it leaves the reading half alone.
use shardscape.Base.{
  Bool-cases, ◌≡◌, refl, ◌∙◌, subst, ◌⊎◌, inl, inr, ◌++◌, Bytes, length, concat, arith,
}
use shardscape.Noise.{Cipher, Poll, pending, failed, ready, other, Inner, NoiseStream, IoError}
use shardscape.Noise.Writer.{
  chunks, max_payload, encrypt, accepted, encrypt_all, poll_write, poll_flush, flush_write_cipher,
}
use shardscape.Noise.Sent.{
  Sent, SameReader, SameReader-trans, Poll-cases, flush-Sent, flush-SameReader, encrypt-Sent,
  encrypt-SameReader, concat-chunks,
}
use shardscape.Noise.Halves.{SameWriter}

-- The stream below: what a flush or a shutdown of it may do.
pub record MovesNothing (below : Inner → Poll (Unit {0}) × Inner) : Type 0 where
  pub arrivals : (i : Inner) → (below i).1.arrivals ≡ i.arrivals
  pub wire : (i : Inner) → (below i).1.wire ≡ i.wire

flush_sent : (s : NoiseStream) → (flush_write_cipher s).1.sent ≡ s.sent
unfolding flush_write_cipher
flush_sent s = refl

module _ (cipher : Cipher) where
  pub Sent-SameWriter :
      (s t : NoiseStream) (bytes : Bytes)
      → SameWriter s t
      → Sent cipher s bytes
      → Sent cipher t bytes
  Sent-SameWriter s t bytes k h = record {
    messages = h.messages;
    whole = h.whole;
    counted = k.sent ∙ h.counted;
    framed = rw (k.wire, k.write_cipher) h.framed;
  }

  pub poll_write-SameReader :
      (buf : Bytes) (s : NoiseStream) → SameReader s (poll_write cipher buf s).1
  unfolding poll_write encrypt_all
  poll_write-SameReader buf s =
      let one = flush_write_cipher s in
      let ps = chunks (length buf) max_payload buf in
      let two = encrypt cipher ps one.1 in
      let three = flush_write_cipher two.1 in
      let to_one = flush-SameReader s in
      let to_two = SameReader-trans s one.1 two.1 to_one (encrypt-SameReader cipher ps one.1) in
      let to_three = SameReader-trans s two.1 three.1 to_two (flush-SameReader two.1) in
      elim (Poll-cases one.0) [
        | inl e ↦ rw (e, poll_write) to_one
        | inr (inl (x, e)) ↦ rw (e, poll_write) to_one
        | inr (inr (u, e)) ↦ elim (Bool-cases two.0) [
          | inr f ↦ rw (e, poll_write) (rw (f, encrypt_all) to_two)
          | inl f ↦ elim (Poll-cases three.0) [
            | inl g ↦ rw (e, poll_write) (rw (f, encrypt_all) (rw (g, accepted) to_three))
            | inr (inl (x, g)) ↦
                rw (e, poll_write) (rw (f, encrypt_all) (rw (g, accepted) to_three))
            | inr (inr (w, g)) ↦
                rw (e, poll_write) (rw (f, encrypt_all) (rw (g, accepted) to_three))
          ]
        ]
      ]

  -- A write accepts all of the caller's bytes or none of them, where it does not fail: if the frames of earlier writes cannot be flushed it is pending and nothing is encrypted; otherwise each byte is encrypted exactly once, behind those of before, also where the flush of the new frames stalls.
  pub poll_write-Sent :
      (buf : Bytes) (s : NoiseStream) (bytes : Bytes)
      → Sent cipher s bytes
      → (((poll_write cipher buf s).0 ≡ pending)
          × ((poll_write cipher buf s).1.sent ≡ s.sent)
          × Sent cipher (poll_write cipher buf s).1 bytes)
        ⊎ ((e : IoError) × ((poll_write cipher buf s).0 ≡ failed e))
        ⊎ (((poll_write cipher buf s).0 ≡ ready (length buf))
            × Sent cipher (poll_write cipher buf s).1 (bytes ++ buf))
  unfolding poll_write encrypt_all
  poll_write-Sent buf s bytes h =
      let one = flush_write_cipher s in
      let ps = chunks (length buf) max_payload buf in
      let two = encrypt cipher ps one.1 in
      let three = flush_write_cipher two.1 in
      let kept = flush-Sent cipher s bytes h in
      elim (Poll-cases one.0) [
        | inl e ↦ rw (e, poll_write) (inl (refl, flush_sent s, kept))
        | inr (inl (x, e)) ↦ rw (e, poll_write) (inr (inl (x, refl)))
        | inr (inr (u, e)) ↦ elim (Bool-cases two.0) [
          | inr f ↦ rw (e, poll_write) (rw (f, encrypt_all) (inr (inl (other, refl))))
          | inl f ↦
              let whole : concat ps ≡ buf =
                concat-chunks (length buf) max_payload buf (omega arith) (omega arith) in
              let sealed : Sent cipher three.1 (bytes ++ buf) =
                flush-Sent cipher two.1 (bytes ++ buf) (
                  subst (λ b. Sent cipher two.1 (bytes ++ b)) whole
                    (encrypt-Sent cipher ps one.1 bytes kept f)) in
              elim (Poll-cases three.0) [
                | inl g ↦
                    rw (e, poll_write)
                      (rw (f, encrypt_all) (rw (g, accepted) (inr (inr (refl, sealed)))))
                | inr (inl (x, g)) ↦
                    rw (e, poll_write)
                      (rw (f, encrypt_all) (rw (g, accepted) (inr (inl (x, refl)))))
                | inr (inr (w, g)) ↦
                    rw (e, poll_write)
                      (rw (f, encrypt_all) (rw (g, accepted) (inr (inr (refl, sealed)))))
              ]
        ]
      ]

  pub poll_flush-SameReader :
      (below : Inner → Poll (Unit {0}) × Inner) (s : NoiseStream)
      → MovesNothing below
      → SameReader s (poll_flush cipher below s).1
  unfolding poll_flush
  poll_flush-SameReader below s law =
      let one = flush_write_cipher s in
      let same = flush-SameReader s in
      elim (Poll-cases one.0) [
        | inl e ↦ rw (e, poll_flush) same
        | inr (inl (x, e)) ↦ rw (e, poll_flush) same
        | inr (inr (u, e)) ↦
            rw (e, poll_flush)
              (record {
                received = same.received;
                read_plain = same.read_plain;
                read_cipher = same.read_cipher;
                arrivals = law.arrivals one.1.inner ∙ same.arrivals;
              })
      ]

  pub poll_flush-Sent :
      (below : Inner → Poll (Unit {0}) × Inner) (s : NoiseStream) (bytes : Bytes)
      → MovesNothing below
      → Sent cipher s bytes
      → Sent cipher (poll_flush cipher below s).1 bytes
  unfolding poll_flush
  poll_flush-Sent below s bytes law h =
      let one = flush_write_cipher s in
      let kept = flush-Sent cipher s bytes h in
      elim (Poll-cases one.0) [
        | inl e ↦ rw (e, poll_flush) kept
        | inr (inl (x, e)) ↦ rw (e, poll_flush) kept
        | inr (inr (u, e)) ↦
            rw (e, poll_flush)
              (record {
                messages = kept.messages;
                whole = kept.whole;
                counted = kept.counted;
                framed = rw (law.wire one.1.inner) kept.framed;
              })
      ]
