-- ===== src/Noise/Session.antt =====
-- A stream in use: reads, writes and flushes in any order.
use shardscape.Base.{
  ℕ, ◌≡◌, refl, sym, ap, ◌∙◌, subst, inl, inr, List, [], ◌∷◌, ◌++◌, Bytes, some, length, take,
  concat,
}
use shardscape.Noise.{Cipher, Poll, pending, failed, ready, Inner, NoiseStream, from_transport}
use shardscape.Noise.Writer.{poll_write, poll_flush}
use shardscape.Noise.Reader.{poll_read}
use shardscape.Noise.Frames.{CipherLaws, Frames}
use shardscape.Noise.Sent.{Sent, SameReader}
use shardscape.Noise.Halves.{poll_read-SameWriter}
use shardscape.Noise.Received.{Received, arriving, out_of, poll_read-Received}
use shardscape.Noise.Polls.{
  MovesNothing, Sent-SameWriter, poll_write-SameReader, poll_write-Sent, poll_flush-SameReader,
  poll_flush-Sent,
}

take_all : (xs : Bytes) → take (length xs) xs ≡ xs
take_all [] = refl
take_all (x ∷ xs) = ap (◌∷◌ x) (take_all xs)

module _ (cipher : Cipher) where
  -- A stream in use, with the bytes that its writes have accepted and those that its reads have handed out. A write or a flush that fails ends it.
  pub data Session (below : Inner → Poll (Unit {0}) × Inner) (inner : Inner)
      : NoiseStream → Bytes → Bytes → Type 0 where
    opened : Session below inner (from_transport inner) [] []
    wrote :
        (s t : NoiseStream) (sent got : Bytes) (buf : Bytes) (n : ℕ)
        → Session below inner s sent got
        → poll_write cipher buf s ≡ (ready n, t)
        → Session below inner t (sent ++ take n buf) got
    stalled :
        (s t : NoiseStream) (sent got : Bytes) (buf : Bytes)
        → Session below inner s sent got
        → poll_write cipher buf s ≡ (pending, t)
        → Session below inner t sent got
    flushed :
        (s : NoiseStream) (sent got : Bytes)
        → Session below inner s sent got
        → Session below inner (poll_flush cipher below s).1 sent got
    read :
        (s t : NoiseStream) (sent got : Bytes) (fuel remaining : ℕ) (result : Poll Bytes)
        → Session below inner s sent got
        → poll_read cipher fuel remaining s ≡ some (result, t)
        → Session below inner t sent (got ++ out_of result)

  -- However reads, writes and flushes are interleaved, and whatever arrives: what is on the wire and in the buffer is the bytes that were accepted, each sealed once and in order.
  pub Session-Sent :
      (below : Inner → Poll (Unit {0}) × Inner) (inner : Inner) (s : NoiseStream) (sent got : Bytes)
      → MovesNothing below
      → inner.wire ≡ []
      → Session below inner s sent got
      → Sent cipher s sent
  Session-Sent below inner s sent got flushes w opened = record {
    messages = [];
    whole = refl;
    counted = refl;
    framed = rw w refl;
  }
  Session-Sent below inner t sent got flushes w (wrote s u before g buf n r e) =
      let h = Session-Sent below inner s before got flushes w r in
      let result : (poll_write cipher buf s).0 ≡ ready n = ap (λ p. p.0) e in
      let there : (poll_write cipher buf s).1 ≡ t = ap (λ p. p.1) e in
      elim (poll_write-Sent cipher buf s before h) [
        | inl (stuck, _, _) ↦ absurd (let q : pending ≡ ready n = sym stuck ∙ result in cc (q))
        | inr (inl (x, broken)) ↦
            absurd (let q : failed x ≡ ready n = sym broken ∙ result in cc (q))
        | inr (inr (all, kept)) ↦
            let q : ready (length buf) ≡ ready n = sym all ∙ result in
            let size : length buf ≡ n = cc (q) in
            subst (λ b. Sent cipher t (before ++ b))
              (sym (take_all buf) ∙ ap (λ m. take m buf) size)
              (subst (λ u. Sent cipher u (before ++ buf)) there kept)
      ]
  Session-Sent below inner t sent got flushes w (stalled s u before g buf r e) =
      let h = Session-Sent below inner s sent got flushes w r in
      let result : (poll_write cipher buf s).0 ≡ pending = ap (λ p. p.0) e in
      elim (poll_write-Sent cipher buf s sent h) [
        | inl (stuck, _, kept) ↦ subst (λ u. Sent cipher u sent) (ap (λ p. p.1) e) kept
        | inr (inl (x, broken)) ↦
            absurd (let q : failed x ≡ pending = sym broken ∙ result in cc (q))
        | inr (inr (all, kept)) ↦
            absurd (let q : ready (length buf) ≡ pending = sym all ∙ result in cc (q))
      ]
  Session-Sent below inner t sent got flushes w (flushed s before g r) =
      (poll_flush-Sent cipher below s sent flushes
        (Session-Sent below inner s sent got flushes w r))
  Session-Sent below inner t sent got flushes w (read s u before g fuel remaining result r e) =
      Sent-SameWriter cipher s t sent (poll_read-SameWriter cipher fuel remaining s t result e)
        (Session-Sent below inner s sent g flushes w r)

module _ (cipher peer : Cipher) where
  Received-SameReader :
      (s t : NoiseStream) (got bytes : Bytes)
      → SameReader s t
      → Received cipher peer s got bytes
      → Received cipher peer t got bytes
  Received-SameReader s t got bytes k h = record {
    left = h.left;
    framed = rw (k.received, k.read_cipher, k.arrivals) h.framed;
    whole = rw k.read_plain h.whole;
  }

  -- What was handed out begins what the peer sealed, and the rest of it is decrypted or still arrives.
  pub Session-Received :
      (below : Inner → Poll (Unit {0}) × Inner) (inner : Inner) (messages : List Bytes)
      (s : NoiseStream) (sent got : Bytes)
      → CipherLaws peer cipher
      → MovesNothing below
      → Frames peer 0 messages (arriving inner.arrivals)
      → Session cipher below inner s sent got
      → Received cipher peer s got (concat messages)
  Session-Received below inner messages s sent got law flushes f opened = record {
    left = messages;
    framed = f;
    whole = refl;
  }
  Session-Received below inner messages t sent got law flushes f (wrote s u before g buf n r e) =
      let k = Session-Received below inner messages s before got law flushes f r in
      subst (λ u. Received cipher peer u got (concat messages)) (ap (λ p. p.1) e)
        (Received-SameReader s (poll_write cipher buf s).1 got (concat messages)
          (poll_write-SameReader cipher buf s) k)
  Session-Received below inner messages t sent got law flushes f (stalled s u before g buf r e) =
      let k = Session-Received below inner messages s sent got law flushes f r in
      subst (λ u. Received cipher peer u got (concat messages)) (ap (λ p. p.1) e)
        (Received-SameReader s (poll_write cipher buf s).1 got (concat messages)
          (poll_write-SameReader cipher buf s) k)
  Session-Received below inner messages t sent got law flushes f (flushed s before g r) =
      Received-SameReader s (poll_flush cipher below s).1 got (concat messages)
        (poll_flush-SameReader cipher below s flushes)
        (Session-Received below inner messages s sent got law flushes f r)
  Session-Received below inner messages t sent got law flushes f
        (read s u before g fuel remaining result r e) =
      (poll_read-Received cipher peer fuel remaining s t g (concat messages) result law
        (Session-Received below inner messages s sent g law flushes f r) e).0

-- Two ends of a connection, where what each end has sealed is what arrives at the other, at whatever pace and in whatever pieces, and each end reads, writes and flushes in whatever order: in both directions what was handed out is a prefix of what was accepted.
pub Session-duplex :
    (one peer : Cipher) (below below' : Inner → Poll (Unit {0}) × Inner) (inner inner' : Inner)
    (s t : NoiseStream) (sent sent' got got' : Bytes)
    → CipherLaws one peer
    → CipherLaws peer one
    → MovesNothing below
    → MovesNothing below'
    → inner.wire ≡ []
    → inner'.wire ≡ []
    → arriving inner.arrivals ≡ t.inner.wire ++ t.write_cipher
    → arriving inner'.arrivals ≡ s.inner.wire ++ s.write_cipher
    → Session one below inner s sent got
    → Session peer below' inner' t sent' got'
    → ((rest : Bytes) × (got ++ rest ≡ sent')) × ((rest : Bytes) × (got' ++ rest ≡ sent))
Session-duplex one peer below below' inner inner' s t sent sent' got got' to_peer to_one flushes
      flushes' w w' in_one in_peer near far =
    let h = Session-Sent one below inner s sent got flushes w near in
    let h' = Session-Sent peer below' inner' t sent' got' flushes' w' far in
    let k =
      Session-Received one peer below inner h'.messages s sent got to_one flushes
        (subst (Frames peer 0 h'.messages) (sym in_one) h'.framed) near in
    let k' =
      Session-Received peer one below' inner' h.messages t sent' got' to_peer flushes'
        (subst (Frames one 0 h.messages) (sym in_peer) h.framed) far in
    (
      (s.read_plain ++ concat k.left, k.whole ∙ h'.whole),
      (t.read_plain ++ concat k'.left, k'.whole ∙ h.whole),
    )
