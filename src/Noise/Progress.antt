-- ===== src/Noise/Progress.antt =====
-- A read ends, and delivers what has arrived.
use shardscape.Base.{
  ℕ, zero, suc, ◌+◌, ◌≤◌, ◌<◌, ltb, min, ◌≡◌, ◌≢◌, refl, sym, ap, ◌∙◌, subst, ◌⊎◌, inl, inr, List,
  [], ◌∷◌, ◌++◌, append-nil, append_assoc, Bytes, none, some, Option-cases, length, take, drop,
  concat, length-append, length-drop, All, arith, Bool-cases,
}
use shardscape.Noise.{
  Cipher, Poll, failed, ready, Arrival, stalls, breaks, brings, NoiseStream, invalid_data, from_be,
  split_frame, try_decrypt_one_frame,
}
use shardscape.Noise.Reader.{Round, done, again, pull, refill, round, poll_read}
use shardscape.Noise.Frames.{CipherLaws, Frames, split_frame-Frames, split_frame-none}
use shardscape.Noise.Received.{arriving, Received, refill-none, refill-some, Round-cases}

abbrev pub weight : List Arrival → ℕ
weight [] = 0
weight (stalls ∷ rest) = suc (weight rest)
weight (breaks ∷ rest) = suc (weight rest)
weight (brings b ∷ rest) = suc (length b + weight rest)

-- The bytes that a read still has to look at, and the polls that bring them.
abbrev pub measure : NoiseStream → ℕ
measure s = length s.read_cipher + weight s.inner.arrivals

shrinks : (c frame rest : Bytes) → split_frame c ≡ some (frame, rest) → suc (length rest) ≤ length c
unfolding split_frame
shrinks [] frame rest e = absurd (cc (e))
shrinks (hi ∷ []) frame rest e = absurd (cc (e))
shrinks (hi ∷ lo ∷ c) frame rest e = elim (Bool-cases (ltb (length c) (from_be hi lo))) [
  | inl cut ↦ absurd (let q : none ≡ some (frame, rest) = rw (cut, split_frame) at e in cc (q))
  | inr fits ↦
      let q : some (take (from_be hi lo) c, drop (from_be hi lo) c) ≡ some (frame, rest) =
        rw (fits, split_frame) at e in
      let same : drop (from_be hi lo) c ≡ rest = cc (q) in
      let size : length (drop (from_be hi lo) c) ≡ length rest = ap length same in
      omega (arith, length-drop (from_be hi lo) c)
]

assoc : (a b c : Bytes) → (a ++ b) ++ c ≡ a ++ (b ++ c)
assoc a b c = rw append_assoc

-- Every poll of the stream below brings bytes.
abbrev pub Brings : Arrival → Type 0
Brings stalls = ⊥
Brings breaks = ⊥
Brings (brings []) = ⊥
Brings (brings (b ∷ bs)) = Unit

list-cases : (xs : Bytes) → (xs ≡ []) ⊎ ((x : ℕ) × (rest : Bytes) × (xs ≡ x ∷ rest))
list-cases [] = inl refl
list-cases (x ∷ rest) = inr (x, rest, refl)

pull-Brings :
    (s : NoiseStream) (arrivals : List Arrival)
    → s.inner.arrivals ≡ arrivals
    → All Brings arrivals
    → (arrivals ≡ [])
      ⊎ ((t : NoiseStream) × (pull s arrivals ≡ again t)
          × (t.received ≡ s.received)
          × (t.read_plain ≡ s.read_plain)
          × (t.read_cipher ++ arriving t.inner.arrivals ≡ s.read_cipher ++ arriving arrivals)
          × All Brings t.inner.arrivals)
unfolding pull
pull-Brings s [] e h = inl refl
pull-Brings s (stalls ∷ rest) e h = absurd h.0
pull-Brings s (breaks ∷ rest) e h = absurd h.0
pull-Brings s (brings [] ∷ rest) e h = absurd h.0
pull-Brings s (brings (b ∷ filled) ∷ rest) e h = inr (_, refl, refl, refl, (rw append_assoc), h.1)

module _ (cipher : Cipher) where
  -- A round is the last one, or leaves less to look at.
  abbrev Shrinks : NoiseStream → Round → Type 0
  Shrinks s (done result t) = Unit
  Shrinks s (again t) = measure t < measure s

  pull-Shrinks :
      (s : NoiseStream) (arrivals : List Arrival)
      → s.inner.arrivals ≡ arrivals
      → Shrinks s (pull s arrivals)
  unfolding pull
  pull-Shrinks s [] e = tt
  pull-Shrinks s (stalls ∷ rest) e = tt
  pull-Shrinks s (breaks ∷ rest) e = tt
  pull-Shrinks s (brings [] ∷ rest) e = tt
  pull-Shrinks s (brings (b ∷ filled) ∷ rest) e =
      omega (arith, ap weight e, length-append s.read_cipher (b ∷ filled))

  refill-Shrinks : (s : NoiseStream) → Shrinks s (refill cipher s)
  unfolding refill try_decrypt_one_frame
  refill-Shrinks s = elim (Option-cases (split_frame s.read_cipher)) [
    | inl e ↦ rw (refill-none cipher s e) (pull-Shrinks s s.inner.arrivals refl)
    | inr ((frame, rest), e) ↦ elim (Option-cases (cipher.read_message s.received frame)) [
      | inl f ↦
          let one : try_decrypt_one_frame cipher s
              ≡ (failed invalid_data, record s { read_cipher = rest }) =
            rw (e, try_decrypt_one_frame) (rw f refl) in
          rw (ap (λ r. r.0) one, refill) tt
      | inr (p, f) ↦
          rw (refill-some cipher s frame rest p e f)
            (omega (arith, shrinks s.read_cipher frame rest e))
    ]
  ]

  round-Shrinks :
      (remaining : ℕ) (s : NoiseStream) (plain : Bytes) → Shrinks s (round cipher remaining s plain)
  round-Shrinks remaining s [] = refill-Shrinks s
  round-Shrinks remaining s (b ∷ plain) = tt

  -- A read ends, with any cipher and whatever the stream below does: as many rounds as there are bytes and polls left, and one more, are enough.
  pub poll_read_total :
      (fuel remaining : ℕ) (s : NoiseStream)
      → measure s < fuel
      → (result : Poll Bytes) × (t : NoiseStream) × (poll_read cipher fuel remaining s
          ≡ some (result, t))
  unfolding poll_read
  poll_read_total zero remaining s h = absurd (omega arith)
  poll_read_total (suc fuel) remaining s h =
      let small = round-Shrinks remaining s s.read_plain in
      elim (Round-cases (round cipher remaining s s.read_plain)) [
        | inl (result, t, e) ↦ (result, t, rw (e, poll_read))
        | inr (t, e) ↦
            let less : measure t < measure s = rw e at small in
            let (result, u, f) = poll_read_total fuel remaining t (omega arith) in
            (result, u, rw (e, poll_read) f)
      ]

  hands_out :
      (k b : ℕ) (bs : Bytes) (s : NoiseStream)
      → s.read_plain ≡ b ∷ bs
      → (c : ℕ) × (out : Bytes) × (t : NoiseStream) × (round cipher (suc k) s s.read_plain
          ≡ done (ready (c ∷ out)) t)
  hands_out k b bs s e =
      let n = min (suc k) (length s.read_plain) in
      let t : NoiseStream = record s { read_plain = drop n s.read_plain } in
      let size : n ≡ suc (min k (length bs)) = omega (arith, ap length e) in
      let out : take n s.read_plain ≡ b ∷ take (min k (length bs)) bs =
        ap (λ m. take m s.read_plain) size ∙ ap (take (suc (min k (length bs)))) e in
      (
        b,
        take (min k (length bs)) bs,
        t,
        ap (round cipher (suc k) s) e ∙ ap (λ o. done (ready o) t) out,
      )

module _ (cipher peer : Cipher) where
  delivers :
      (fuel k : ℕ) (s : NoiseStream) (left : List Bytes)
      → measure s < fuel
      → CipherLaws peer cipher
      → Frames peer s.received left (s.read_cipher ++ arriving s.inner.arrivals)
      → All Brings s.inner.arrivals
      → s.read_plain ++ concat left ≢ []
      → (c : ℕ) × (out : Bytes) × (t : NoiseStream) × (poll_read cipher fuel (suc k) s
          ≡ some (ready (c ∷ out), t))
  unfolding poll_read
  delivers zero k s left m law frames all owes = absurd (omega arith)
  delivers (suc fuel) k s left m law frames all owes = elim (list-cases s.read_plain) [
    | inr (b, bs, e) ↦
        let (c, out, t, f) = hands_out cipher k b bs s e in (c, out, t, rw (f, poll_read))
    | inl e ↦
        let reads : round cipher (suc k) s s.read_plain ≡ refill cipher s =
          ap (round cipher (suc k) s) e in
        let small = round-Shrinks cipher (suc k) s s.read_plain in
        elim (Option-cases (split_frame s.read_cipher)) [
          | inl f ↦ elim (pull-Brings s s.inner.arrivals refl all) [
            | inl none_left ↦
                let no_messages : left ≡ [] =
                  split_frame-none peer cipher s.received left s.read_cipher law
                    (subst (Frames peer s.received left)
                      (ap (λ a. s.read_cipher ++ arriving a) none_left ∙ append-nil s.read_cipher)
                      frames)
                    f in
                absurd (owes (ap (λ p. p ++ concat left) e ∙ ap concat no_messages))
            | inr (t, pulled, same_nonce, same_plain, same_bytes, brings_more) ↦
                let goes : round cipher (suc k) s s.read_plain ≡ again t =
                  reads ∙ refill-none cipher s f ∙ pulled in
                let less : measure t < measure s = rw goes at small in
                let (c, out, u, g) =
                  delivers fuel k t left (omega arith) law
                    (subst (λ n. Frames peer n left (t.read_cipher ++ arriving t.inner.arrivals))
                      (sym same_nonce)
                      (subst (Frames peer s.received left) (sym same_bytes) frames))
                    brings_more (λ q. owes (ap (λ p. p ++ concat left) (sym same_plain) ∙ q)) in
                (c, out, u, rw (goes, poll_read) g)
          ]
          | inr ((frame, rest), f) ↦
              let (p, qs, is, sealed, more) =
                split_frame-Frames peer cipher s.received left s.read_cipher
                  (arriving s.inner.arrivals) frame rest law frames f in
              let t : NoiseStream = record s {
                read_cipher = rest;
                received = suc s.received;
                read_plain = s.read_plain ++ p;
              } in
              let goes : round cipher (suc k) s s.read_plain ≡ again t =
                reads ∙ refill-some cipher s frame rest p f (law.opens s.received p frame sealed) in
              let less : measure t < measure s = rw goes at small in
              let (c, out, u, g) = delivers fuel k t qs (omega arith) law more all (λ q. owes (
                ap (λ l. s.read_plain ++ concat l) is
                ∙ sym (assoc s.read_plain p (concat qs))
                ∙ q)) in
              (c, out, u, rw (goes, poll_read) g)
        ]
  ]

  -- While bytes of the peer are still owed and the stream below keeps bringing them, a read with room for a byte returns at least one.
  pub poll_read-delivers :
      (fuel k : ℕ) (s : NoiseStream) (got bytes : Bytes)
      → measure s < fuel
      → CipherLaws peer cipher
      → Received cipher peer s got bytes
      → All Brings s.inner.arrivals
      → got ≢ bytes
      → (c : ℕ) × (out : Bytes) × (t : NoiseStream) × (poll_read cipher fuel (suc k) s
          ≡ some (ready (c ∷ out), t))
  poll_read-delivers fuel k s got bytes m law h all owed =
      delivers fuel k s h.left m law h.framed all
        (λ q. owed (sym (append-nil got) ∙ ap (λ x. got ++ x) (sym q) ∙ h.whole))
