-- ===== src/Noise/Received.antt =====
-- What a reader has handed out, and what is still to come, of the messages that a peer has sealed.
use shardscape.Base.{
  ℕ, zero, suc, min, ◌≡◌, ◌≢◌, refl, sym, ap, ◌∙◌, subst, ◌⊎◌, inl, inr, List, [], ◌∷◌, ◌++◌,
  append_assoc, append-nil, Bytes, none, some, Option-cases, length, take, drop, concat,
  take-append-drop,
}
use shardscape.Noise.{
  Cipher, Poll, pending, failed, ready, Arrival, stalls, breaks, brings, NoiseStream, invalid_data,
  split_frame, try_decrypt_one_frame,
}
use shardscape.Noise.Reader.{
  Round, done, again, at_end, skip_arrival, pull, refill, round, poll_read,
}
use shardscape.Noise.Frames.{CipherLaws, Frames, split_frame-Frames}

-- The bytes that a script brings.
abbrev pub arriving : List Arrival → Bytes
arriving [] = []
arriving (stalls ∷ rest) = arriving rest
arriving (breaks ∷ rest) = arriving rest
arriving (brings b ∷ rest) = b ++ arriving rest

abbrev pub out_of : Poll Bytes → Bytes
out_of pending = []
out_of (failed e) = []
out_of (ready b) = b

assoc : (a b c : Bytes) → (a ++ b) ++ c ≡ a ++ (b ++ c)
assoc a b c = rw append_assoc

at_end_lem : (c : Bytes) → (out_of (at_end c) ≡ []) × (at_end c ≢ failed invalid_data)
at_end_lem [] = (refl, λ q. cc)
at_end_lem (b ∷ c) = (refl, λ q. cc)

pub Round-cases :
    (r : Round)
    → ((result : Poll Bytes) × (t : NoiseStream) × (r ≡ done result t))
      ⊎ ((t : NoiseStream) × (r ≡ again t))
Round-cases (done result t) = inl (result, t, refl)
Round-cases (again t) = inr (t, refl)

module _ (cipher : Cipher) where
  pub refill-none :
      (s : NoiseStream)
      → split_frame s.read_cipher ≡ none
      → refill cipher s ≡ pull s s.inner.arrivals
  unfolding refill try_decrypt_one_frame
  refill-none s e =
      let none_yet : try_decrypt_one_frame cipher s ≡ (ready none, s) =
        rw (e, try_decrypt_one_frame) in
      rw (ap (λ r. r.0) none_yet, refill) (rw (ap (λ r. r.1) none_yet) refl)

  pub refill-some :
      (s : NoiseStream) (frame rest p : Bytes)
      → split_frame s.read_cipher ≡ some (frame, rest)
      → cipher.read_message s.received frame ≡ some p
      → refill cipher s
        ≡ again (record s {
          read_cipher = rest;
          received = suc s.received;
          read_plain = s.read_plain ++ p;
        })
  unfolding refill try_decrypt_one_frame
  refill-some s frame rest p e opened =
      let one : try_decrypt_one_frame cipher s
          ≡ (ready (some p), record s { read_cipher = rest; received = suc s.received }) =
        rw (e, try_decrypt_one_frame) (rw opened refl) in
      rw (ap (λ r. r.0) one, refill) (rw (ap (λ r. r.1) one) refl)

module _ (cipher peer : Cipher) where
  -- Of `bytes`, those in `got` are handed out; the rest is decrypted, or arrives as frames of the peer.
  pub record Received (s : NoiseStream) (got bytes : Bytes) : Type 0 where
    pub left : List Bytes
    pub framed : Frames peer s.received left (s.read_cipher ++ arriving s.inner.arrivals)
    pub whole : got ++ (s.read_plain ++ concat left) ≡ bytes

  -- What a round does to a state: its result is no decryption error, and nothing is lost or made up.
  abbrev After : NoiseStream → Bytes → Bytes → Round → Type 0
  After s got bytes (done result t) =
      Received t (got ++ out_of result) bytes × (result ≢ failed invalid_data)
  After s got bytes (again t) = Received t got bytes

  nothing_out :
      (t : NoiseStream) (got bytes : Bytes) → Received t got bytes → Received t (got ++ []) bytes
  nothing_out t got bytes h = subst (λ g. Received t g bytes) (sym (append-nil got)) h

  pull-After :
      (s : NoiseStream) (got bytes : Bytes) (arrivals : List Arrival)
      → s.inner.arrivals ≡ arrivals
      → Received s got bytes
      → After s got bytes (pull s arrivals)
  unfolding pull
  pull-After s got bytes [] e h = (nothing_out s got bytes h, λ q. cc)
  pull-After s got bytes (stalls ∷ rest) e h =
      let t = skip_arrival rest s in
      (
        nothing_out t got bytes
            (record { left = h.left; framed = rw e at h.framed; whole = h.whole }),
        λ q. cc,
      )
  pull-After s got bytes (breaks ∷ rest) e h =
      let t = skip_arrival rest s in
      (
        nothing_out t got bytes
            (record { left = h.left; framed = rw e at h.framed; whole = h.whole }),
        λ q. cc,
      )
  pull-After s got bytes (brings [] ∷ rest) e h =
      let t = skip_arrival rest s in
      let kept : Received t got bytes = record {
        left = h.left;
        framed = rw e at h.framed;
        whole = h.whole;
      } in
      (
        subst (λ o. Received t (got ++ o) bytes) (sym (at_end_lem s.read_cipher).0)
            (nothing_out t got bytes kept),
        (at_end_lem s.read_cipher).1,
      )
  pull-After s got bytes (brings (b ∷ filled) ∷ rest) e h = record {
    left = h.left;
    framed =
        subst (Frames peer s.received h.left)
          (sym (assoc s.read_cipher (b ∷ filled) (arriving rest))) (rw e at h.framed);
    whole = h.whole;
  }

  refill-After :
      (s : NoiseStream) (got bytes : Bytes)
      → CipherLaws peer cipher
      → Received s got bytes
      → After s got bytes (refill cipher s)
  refill-After s got bytes law h = elim (Option-cases (split_frame s.read_cipher)) [
    | inl e ↦ rw (refill-none cipher s e) (pull-After s got bytes s.inner.arrivals refl h)
    | inr ((frame, rest), e) ↦
        let (p, qs, is, sealed, more) =
          split_frame-Frames peer cipher s.received h.left s.read_cipher (arriving s.inner.arrivals)
            frame rest law h.framed e in
        let whole : got ++ ((s.read_plain ++ p) ++ concat qs) ≡ bytes =
          ap (λ x. got ++ x) (assoc s.read_plain p (concat qs)) ∙ rw is at h.whole in
        rw (refill-some cipher s frame rest p e (law.opens s.received p frame sealed))
          (record { left = qs; framed = more; whole = whole })
  ]

  round-After :
      (remaining : ℕ) (s : NoiseStream) (plain got bytes : Bytes)
      → s.read_plain ≡ plain
      → CipherLaws peer cipher
      → Received s got bytes
      → After s got bytes (round cipher remaining s plain)
  round-After remaining s [] got bytes e law h = refill-After s got bytes law h
  round-After remaining s (b ∷ plain) got bytes e law h =
      let n = min remaining (length s.read_plain) in
      (
        record {
          left = h.left;
          framed = h.framed;
          whole =
              assoc got (take n s.read_plain) (drop n s.read_plain ++ concat h.left)
              ∙ ap (λ x. got ++ x)
                  (sym (assoc (take n s.read_plain) (drop n s.read_plain) (concat h.left))
                    ∙ ap (λ x. x ++ concat h.left) (take-append-drop n s.read_plain))
              ∙ h.whole;
        },
        λ q. cc,
      )

  -- A read hands out the next bytes of the peer's messages and loses none, whatever else it returns; it never fails to decrypt.
  pub poll_read-Received :
      (fuel remaining : ℕ) (s t : NoiseStream) (got bytes : Bytes) (result : Poll Bytes)
      → CipherLaws peer cipher
      → Received s got bytes
      → poll_read cipher fuel remaining s ≡ some (result, t)
      → Received t (got ++ out_of result) bytes × (result ≢ failed invalid_data)
  unfolding poll_read
  poll_read-Received zero remaining s t got bytes result law h e = absurd (cc (e))
  poll_read-Received (suc fuel) remaining s t got bytes result law h e =
      let kept = round-After remaining s s.read_plain got bytes refl law h in
      elim (Round-cases (round cipher remaining s s.read_plain)) [
        | inl (r, u, f) ↦
            let q : some (r, u) ≡ some (result, t) = rw (f, poll_read) at e in
            let same : r ≡ result = cc (q) in
            let there : u ≡ t = cc (q) in rw (sym same, sym there) (rw f at kept)
        | inr (u, f) ↦
            let next : Received u got bytes = rw f at kept in
            poll_read-Received fuel remaining u t got bytes result law next (rw (f, poll_read) at e)
      ]
