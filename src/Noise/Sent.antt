-- ===== src/Noise/Sent.antt =====
-- What a writer has put on the wire or into its buffer: each accepted byte sealed once, in order.
use shardscape.Base.{
  true, false, ℕ, zero, suc, ◌≤◌, ◌<◌, ◌≡◌, refl, sym, ap, ◌∙◌, subst, ◌⊎◌, inl, inr, List, [], ◌∷◌,
  ◌++◌, append_assoc, append-nil, Bytes, Option-cases, length, take, drop, concat, concat-append,
  length-append, length-drop, take-append-drop, arith,
}
use shardscape.Noise.{
  Cipher, Poll, pending, failed, ready, Room, stalls, breaks, takes, NoiseStream, IoError, u16_be,
}
use shardscape.Noise.Writer.{flush, flush_write_cipher, chunks, encrypt}
use shardscape.Noise.Frames.{Frames, Frames-append}

pub Poll-cases :
    {A : Type 0} (r : Poll A)
    → (r ≡ pending) ⊎ (((e : IoError) × (r ≡ failed e)) ⊎ ((a : A) × (r ≡ ready a)))
Poll-cases pending = inl refl
Poll-cases (failed e) = inr (inl (e, refl))
Poll-cases (ready a) = inr (inr (a, refl))

assoc : (a b c : Bytes) → (a ++ b) ++ c ≡ a ++ (b ++ c)
assoc a b c = rw append_assoc

flush_whole :
    (rooms : List Room) (wire cipher : Bytes)
    → (flush rooms wire cipher).wire ++ (flush rooms wire cipher).write_cipher ≡ wire ++ cipher
unfolding flush
flush_whole rooms wire [] = refl
flush_whole [] wire (b ∷ cipher) = refl
flush_whole (stalls ∷ rooms) wire (b ∷ cipher) = refl
flush_whole (breaks ∷ rooms) wire (b ∷ cipher) = refl
flush_whole (takes zero ∷ rooms) wire (b ∷ cipher) = refl
flush_whole (takes (suc n) ∷ rooms) wire (b ∷ cipher) =
    flush_whole rooms (wire ++ take (suc n) (b ∷ cipher)) (drop (suc n) (b ∷ cipher))
    ∙ assoc wire (take (suc n) (b ∷ cipher)) (drop (suc n) (b ∷ cipher))
    ∙ ap (λ x. wire ++ x) (take-append-drop (suc n) (b ∷ cipher))

pub concat-chunks :
    (fuel n : ℕ) (buf : Bytes) → 0 < n → length buf ≤ fuel → concat (chunks fuel n buf) ≡ buf
unfolding chunks
concat-chunks zero n [] p h = refl
concat-chunks zero n (b ∷ buf) p h = absurd (omega arith)
concat-chunks (suc fuel) n [] p h = refl
concat-chunks (suc fuel) n (b ∷ buf) p h =
    ap (λ x. take n (b ∷ buf) ++ x)
      (concat-chunks fuel n (drop n (b ∷ buf)) p (omega (arith, length-drop n (b ∷ buf))))
    ∙ take-append-drop n (b ∷ buf)

-- The parts of a stream that writing leaves alone.
pub record SameReader (s t : NoiseStream) : Type 0 where
  pub received : t.received ≡ s.received
  pub read_plain : t.read_plain ≡ s.read_plain
  pub read_cipher : t.read_cipher ≡ s.read_cipher
  pub arrivals : t.inner.arrivals ≡ s.inner.arrivals

pub SameReader-trans : (s t u : NoiseStream) → SameReader s t → SameReader t u → SameReader s u
SameReader-trans s t u h k = record {
  received = k.received ∙ h.received;
  read_plain = k.read_plain ∙ h.read_plain;
  read_cipher = k.read_cipher ∙ h.read_cipher;
  arrivals = k.arrivals ∙ h.arrivals;
}

same_reader : (s : NoiseStream) → SameReader s s
same_reader s = record { received = refl; read_plain = refl; read_cipher = refl; arrivals = refl }

pub flush-SameReader : (s : NoiseStream) → SameReader s (flush_write_cipher s).1
unfolding flush_write_cipher
flush-SameReader s = record {
  received = refl;
  read_plain = refl;
  read_cipher = refl;
  arrivals = refl;
}

module _ (cipher : Cipher) where
  -- The state of a writer that has accepted some bytes.
  pub record Sent (s : NoiseStream) (bytes : Bytes) : Type 0 where
    pub messages : List Bytes
    pub whole : concat messages ≡ bytes
    pub counted : s.sent ≡ length messages
    pub framed : Frames cipher 0 messages (s.inner.wire ++ s.write_cipher)

  pub flush-Sent :
      (s : NoiseStream) (bytes : Bytes) → Sent s bytes → Sent (flush_write_cipher s).1 bytes
  unfolding flush_write_cipher
  flush-Sent s bytes h = record {
    messages = h.messages;
    whole = h.whole;
    counted = h.counted;
    framed =
        subst (Frames cipher 0 h.messages)
          (sym (flush_whole s.inner.rooms s.inner.wire s.write_cipher)) h.framed;
  }

  pub encrypt-SameReader :
      (ps : List Bytes) (s : NoiseStream) → SameReader s (encrypt cipher ps s).1
  unfolding encrypt
  encrypt-SameReader [] s = same_reader s
  encrypt-SameReader (p ∷ ps) s = elim (Option-cases (cipher.write_message s.sent p)) [
    | inl e ↦ rw (e, encrypt) (same_reader s)
    | inr (sealed, e) ↦
        let next : NoiseStream = record s {
          sent = suc s.sent;
          write_cipher = s.write_cipher ++ (u16_be (length sealed) ++ sealed);
        } in
        rw (e, encrypt)
          (SameReader-trans s next _
            (record { received = refl; read_plain = refl; read_cipher = refl; arrivals = refl })
            (encrypt-SameReader ps next))
  ]

  pub encrypt-Sent :
      (ps : List Bytes) (s : NoiseStream) (bytes : Bytes)
      → Sent s bytes
      → (encrypt cipher ps s).0 ≡ true
      → Sent (encrypt cipher ps s).1 (bytes ++ concat ps)
  unfolding encrypt
  encrypt-Sent [] s bytes h e = subst (λ b. Sent s b) (sym (append-nil bytes)) h
  encrypt-Sent (p ∷ ps) s bytes h e = elim (Option-cases (cipher.write_message s.sent p)) [
    | inl f ↦ absurd (let q : false ≡ true = rw (f, encrypt) at e in cc (q))
    | inr (sealed, f) ↦
        let next : NoiseStream = record s {
          sent = suc s.sent;
          write_cipher = s.write_cipher ++ (u16_be (length sealed) ++ sealed);
        } in
        let frame : Frames cipher s.sent (p ∷ []) (u16_be (length sealed) ++ sealed) =
          (sealed, [], f, ap (λ x. u16_be (length sealed) ++ x) (sym (append-nil sealed)), refl) in
        let kept : Sent next (bytes ++ p) = record {
          messages = h.messages ++ (p ∷ []);
          whole =
              concat-append h.messages (p ∷ []) ∙ rw h.whole (ap (λ x. bytes ++ x) (append-nil p));
          counted = omega (arith, h.counted, length-append h.messages (p ∷ []));
          framed =
              subst (Frames cipher 0 (h.messages ++ (p ∷ [])))
                (assoc s.inner.wire s.write_cipher (u16_be (length sealed) ++ sealed))
                (Frames-append cipher 0 s.sent h.messages (p ∷ []) _ _ (omega (arith, h.counted))
                  h.framed frame);
        } in
        rw (f, encrypt)
          (subst (λ b. Sent (encrypt cipher ps next).1 b) (assoc bytes p (concat ps))
            (encrypt-Sent ps next (bytes ++ p) kept (rw (f, encrypt) at e)))
  ]
