-- ===== src/Noise/Frames.antt =====
-- Frames on the wire: a list of messages under successive nonces, each sealed once.
use shardscape.Base.{
  ℕ, suc, ◌+◌, ◌%◌, ◌/◌, ◌^◌, ◌≤◌, ◌<◌, ltb, ◌≡◌, refl, sym, ap, ◌∙◌, subst, List, [], ◌∷◌, ◌++◌,
  append_assoc, Bytes, none, some, length, take, drop, length-append, take-append_le,
  drop-append_le, take-append_length, drop-append_length, arith, Bool-cases, inl, inr, false,
}
use shardscape.Noise.{Cipher, u16_be, from_be, split_frame}

-- What is asked of the two ends' transports: what one end seals a message to is opened to it by the other
-- under the same nonce, and has at most 65535 bytes.
pub record CipherLaws (sender receiver : Cipher) : Type 0 where
  pub opens :
      (n : ℕ) (p c : Bytes) → sender.write_message n p ≡ some c → receiver.read_message n c ≡ some p
  pub short : (n : ℕ) (p c : Bytes) → sender.write_message n p ≡ some c → length c < 2 ^ 16

module _ (cipher : Cipher) where
  -- The bytes are the frames of the messages, sealed under the nonces from the given one on.
  abbrev pub Frames : ℕ → List Bytes → Bytes → Type 0
  Frames n [] wire = wire ≡ []
  Frames n (p ∷ ps) wire =
      (sealed : Bytes) × (rest : Bytes) × (cipher.write_message n p ≡ some sealed)
      × (wire ≡ u16_be (length sealed) ++ (sealed ++ rest))
      × Frames (suc n) ps rest

  pub Frames-append :
      (n m : ℕ) (ps qs : List Bytes) (v w : Bytes)
      → m ≡ n + length ps
      → Frames n ps v
      → Frames m qs w
      → Frames n (ps ++ qs) (v ++ w)
  Frames-append n m [] qs v w e h k =
      let same : m ≡ n = omega arith in rw h (subst (λ i. Frames i qs w) same k)
  Frames-append n m (p ∷ ps) qs v w e (sealed, rest, s, f, more) k = (
    sealed,
    rest ++ w,
    s,
    ap (λ x. x ++ w) f ∙ ap (λ x. u16_be (length sealed) ++ x) (assoc sealed rest w),
    Frames-append (suc n) m ps qs rest w (omega arith) more k,
  )
    where
      assoc : (a b c : Bytes) → (a ++ b) ++ c ≡ a ++ (b ++ c)
      assoc a b c = rw append_assoc

  -- A frame that was taken from the front is the next message.
  pub split_frame-Frames :
      (receiver : Cipher) (n : ℕ) (ps : List Bytes) (arrived more frame left : Bytes)
      → CipherLaws cipher receiver
      → Frames n ps (arrived ++ more)
      → split_frame arrived ≡ some (frame, left)
      → (p : Bytes) × (qs : List Bytes) × (ps ≡ p ∷ qs)
        × (cipher.write_message n p ≡ some frame)
        × Frames (suc n) qs (left ++ more)
  unfolding split_frame
  split_frame-Frames receiver n ps [] more frame left law h e = absurd (cc (e))
  split_frame-Frames receiver n ps (hi ∷ []) more frame left law h e = absurd (cc (e))
  split_frame-Frames receiver n [] (hi ∷ lo ∷ arrived) more frame left law h e = absurd (cc (h))
  split_frame-Frames receiver n (p ∷ ps) (hi ∷ lo ∷ arrived) more frame left law
        (sealed, rest, s, f, frames) e =
      let high : hi ≡ length sealed % 2 ^ 16 / 256 = cc (f) in
      let low : lo ≡ length sealed % 256 = cc (f) in
      let body : arrived ++ more ≡ sealed ++ rest = cc (f) in
      let size : from_be hi lo ≡ length sealed = omega (arith, high, low, law.short n p sealed s) in
      elim (Bool-cases (ltb (length arrived) (from_be hi lo))) [
        | inl cut ↦
            absurd (let q : none ≡ some (frame, left) = rw (cut, split_frame) at e in cc (q))
        | inr fits ↦
            let le : length sealed ≤ length arrived = ground (arith, size, fits) in
            let q : some (take (length sealed) arrived, drop (length sealed) arrived)
                ≡ some (frame, left) =
              rw size at (rw (fits, split_frame) at e) in
            let taken : take (length sealed) arrived ≡ sealed =
              sym (take-append_le (length sealed) arrived more le)
              ∙ ap (take (length sealed)) body
              ∙ take-append_length sealed rest in
            let left_over : drop (length sealed) arrived ++ more ≡ rest =
              sym (drop-append_le (length sealed) arrived more le)
              ∙ ap (drop (length sealed)) body
              ∙ drop-append_length sealed rest in
            let same : sealed ≡ frame = sym taken ∙ cc (q) in
            let next : left ≡ drop (length sealed) arrived = cc (q) in
            (p, ps, refl, s ∙ ap some same, rw next (rw left_over frames))
      ]

  -- Where every byte of the messages has arrived, a frame can be taken while a message is left.
  pub split_frame-none :
      (receiver : Cipher) (n : ℕ) (ps : List Bytes) (arrived : Bytes)
      → CipherLaws cipher receiver
      → Frames n ps arrived
      → split_frame arrived ≡ none
      → ps ≡ []
  unfolding split_frame
  split_frame-none receiver n [] arrived law h e = refl
  split_frame-none receiver n (p ∷ ps) arrived law (sealed, rest, s, f, frames) e =
      let size : from_be (length sealed % 2 ^ 16 / 256) (length sealed % 256) ≡ length sealed =
        omega (arith, law.short n p sealed s) in
      let fits : ltb (length (sealed ++ rest)) (length sealed) ≡ false =
        ground (arith, length-append sealed rest) in
      absurd (
        let q : some (take (length sealed) (sealed ++ rest), drop (length sealed) (sealed ++ rest))
            ≡ none =
          rw (size, fits) at (rw f at e) in
        cc (q))
