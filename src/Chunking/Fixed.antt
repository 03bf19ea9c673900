-- ===== src/Chunking/Fixed.antt =====
-- Blocks of a fixed size.
use shardscape.Base.{
  ℕ, zero, suc, ◌≤◌, ◌<◌, ◌≡◌, refl, Bytes, List, [], ◌∷◌, ◌++◌, ok, err, diverges, length, take,
  drop, leb, concat, All, arith, Bool-cases, inl, inr, take-append-drop, length-take, length-drop,
  append_assoc,
}
use mathlib.Core.Path.{ap₂}
use shardscape.Base.{ap, sym, ◌∙◌, length-append, take-append_length, drop-append_length}
use shardscape.Chunking.{fixed_loop, fixed_size_strategy}

-- What is left and what was taken, when the loop has ended.
pub record IsCut (chunk_size : ℕ) (buffer : Bytes) (blocks : List Bytes) (rest : Bytes)
    : Type 0 where
  pub whole : concat blocks ++ rest ≡ buffer
  pub full : All (λ b. length b ≡ chunk_size) blocks
  pub short : length rest < chunk_size

fixed_loop-IsCut :
    (fuel chunk_size : ℕ) (buffer : Bytes)
    → 0 < chunk_size
    → length buffer < fuel
    → (blocks : List Bytes) × (rest : Bytes) × (fixed_loop fuel chunk_size buffer
        ≡ ok (blocks, rest))
      × IsCut chunk_size buffer blocks rest
unfolding fixed_loop
fixed_loop-IsCut zero chunk_size buffer p h = elim h [ ]
fixed_loop-IsCut (suc fuel) chunk_size buffer p h =
    elim (Bool-cases (leb chunk_size (length buffer))) [
      | inl more ↦
          let (blocks, rest, e, c) = fixed_loop-IsCut fuel chunk_size (drop chunk_size buffer) p (
            let le : chunk_size ≤ length buffer = ground arith in
            omega (arith, length-drop chunk_size buffer)) in
          (
            take chunk_size buffer ∷ blocks,
            rest,
            rw (more, fixed_loop) (rw e),
            record {
              whole = rw (append_assoc) (rw (c.whole) (take-append-drop chunk_size buffer));
              full = (
                let le : chunk_size ≤ length buffer = ground arith in
                    omega (arith, length-take chunk_size buffer),
                c.full,
              );
              short = c.short;
            },
          )
      | inr done ↦ (
        [],
        buffer,
        rw (done, fixed_loop),
        record { whole = refl; full = tt; short = ground arith },
      )
    ]

-- With a positive chunk size `process` ends, and returns full blocks in order and a rest that is
-- shorter than a block.
pub process-IsCut :
    (chunk_size : ℕ) (buffer : Bytes)
    → 0 < chunk_size
    → (blocks : List Bytes) × (rest : Bytes) × ((fixed_size_strategy chunk_size).process buffer
        ≡ ok (blocks, rest))
      × IsCut chunk_size buffer blocks rest
unfolding fixed_size_strategy
process-IsCut chunk_size buffer p =
    fixed_loop-IsCut (suc (length buffer)) chunk_size buffer p (omega arith)

-- With a chunk size of zero the loop takes empty blocks for ever.
pub fixed_loop_zero : (fuel : ℕ) (buffer : Bytes) → fixed_loop fuel 0 buffer ≡ err diverges
unfolding fixed_loop
fixed_loop_zero zero buffer = refl
fixed_loop_zero (suc fuel) buffer = ground (arith, fixed_loop_zero fuel buffer)

too_short : (n : ℕ) (b more rest : Bytes) → length b ≡ n → length rest < n → rest ≡ b ++ more → ⊥
too_short n b more rest h k e = omega (arith, length-append b more, ap length e)

-- There is one way to cut a buffer into blocks of a size and a shorter rest.
pub IsCut-unique :
    (chunk_size : ℕ) (buffer : Bytes) (blocks blocks' : List Bytes) (rest rest' : Bytes)
    → IsCut chunk_size buffer blocks rest
    → IsCut chunk_size buffer blocks' rest'
    → (blocks ≡ blocks') × (rest ≡ rest')
IsCut-unique n buffer [] [] rest rest' c d = (refl, c.whole ∙ sym d.whole)
IsCut-unique n buffer [] (b ∷ bs) rest rest' c d = absurd (
    too_short n b (concat bs ++ rest') rest d.full.0 c.short
      (c.whole ∙ sym d.whole ∙ append_assoc b (concat bs) rest'))
IsCut-unique n buffer (b ∷ bs) [] rest rest' c d = absurd (
    too_short n b (concat bs ++ rest) rest' c.full.0 d.short
      (d.whole ∙ sym c.whole ∙ append_assoc b (concat bs) rest))
IsCut-unique n buffer (b ∷ bs) (b' ∷ bs') rest rest' c d =
    let same : b ++ (concat bs ++ rest) ≡ b' ++ (concat bs' ++ rest') =
      sym (append_assoc b (concat bs) rest)
      ∙ c.whole
      ∙ sym d.whole
      ∙ append_assoc b' (concat bs') rest' in
    let head : b ≡ b' =
      sym (take-append_length b (concat bs ++ rest))
      ∙ ap₂ take (c.full.0 ∙ sym d.full.0) same
      ∙ take-append_length b' (concat bs' ++ rest') in
    let tail : concat bs ++ rest ≡ concat bs' ++ rest' =
      sym (drop-append_length b (concat bs ++ rest))
      ∙ ap₂ drop (c.full.0 ∙ sym d.full.0) same
      ∙ drop-append_length b' (concat bs' ++ rest') in
    let (blocks_eq, rest_eq) =
      IsCut-unique n (concat bs' ++ rest') bs bs' rest rest'
        (record { whole = tail; full = c.full.1; short = c.short })
        (record { whole = refl; full = d.full.1; short = d.short }) in
    (ap₂ ◌∷◌ head blocks_eq, rest_eq)
