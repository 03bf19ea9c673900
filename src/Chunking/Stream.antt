-- ===== src/Chunking/Stream.antt =====
-- The upload loop of src/storage.rs (`put_object`, `upload_part`) as far as it cuts the body: pieces
-- come in, each is added to the buffer, and what `process` takes goes out; `finalize` takes the rest.
use shardscape.Base.{
  ℕ, ◌<◌, ◌≡◌, refl, ap, sym, ◌∙◌, Bytes, List, [], ◌∷◌, ◌++◌, Option, none, some, Result, ok,
  ◌>>=◌, length, concat, All-append, append_assoc, append-nil, concat-append,
}
use shardscape.Chunking.{ChunkingStrategy, fixed_size_strategy, finalize}
use shardscape.Chunking.Fixed.{IsCut, process-IsCut, IsCut-unique}

-- The blocks that leave the loop, and the buffer at its end.
unfoldable pub feed : ChunkingStrategy → List Bytes → Bytes → Result (List Bytes × Bytes)
feed chunker [] buffer = ok ([], buffer)
feed chunker (piece ∷ body) buffer = chunker.process (buffer ++ piece) >>= λ taken.
    feed chunker body taken.1 >>= λ later. ok (taken.0 ++ later.0, later.1)

abbrev pub last_block : Option Bytes → List Bytes
last_block none = []
last_block (some block) = block ∷ []

-- All blocks of a body.
unfoldable pub blocks_of : ChunkingStrategy → List Bytes → Result (List Bytes)
unfolding feed
blocks_of chunker body =
    feed chunker body [] >>= λ out. ok (out.0 ++ last_block (chunker.finalize out.1).0)

IsCut-append :
    (n : ℕ) (buffer more : Bytes) (blocks later : List Bytes) (rest rest' : Bytes)
    → IsCut n buffer blocks rest
    → IsCut n (rest ++ more) later rest'
    → IsCut n (buffer ++ more) (blocks ++ later) rest'
IsCut-append n buffer more blocks later rest rest' c d = record {
  whole =
      ap (λ (x : Bytes). x ++ rest') (concat-append blocks later)
      ∙ append_assoc (concat blocks) (concat later) rest'
      ∙ ap (◌++◌ (concat blocks)) d.whole
      ∙ sym (append_assoc (concat blocks) rest more)
      ∙ ap (λ (x : Bytes). x ++ more) c.whole;
  full = All-append (λ b. length b ≡ n) blocks later c.full d.full;
  short = d.short;
}

feed-IsCut :
    (n : ℕ) (body : List Bytes) (buffer : Bytes)
    → 0 < n
    → length buffer < n
    → (blocks : List Bytes) × (rest : Bytes) × (feed (fixed_size_strategy n) body buffer
        ≡ ok (blocks, rest))
      × IsCut n (buffer ++ concat body) blocks rest
unfolding feed
feed-IsCut n [] buffer p h =
    ([], buffer, refl, record { whole = sym (append-nil buffer); full = tt; short = h })
feed-IsCut n (piece ∷ body) buffer p h =
    let (blocks, rest, e, c) = process-IsCut n (buffer ++ piece) p in
    let (later, rest', f, d) = feed-IsCut n body rest p c.short in
    (
      blocks ++ later,
      rest',
      rw e (rw f),
      rw (← append_assoc)
          (IsCut-append n (buffer ++ piece) (concat body) blocks later rest rest' c d),
    )

-- With a positive chunk size, how the body is split into pieces on its way in has no influence on
-- its blocks.
pub blocks_of_pieces :
    (n : ℕ) (body : List Bytes)
    → 0 < n
    → blocks_of (fixed_size_strategy n) body ≡ blocks_of (fixed_size_strategy n) (concat body ∷ [])
unfolding blocks_of
blocks_of_pieces n body p =
    let (blocks, rest, e, c) = feed-IsCut n body [] p p in
    let (blocks', rest', f, d) = feed-IsCut n (concat body ∷ []) [] p p in
    let (g, h) = IsCut-unique n (concat body) blocks blocks' rest rest' c (rw append-nil at d) in
    rw e (rw f (rw (g, h)))

last_block-finalize : (rest : Bytes) → concat (last_block (finalize rest).0) ≡ rest
unfolding finalize
last_block-finalize [] = refl
last_block-finalize (b ∷ rest) = append-nil (b ∷ rest)

-- With a positive chunk size, the blocks of a body, one after the other, are the body.
pub concat-blocks_of :
    (n : ℕ) (body : List Bytes)
    → 0 < n
    → (blocks : List Bytes) × (blocks_of (fixed_size_strategy n) body ≡ ok blocks)
      × (concat blocks ≡ concat body)
unfolding blocks_of fixed_size_strategy
concat-blocks_of n body p =
    let (blocks, rest, e, c) = feed-IsCut n body [] p p in
    (
      blocks ++ last_block (finalize rest).0,
      rw e,
      concat-append blocks (last_block (finalize rest).0)
          ∙ ap (◌++◌ (concat blocks)) (last_block-finalize rest)
          ∙ c.whole,
    )
