-- ===== src/Internal/Registered.antt =====
-- A node that registers itself is recorded under the id and the address that it sent.
use shardscape.Base.{ℕ, ◌≡◌, Bool, true, not, ◌&&◌, Bytes, all, nat_beq, list_eq, nat_eq}
use shardscape.Hashing.Utf8.{is_utf8}
use shardscape.Internal.Query.{is_full}

-- A byte that a query carries as it is.
abbrev pub is_plain : ℕ → Bool
is_plain c = not (nat_beq c b'%') && not (nat_beq c b'+') && not (nat_beq c b'&')

-- A text in UTF-8, not empty, that a query carries as it is.
pub record Plain (s : Bytes) : Type 0 where
  pub full : is_full s ≡ true
  pub utf8 : is_utf8 s ≡ true
  pub plain : all is_plain s ≡ true
