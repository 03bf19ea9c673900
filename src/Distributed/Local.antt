-- ===== src/Distributed/Local.antt =====
-- `LocalBlob` of src/storage.rs: the file of a block, named by its hash. A file stands under the hash
-- itself, since distinct hashes have distinct paths; `broken` is a file system that refuses writes.
use shardscape.Base.{
  ◌≡◌, refl, Bool, Bytes, text, Option, none, some, ◌==◌, if◌then◌else◌, list_eq, nat_eq, eq_refl,
  Bool-cases, inl, inr,
}
use shardscape.Distributed.{BlobStore}
use shardscape.Distributed.Integrity.{BlobLaws}
use shardscape.Table.{Table, lookup, upsert, upserted, delete, lookup-upsert, lookup-delete_where}

pub record Files : Type 0 where
  pub files : Table Bytes Bytes
  pub broken : Bool

-- The bytes go to a temporary file, which is then renamed: the block's file is whole or unchanged.
unfoldable pub put : Files → Bytes → Bytes → Option Bytes × Files
put d hash bytes =
    if d.broken
    then (none, d)
    else (some (text "local"), record d { files = upsert hash bytes (λ old. bytes) d.files })

unfoldable pub get : Files → Bytes → Bytes → Option Bytes
get d hash fid = lookup hash d.files

unfoldable pub delete_file : Files → Bytes → Bytes → Files
delete_file d hash fid = record d { files = delete hash d.files }

abbrev pub local_blob : BlobStore Files
local_blob = record { put = put; get = get; delete = delete_file }

replaced : (o : Option Bytes) (bytes : Bytes) → upserted bytes (λ old. bytes) o ≡ bytes
replaced none bytes = refl
replaced (some old) bytes = refl

pub local_blob-BlobLaws : BlobLaws local_blob
unfolding put get
local_blob-BlobLaws = record {
  put-get = λ d h bytes fid e. elim (Bool-cases d.broken) [
    | inl broken ↦ absurd (let q : none ≡ some fid = rw broken at e in cc (q))
    | inr fine ↦
        rw
          (
            fine,
            lookup-upsert h h bytes (λ old. bytes) d.files,
            eq_refl h,
            replaced (lookup h d.files) bytes,
          )
          refl
  ];
  put-other = λ d h bytes k fid e. elim (Bool-cases d.broken) [
    | inl broken ↦ rw broken refl
    | inr fine ↦ rw (fine, lookup-upsert h k bytes (λ old. bytes) d.files, e) refl
  ];
  put-failed = λ d h bytes fid e. elim (Bool-cases d.broken) [
    | inl broken ↦ rw broken refl
    | inr fine ↦ absurd (let q : some (text "local") ≡ none = rw fine at e in cc (q))
  ];
}

-- A block whose file is deleted is gone, and no other.
pub get-delete_file :
    (d : Files) (hash fid h f : Bytes)
    → get (delete_file d hash fid) h f ≡ (if h == hash then none else get d h f)
unfolding get delete_file
get-delete_file d hash fid h f = lookup-delete_where (λ j. j == hash) h d.files
