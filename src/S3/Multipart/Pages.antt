-- ===== src/S3/Multipart/Pages.antt =====
-- `list_parts` and `list_multipart_uploads` of src/storage.rs.
use shardscape.Base.{
  ℕ, ℤ, pos, List, Bytes, text, Option, none, some, Bool, and_then, map, length, take, keep,
  get_last?, option_map, ltb, ltb_ℤ, if◌then◌else◌, parse_i32,
}
use shardscape.Distributed.{Site}
use shardscape.S3.{S3Result, done, failed, authorize}
use shardscape.S3.Copy.{quoted}
use shardscape.S3.Listings.{page_size}
use shardscape.S3.Multipart.{upload_of}
use shardscape.Store.{Crates}
use shardscape.Store.Multipart.{Part, list_parts, list_multipart_uploads}

-- A page of items, whether it is truncated, and the marker of the next one.
pub record Cut (A M : Type 0) : Type 0 where
  pub items : List A
  pub is_truncated : Bool
  pub next_marker : Option M

-- The first items, with the marker of the last of them where there are more.
abbrev pub cut_page : {A M : Type 0} → (A → M) → ℕ → List A → Cut A M
cut_page marker n rows =
    let is_truncated = ltb n (length rows) in
    record {
      items = take n rows;
      is_truncated = is_truncated;
      next_marker = if is_truncated then option_map marker (get_last? (take n rows)) else none;
    }

-- `part_number_marker`: what is no `i32` counts as 0.
abbrev pub marker_or_zero : Option Bytes → ℤ
marker_or_zero marker = elim (and_then marker parse_i32) [ none ↦ pos 0 | some n ↦ n ]

-- Number, size and etag of a part.
abbrev pub shown : Part → ℤ × ℤ × Bytes
shown (n, blocks, size, etag) = (n, size, quoted etag)

module _ {V J D : Type 0} (crates : Crates V J) where
  unfoldable pub list_parts_handler :
      (Bytes → Option Bytes)
      → Site J D
      → Option Bytes
      → Bytes
      → Bytes
      → Bytes
      → Option Bytes
      → Option ℤ
      → S3Result (Cut (ℤ × ℤ × Bytes) ℤ)
  list_parts_handler parse_uuid site credentials bucket key upload_id part_number_marker max_parts =
      elim (authorize crates site.store credentials (text "s3:ListMultipartUploadParts")
        (some bucket) (some key)) [
          | failed e ↦ failed e
          | done _ ↦ elim (upload_of parse_uuid site.store bucket upload_id) [
            | failed e ↦ failed e
            | done (id, stored_key) ↦ done (
                cut_page (λ (p : ℤ × ℤ × Bytes). p.0) (page_size max_parts)
                  (map shown (
                    keep (λ (p : Part). ltb_ℤ (marker_or_zero part_number_marker) p.0)
                      (list_parts site.store bucket id))))
          ]
        ]

  -- `like` is SQLite's LIKE.
  unfoldable pub list_uploads_handler :
      (Bytes → Bytes → Bool)
      → Site J D
      → Option Bytes
      → Bytes
      → Option Bytes
      → Option Bytes
      → Option ℤ
      → S3Result (Cut (Bytes × Bytes) Bytes)
  list_uploads_handler like site credentials bucket prefix key_marker max_uploads =
      elim (authorize crates site.store credentials (text "s3:ListBucketMultipartUploads")
        (some bucket) none) [
          | failed e ↦ failed e
          | done _ ↦ done (
              cut_page (λ (u : Bytes × Bytes). u.0) (page_size max_uploads)
                (list_multipart_uploads like site.store bucket prefix key_marker
                  (page_size max_uploads)))
        ]
