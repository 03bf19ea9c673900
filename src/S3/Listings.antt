-- ===== src/S3/Listings.antt =====
-- The listing handlers of src/storage.rs, over `list_page`.
use shardscape.Base.{
  ℕ, ℤ, pos, negsuc, max, ◌+◌, Bytes, text, Option, none, some, map, length, Result, ok, err,
  if◌then◌else◌,
}
use shardscape.Delimiter.{Page, list_page}
use shardscape.Distributed.{Site}
use shardscape.S3.{S3Result, done, failed, crash, authorize}
use shardscape.S3.Copy.{quoted}
use shardscape.Store.{Crates}

-- `max_keys.unwrap_or(1000).max(1) as usize`
abbrev pub page_size : Option ℤ → ℕ
page_size none = 1000
page_size (some (pos n)) = max n 1
page_size (some (negsuc n)) = 1

abbrev pub or_else : Option Bytes → Option Bytes → Option Bytes
or_else (some a) b = some a
or_else none b = b

-- What the three listings answer, with the echoes of the request left out: `version_marker` is only in
-- the listing of versions, and `key_count` only in that of version 2.
pub record Listing : Type 0 where
  pub page : Page
  pub key_count : ℕ
  pub max_keys : ℕ
  pub version_marker : Option Bytes

abbrev pub with_quotes : Page → Page
with_quotes page = record page {
  objects = map (λ (o : Bytes × ℤ × Bytes). (o.0, o.1, quoted o.2)) page.objects;
}

abbrev pub listed : ℕ → Result Page → S3Result Listing
listed max_keys (err e) = failed (crash e)
listed max_keys (ok page) = done (record {
  page = with_quotes page;
  key_count = length page.objects + length page.prefixes;
  max_keys = max_keys;
  version_marker = if page.is_truncated then some (text "null") else none;
})

module _ {V J D : Type 0} (crates : Crates V J) where
  -- The continuation token goes before `start_after`.
  unfoldable pub list_objects_v2 :
      Site J D
      → Option Bytes
      → Bytes
      → Option Bytes
      → Option Bytes
      → Option Bytes
      → Option Bytes
      → Option ℤ
      → S3Result Listing
  list_objects_v2 site credentials bucket prefix continuation_token start_after delimiter max_keys =
      elim (authorize crates site.store credentials (text "s3:ListBucket") (some bucket) none) [
        | failed e ↦ failed e
        | done _ ↦ listed (page_size max_keys) (
            list_page site.store bucket prefix (or_else continuation_token start_after) delimiter
              (page_size max_keys))
      ]

  unfoldable pub list_object_versions :
      Site J D
      → Option Bytes
      → Bytes
      → Option Bytes
      → Option Bytes
      → Option Bytes
      → Option ℤ
      → S3Result Listing
  list_object_versions site credentials bucket prefix key_marker delimiter max_keys =
      elim (authorize crates site.store credentials (text "s3:ListBucketVersions") (some bucket)
        none) [
          | failed e ↦ failed e
          | done _ ↦
              listed (page_size max_keys)
                (list_page site.store bucket prefix key_marker delimiter (page_size max_keys))
        ]

  -- The first version of the listing; its body writes out the steps of `list_page` once more.
  unfoldable pub list_objects_handler :
      Site J D
      → Option Bytes
      → Bytes
      → Option Bytes
      → Option Bytes
      → Option Bytes
      → Option ℤ
      → S3Result Listing
  list_objects_handler site credentials bucket prefix marker delimiter max_keys =
      elim (authorize crates site.store credentials (text "s3:ListBucket") (some bucket) none) [
        | failed e ↦ failed e
        | done _ ↦
            listed (page_size max_keys)
              (list_page site.store bucket prefix marker delimiter (page_size max_keys))
      ]
