-- ===== src/S3/Access.antt =====
-- Which requests the handlers let through.
pub mod Writers
use shardscape.Base.{
  ℕ, ◌≡◌, refl, ◌⊎◌, inl, inr, Bytes, text, true, Bool-cases, List, Option, none, some, Result, ok,
  err,
}
use shardscape.Chunking.{ChunkingStrategy}
use shardscape.Disk.{DiskGuard}
use shardscape.Distributed.{BlobStore, Site}
use shardscape.Policy.{Policy, is_allowed}
use shardscape.S3.{
  S3Error, S3Result, done, failed, authorize, resource_of, put_object, delete_object_handler,
  delete_objects,
}
use shardscape.Range.{Range}
use shardscape.S3.Get.{get_object_handler}
use shardscape.S3.Body.{result-cases}
use shardscape.Store.{Store, Crates}
use shardscape.Store.Users.{get_user}

user-cases :
    (r : Result (Option (Bytes × Policy)))
    → ((e : _) × (r ≡ err e))
      ⊎ ((r ≡ ok none) ⊎ ((secret : Bytes) × (policy : Policy) × (r ≡ ok (some (secret, policy)))))
user-cases (err e) = inl (e, refl)
user-cases (ok none) = inr (inl refl)
user-cases (ok (some (secret, policy))) = inr (inr (secret, policy, refl))

module _ {V J : Type 0} (crates : Crates V J) where
  -- The request is signed by a known user whose policy allows the action.
  pub record Authorized (s : Store J) (credentials : Option Bytes) (action resource : Bytes)
      : Type 0 where
    pub access_key : Bytes
    pub secret : Bytes
    pub policy : Policy
    pub signed : credentials ≡ some access_key
    pub known : get_user crates s access_key ≡ ok (some (secret, policy))
    pub allowed : is_allowed policy action resource ≡ true

  authorize_sound :
      (s : Store J) (credentials : Option Bytes) (action : Bytes) (bucket key : Option Bytes)
      (u : Unit)
      → authorize crates s credentials action bucket key ≡ done u
      → Authorized s credentials action (resource_of bucket key)
  unfolding authorize
  authorize_sound s none action bucket key u h = absurd (cc (h))
  authorize_sound s (some access_key) action bucket key u h =
      elim (user-cases (get_user crates s access_key)) [
        | inl (e, f) ↦ absurd (let q : failed _ ≡ done u = rw (f, authorize) at h in cc (q))
        | inr (inl f) ↦ absurd (let q : failed _ ≡ done u = rw (f, authorize) at h in cc (q))
        | inr (inr (secret, policy, f)) ↦
            elim (Bool-cases (is_allowed policy action (resource_of bucket key))) [
              | inl g ↦ record {
                access_key = access_key;
                secret = secret;
                policy = policy;
                signed = refl;
                known = f;
                allowed = g;
              }
              | inr g ↦
                  absurd (let q : failed _ ≡ done u = rw g at (rw (f, authorize) at h) in cc (q))
            ]
      ]

  authorize_complete :
      (s : Store J) (credentials : Option Bytes) (action : Bytes) (bucket key : Option Bytes)
      → Authorized s credentials action (resource_of bucket key)
      → authorize crates s credentials action bucket key ≡ done tt
  unfolding authorize
  authorize_complete s credentials action bucket key a =
      rw (a.signed, authorize) (rw a.known (rw a.allowed refl))

  -- A handler that fails and leaves the site alone, unless the request is authorized.
  abbrev pub Guarded :
      {D A : Type 0}
      → Bytes
      → Option Bytes
      → Option Bytes
      → Bytes
      → Site J D
      → S3Result A × Site J D
      → Type 0
  Guarded action key credentials bucket site result =
      ((e : S3Error) × (result ≡ (failed e, site)))
      ⊎ Authorized site.store credentials action (resource_of (some bucket) key)

  authorize-cases :
      {D : Type 0} (action : Bytes) (key credentials : Option Bytes) (bucket : Bytes)
      (site : Site J D)
      → ((e : S3Error) × (authorize crates site.store credentials action (some bucket) key
            ≡ failed e))
        ⊎ Authorized site.store credentials action (resource_of (some bucket) key)
  authorize-cases action key credentials bucket site =
      elim (result-cases (authorize crates site.store credentials action (some bucket) key)) [
        | inl failing ↦ inl failing
        | inr (u, f) ↦ inr (authorize_sound site.store credentials action (some bucket) key u f)
      ]

module _ {V J D : Type 0} (crates : Crates V J) (blob : BlobStore D)
    (chunker : ChunkingStrategy) where
  -- The handlers of objects fail, and change nothing, on disk or in the store, unless a known user whose policy allows it has signed the request: `put_object`, `get_object` and `delete_object` on the object, `delete_objects` on the bucket.
  pub handlers-Guarded :
      (md5 : Bytes → Bytes) (fetch : Bytes → Bytes → Option Bytes) (site : Site J D)
      (guard : DiskGuard) (system : ℕ) (credentials : Option Bytes) (bucket key : Bytes)
      (keys : List Bytes) (body : Option (List (Option Bytes))) (range : Option Range)
      → Guarded crates
          (text "s3:PutObject")
          (some key)
          credentials
          bucket
          site
          (put_object crates blob chunker md5 site guard system credentials bucket key body)
        × Guarded crates
            (text "s3:GetObject")
            (some key)
            credentials
            bucket
            site
            (get_object_handler crates blob fetch site system credentials bucket key range)
        × Guarded crates
            (text "s3:DeleteObject")
            (some key)
            credentials
            bucket
            site
            (delete_object_handler crates blob chunker site system credentials bucket key)
        × Guarded crates
            (text "s3:DeleteObject")
            none
            credentials
            bucket
            site
            (delete_objects crates blob chunker site system credentials bucket keys)
  unfolding put_object get_object_handler delete_object_handler delete_objects
  handlers-Guarded md5 fetch site guard system credentials bucket key keys body range = (
    elim (authorize-cases crates (text "s3:PutObject") (some key) credentials bucket site) [
      | inl (e, f) ↦ inl (e, rw (f, put_object))
      | inr a ↦ inr a
    ],
    elim (authorize-cases crates (text "s3:GetObject") (some key) credentials bucket site) [
      | inl (e, f) ↦ inl (e, rw (f, get_object_handler))
      | inr a ↦ inr a
    ],
    elim (authorize-cases crates (text "s3:DeleteObject") (some key) credentials bucket site) [
      | inl (e, f) ↦ inl (e, rw (f, delete_object_handler))
      | inr a ↦ inr a
    ],
    elim (authorize-cases crates (text "s3:DeleteObject") none credentials bucket site) [
      | inl (e, f) ↦ inl (e, rw (f, delete_objects))
      | inr a ↦ inr a
    ],
  )
