-- ===== src/Storage/Objects.antt =====
-- The objects and links of src/modules/storage/storage.service.ts: `uploadObject`, `getPublicUrl`,
-- `getSignedUrl`, `getSignedUploadUrl`, `deleteObject`, `objectExists` and `rewriteToPublicBase`.
-- The S3 client and the class URL are parameters.
pub mod Links
pub mod RoundTrip
use ios_backend.Base.{
  ℕ, Bool, true, false, ◌||◌, Option, none, some, String, ◌==◌, List, [], ◌∷◌, ◌++◌, ◌≡◌, ◌≢◌,
  nat_eq, or_else, is_text, if◌then◌else◌, Result, ok, err, Exception, failure, Action, pure, raise,
  ◌>>=◌, ◌>>◌,
}
use ios_backend.Mail.Escaping.{Text}
use ios_backend.Mail.Tokens.{same_text}
use ios_backend.Storage.Keys.{slash, apply_prefix}

-- `BucketKind`.
pub data BucketKind : Type 0 where
  certificates media videos : BucketKind

-- An error of the S3 client: `$metadata.httpStatusCode` and `name`.
pub record S3Error : Type 0 where
  pub status : Option ℕ
  pub name : Option String

abbrev pub is_status : Option ℕ → ℕ → Bool
is_status none n = false
is_status (some m) n = nat_eq m n

-- The error of an object that is not there; any other, a 403 for one, says nothing of the object.
abbrev pub is_missing : S3Error → Bool
is_missing e = is_status e.status 404 || (is_text e.name "NotFound" || is_text e.name "NoSuchKey")

-- The S3 client, which signs links for a method (GET or PUT), a bucket, a key and a time to live.
pub record ObjectStore : Type 1 where
  pub Store : Type 0
  pub object : Store → Text → Text → Option Text
  pub put : Text → Text → Text → Store → Option Store
  pub head : Text → Text → Store → Option S3Error
  pub remove : Text → Text → Store → Option Store
  pub sign : Bool → Text → Text → ℕ → Option Text
  pub object-put : (b k v : Text) (s t : Store) → put b k v s ≡ some t → object t b k ≡ some v
  pub object-put_other :
      (b k v : Text) (s t : Store) (j : Text)
      → put b k v s ≡ some t
      → k ≢ j
      → object t b j ≡ object s b j
  pub object-remove : (b k : Text) (s t : Store) → remove b k s ≡ some t → object t b k ≡ none
  pub head_found : (b k : Text) (s : Store) → head b k s ≡ none → object s b k ≢ none
  pub head_missing :
      (b k : Text) (s : Store) (e : S3Error)
      → head b k s ≡ some e
      → is_missing e ≡ true
      → object s b k ≡ none

-- The configuration: the buckets, the endpoint, the public base without slashes at its end, the
-- key prefix as configured, and the exchange of the host of a link, which may fail.
pub record StorageConfig : Type 0 where
  pub buckets : BucketKind → Text
  pub endpoint : Text
  pub public_base_url : Text
  pub key_prefix : Text
  pub swap_host : Text → Text → Option Text

pub record UploadResult : Type 0 where
  pub bucket : Text
  pub key : Text
  pub url : Text

abbrev pub default_signed_url_ttl : ℕ
default_signed_url_ttl = 3600

unfoldable pub get_public_url : StorageConfig → BucketKind → Text → Result Text
unfolding apply_prefix
get_public_url env BucketKind.certificates key = ok (
    env.public_base_url
    ++ slash ∷ (env.buckets BucketKind.certificates ++ slash ∷ apply_prefix env.key_prefix key))
get_public_url env BucketKind.media key =
    err (failure "Bucket 'media' is not public-read; use getSignedUrl() to mint a signed URL.")
get_public_url env BucketKind.videos key =
    err (failure "Bucket 'videos' is not public-read; use getSignedUrl() to mint a signed URL.")

unfoldable pub rewrite_to_public_base : StorageConfig → Text → Text
rewrite_to_public_base env signed =
    if same_text env.endpoint env.public_base_url
    then signed
    else or_else (env.swap_host signed env.public_base_url) signed

module _ (s3 : ObjectStore) (env : StorageConfig) where
  abbrev pub signed_link : Option Text → Action s3.Store Text
  signed_link none = raise (failure "sign")
  signed_link (some signed) = pure (rewrite_to_public_base env signed)

  unfoldable pub get_signed_url : BucketKind → Text → ℕ → Action s3.Store Text
  unfolding apply_prefix rewrite_to_public_base
  get_signed_url kind key expires_in_seconds =
      signed_link
        (s3.sign true (env.buckets kind) (apply_prefix env.key_prefix key) expires_in_seconds)

  unfoldable pub get_signed_upload_url : BucketKind → Text → ℕ → Action s3.Store Text
  unfolding apply_prefix rewrite_to_public_base
  get_signed_upload_url kind key expires_in_seconds =
      signed_link
        (s3.sign false (env.buckets kind) (apply_prefix env.key_prefix key) expires_in_seconds)

  abbrev pub returned : {A : Type 0} → Result A → Action s3.Store A
  returned (ok a) = pure a
  returned (err e) = raise e

  abbrev pub link_of : BucketKind → Text → Action s3.Store Text
  link_of BucketKind.certificates key = returned (get_public_url env BucketKind.certificates key)
  link_of BucketKind.media key = get_signed_url BucketKind.media key default_signed_url_ttl
  link_of BucketKind.videos key = get_signed_url BucketKind.videos key default_signed_url_ttl

  -- A command that the client rejects throws.
  abbrev pub sent : Option s3.Store → Action s3.Store (Unit {0})
  sent none s = (err (failure "s3"), s)
  sent (some t) s = (ok tt, t)

  unfoldable pub upload_object : BucketKind → Text → Text → Action s3.Store UploadResult
  unfolding apply_prefix
  upload_object kind key body s =
      (do
        sent (s3.put (env.buckets kind) (apply_prefix env.key_prefix key) body s)
        url ← link_of kind key
        pure (record { bucket = env.buckets kind; key = key; url = url }))
        s

  unfoldable pub delete_object : BucketKind → Text → Action s3.Store (Unit {0})
  unfolding apply_prefix
  delete_object kind key s =
      sent (s3.remove (env.buckets kind) (apply_prefix env.key_prefix key) s) s

  abbrev pub existence : Option S3Error → Action s3.Store Bool
  existence none = pure true
  existence (some e) = if is_missing e then pure false else raise (failure "s3")

  unfoldable pub object_exists : BucketKind → Text → Action s3.Store Bool
  unfolding apply_prefix
  object_exists kind key s =
      existence (s3.head (env.buckets kind) (apply_prefix env.key_prefix key) s) s
