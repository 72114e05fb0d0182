-- ===== src/Storage/Objects/Links.antt =====
-- The links that an upload of src/modules/storage/storage.service.ts hands out.
use ios_backend.Base.{
  true, some, [], ◌≡◌, ◌≢◌, refl, ap, ◌∙◌, Option-cases, Outcome-cases, inl, inr, arith, Result, ok,
  err,
}
use ios_backend.Mail.Escaping.{Text}
use ios_backend.Storage.Keys.{apply_prefix}
use ios_backend.Storage.Objects.{
  BucketKind, ObjectStore, StorageConfig, UploadResult, get_signed_url, link_of,
  rewrite_to_public_base, upload_object, default_signed_url_ttl,
}

url_of : {S : Type 0} → Result UploadResult × S → Text
url_of (ok r, t) = r.url
url_of (err e, t) = []

-- An upload that is answered has a link, and hands it out.
upload_link :
    (s3 : ObjectStore) (env : StorageConfig) (kind : BucketKind) (key body : Text) (s t : s3.Store)
    (r : UploadResult)
    → upload_object s3 env kind key body s ≡ (ok r, t)
    → (u v : s3.Store) × (link_of s3 env kind key u ≡ (ok r.url, v))
unfolding upload_object url_of
upload_link s3 env kind key body s t r h =
    elim (Option-cases (s3.put (env.buckets kind) (apply_prefix env.key_prefix key) body s)) [
      | inl rejected ↦ absurd (ground (arith, rejected))
      | inr (u, stored) ↦ elim (Outcome-cases (link_of s3 env kind key u)) [
        | inr (e, v, failed) ↦ absurd (ground (arith, stored, failed))
        | inl (url, v, linked) ↦
            let answer : (ok (record { bucket = env.buckets kind; key = key; url = url }), v)
                ≡ (ok r, t) =
              ground (arith, stored, linked) in
            (u, v, linked ∙ ap (λ w. (ok w, v)) (ap url_of answer))
      ]
    ]

signed_of :
    (s3 : ObjectStore) (env : StorageConfig) (kind : BucketKind) (key url : Text) (u v : s3.Store)
    → get_signed_url s3 env kind key default_signed_url_ttl u ≡ (ok url, v)
    → (signed : Text) × (s3.sign true
          (env.buckets kind)
          (apply_prefix env.key_prefix key)
          default_signed_url_ttl
        ≡ some signed)
      × (url ≡ rewrite_to_public_base env signed)
unfolding get_signed_url
signed_of s3 env kind key url u v h =
    elim (Option-cases
      (s3.sign true (env.buckets kind) (apply_prefix env.key_prefix key) default_signed_url_ttl)) [
        | inl none_made ↦ absurd (ground (arith, none_made))
        | inr (signed, made) ↦ (signed, made, ground (arith, made))
      ]

-- An object of a private bucket is handed out under a signed link of an hour only.
pub upload_object-signed :
    (s3 : ObjectStore) (env : StorageConfig) (kind : BucketKind) (key body : Text) (s t : s3.Store)
    (r : UploadResult)
    → kind ≢ BucketKind.certificates
    → upload_object s3 env kind key body s ≡ (ok r, t)
    → (signed : Text) × (s3.sign true
          (env.buckets kind)
          (apply_prefix env.key_prefix key)
          default_signed_url_ttl
        ≡ some signed)
      × (r.url ≡ rewrite_to_public_base env signed)
upload_object-signed s3 env BucketKind.certificates key body s t r private_ h =
    absurd (private_ refl)
upload_object-signed s3 env BucketKind.media key body s t r private_ h =
    let (u, v, linked) = upload_link s3 env BucketKind.media key body s t r h in
    signed_of s3 env BucketKind.media key r.url u v linked
upload_object-signed s3 env BucketKind.videos key body s t r private_ h =
    let (u, v, linked) = upload_link s3 env BucketKind.videos key body s t r h in
    signed_of s3 env BucketKind.videos key r.url u v linked
