-- ===== src/Storage/Objects/RoundTrip.antt =====
-- Uploading, looking up and deleting through src/modules/storage/storage.service.ts.
use ios_backend.Base.{
  true, false, none, some, [], ◌∷◌, ◌++◌, ◌≡◌, ◌≢◌, refl, sym, ap, ◌∙◌, Bool-cases, Option-cases,
  Outcome-cases, inl, inr, arith, ok, Bool, is_some,
}
use mathlib.Core.List.{append_cancel_left}
use ios_backend.Mail.Escaping.{Text}
use ios_backend.Storage.Keys.{slash, apply_prefix, normalize_key, trim_slashes, is_full}
use ios_backend.Storage.Objects.{
  BucketKind, ObjectStore, StorageConfig, UploadResult, is_missing, link_of, upload_object,
  object_exists, delete_object, get_public_url, get_signed_url, default_signed_url_ttl,
}

tail_of : Text → Text
tail_of [] = []
tail_of (c ∷ s) = s

-- One environment's prefix keeps different keys apart.
apply_prefix-normalize :
    (configured k j : Text)
    → apply_prefix configured k ≡ apply_prefix configured j
    → normalize_key k ≡ normalize_key j
unfolding apply_prefix tail_of
apply_prefix-normalize configured k j h = elim (Bool-cases (is_full (trim_slashes configured))) [
  | inl e ↦
      let joined : trim_slashes configured ++ slash ∷ normalize_key k
          ≡ trim_slashes configured ++ slash ∷ normalize_key j =
        rw e at h in
      ap tail_of (append_cancel_left (trim_slashes configured) _ _ joined)
  | inr e ↦ let bare : normalize_key k ≡ normalize_key j = rw e at h in bare
]

-- Making a link leaves the objects alone.
link_store :
    (s3 : ObjectStore) (env : StorageConfig) (kind : BucketKind) (key : Text) (u : s3.Store)
    → (link_of s3 env kind key u).1 ≡ u
unfolding get_signed_url get_public_url
link_store s3 env BucketKind.certificates key u = refl
link_store s3 env BucketKind.media key u =
    elim (Option-cases (
      s3.sign true (env.buckets BucketKind.media) (apply_prefix env.key_prefix key)
        default_signed_url_ttl)) [ inl e ↦ rw e refl | inr (signed, e) ↦ rw e refl ]
link_store s3 env BucketKind.videos key u =
    elim (Option-cases (
      s3.sign true (env.buckets BucketKind.videos) (apply_prefix env.key_prefix key)
        default_signed_url_ttl)) [ inl e ↦ rw e refl | inr (signed, e) ↦ rw e refl ]

upload_stored :
    (s3 : ObjectStore) (env : StorageConfig) (kind : BucketKind) (key body : Text) (s t : s3.Store)
    (r : UploadResult)
    → upload_object s3 env kind key body s ≡ (ok r, t)
    → s3.put (env.buckets kind) (apply_prefix env.key_prefix key) body s ≡ some t
unfolding upload_object
upload_stored s3 env kind key body s t r h =
    elim (Option-cases (s3.put (env.buckets kind) (apply_prefix env.key_prefix key) body s)) [
      | inl rejected ↦ absurd (ground (arith, rejected))
      | inr (u, stored) ↦
          let unchanged = link_store s3 env kind key u in
          elim (Outcome-cases (link_of s3 env kind key u)) [
            | inr (e, v, failed) ↦ absurd (ground (arith, stored, failed))
            | inl (url, v, linked) ↦
                let same : u ≡ v = sym unchanged ∙ ap (λ o. o.1) linked in
                let left : v ≡ t = ground (arith, stored, linked) in stored ∙ ap some (same ∙ left)
          ]
    ]

-- What `objectExists` answers is true of the object, and it changes nothing.
exists_sound :
    (s3 : ObjectStore) (env : StorageConfig) (kind : BucketKind) (key : Text) (s t : s3.Store)
    (found : Bool)
    → object_exists s3 env kind key s ≡ (ok found, t)
    → is_some (s3.object s (env.buckets kind) (apply_prefix env.key_prefix key)) ≡ found
unfolding object_exists
exists_sound s3 env kind key s t found h =
    let b = env.buckets kind in
    let k = apply_prefix env.key_prefix key in
    elim (Option-cases (s3.head b k s)) [
      | inl e ↦ elim (Option-cases (s3.object s b k)) [
        | inl gone ↦ absurd (s3.head_found b k s e gone)
        | inr (v, held) ↦ ground (arith, e, held)
      ]
      | inr (x, e) ↦ elim (Bool-cases (is_missing x)) [
        | inl missing ↦ ground (arith, e, missing, s3.head_missing b k s x e missing)
        | inr other ↦ absurd (ground (arith, e, other))
      ]
    ]

-- A stored object holds what was uploaded, no object under another key of the bucket has changed,
-- and once it is deleted it is gone: with one prefix for all keys, and given that keys are told apart
-- without the slashes at their front. Where S3 answers `objectExists`, and not with an error of
-- another kind, the answer is that the object is there after the upload, and not after the deletion.
pub upload-delete_object :
    (s3 : ObjectStore) (env : StorageConfig) (kind : BucketKind) (key other body : Text)
    (s t d u v : s3.Store) (r : UploadResult) (before after : Bool)
    → upload_object s3 env kind key body s ≡ (ok r, t)
    → delete_object s3 env kind key t ≡ (ok tt, d)
    → normalize_key key ≢ normalize_key other
    → object_exists s3 env kind key t ≡ (ok before, u)
    → object_exists s3 env kind key d ≡ (ok after, v)
    → (before ≡ true)
      × (s3.object t (env.buckets kind) (apply_prefix env.key_prefix key) ≡ some body)
      × (s3.object t (env.buckets kind) (apply_prefix env.key_prefix other)
          ≡ s3.object s (env.buckets kind) (apply_prefix env.key_prefix other))
      × (s3.object d (env.buckets kind) (apply_prefix env.key_prefix key) ≡ none)
      × (after ≡ false)
unfolding delete_object
upload-delete_object s3 env kind key other body s t d u v r before after up down apart first last =
    let b = env.buckets kind in
    let k = apply_prefix env.key_prefix key in
    let stored = upload_stored s3 env kind key body s t r up in
    let held = s3.object-put b k body s t stored in
    let gone : s3.object d b k ≡ none = elim (Option-cases (s3.remove b k t)) [
      | inl rejected ↦ absurd (ground (arith, rejected))
      | inr (w, removed) ↦
          let same : w ≡ d = ground (arith, removed) in
          s3.object-remove b k t d (removed ∙ ap some same)
    ] in
    (
      sym (exists_sound s3 env kind key t u before first) ∙ ap is_some held,
      held,
      s3.object-put_other b k body s t (apply_prefix env.key_prefix other) stored
          (λ same. apart (apply_prefix-normalize env.key_prefix key other same)),
      gone,
      sym (exists_sound s3 env kind key d v after last) ∙ ap is_some gone,
    )
