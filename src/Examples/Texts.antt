-- ===== src/Examples/Texts.antt =====
-- A page with a hostile name, and a shelf of objects as the store.
use ios_backend.Base.{
  Bool-cases, Option, [], ap, arith, count, false, if◌then◌else◌, inl, inr, none, refl, some, true,
  sym, ◌&&◌, ◌∙◌, ◌∷◌, ◌≡◌, ◌≢◌, ◌≤◌,
}
use ios_backend.Mail.Escaping.{
  Text, codes, escape_html, escape_html-escape_once, escape_once, is_markup,
}
use ios_backend.Mail.Tokens.{TemplateVars, same_text, text}
use ios_backend.Mail.Conditionals.{render_template}
use ios_backend.Mail.Conditionals.Pages.{render_template-markup}
use ios_backend.Storage.Keys.{apply_prefix, normalize_key, trim_slashes}
use ios_backend.Storage.Objects.{
  BucketKind, ObjectStore, S3Error, StorageConfig, UploadResult, delete_object, get_signed_url,
  object_exists, rewrite_to_public_base, upload_object,
}
use ios_backend.Storage.Objects.RoundTrip.{upload-delete_object}

abbrev greeting : Text
greeting = codes "<b>{{#if name}}{{name}}{{/if}}</b>"

abbrev hostile : TemplateVars
hostile = (codes "name", text (codes "<i>")) ∷ []

same_text-eq : (s t : Text) → same_text s t ≡ true → s ≡ t
same_text-eq [] [] h = refl
same_text-eq [] (d ∷ t) h = absurd (cc)
same_text-eq (c ∷ s) [] h = absurd (cc)
same_text-eq (c ∷ s) (d ∷ t) h =
    let first : c ≡ d = ground (arith, h) in
    let rest : s ≡ t = same_text-eq s t (ground (arith, h)) in
    ap (λ x. x ∷ s) first ∙ ap (λ r. d ∷ r) rest

same_text_refl : (s : Text) → same_text s s ≡ true
same_text_refl [] = refl
same_text_refl (c ∷ s) = ground (arith, same_text_refl s)

-- The objects of each bucket.
abbrev Shelf : Type 0
Shelf = Text → Text → Option Text

abbrev shelve : Text → Text → Option Text → Shelf → Shelf
shelve b k v s = λ c j. if same_text b c && same_text k j then v else s c j

shelve_same : (b k : Text) (v : Option Text) (s : Shelf) → shelve b k v s b k ≡ v
shelve_same b k v s = rw (same_text_refl b, same_text_refl k) refl

shelve_other :
    (b k : Text) (v : Option Text) (s : Shelf) (j : Text) → k ≢ j → shelve b k v s b j ≡ s b j
shelve_other b k v s j apart = elim (Bool-cases (same_text k j)) [
  | inl e ↦ absurd (apart (same_text-eq k j e))
  | inr e ↦ rw (same_text_refl b, e) refl
]

abbrev not_found_error : S3Error
not_found_error = record { status = some 404; name = some "NotFound" }

abbrev head_of : Option Text → Option S3Error
head_of none = some not_found_error
head_of (some v) = none

head_gone : (o : Option Text) (e : S3Error) → head_of o ≡ some e → o ≡ none
head_gone none e h = refl
head_gone (some v) e h = absurd (cc h)

shelf_of :
    (b k : Text) (v : Option Text) (s t : Shelf)
    → some (shelve b k v s) ≡ some t
    → t ≡ shelve b k v s
shelf_of b k v s t h = cc

abbrev shelves : ObjectStore
shelves = record {
  Store = Shelf;
  object = λ s b k. s b k;
  put = λ b k v s. some (shelve b k (some v) s);
  head = λ b k s. head_of (s b k);
  remove = λ b k s. some (shelve b k none s);
  sign = λ get b k ttl. some k;
  object-put =
      λ b k v s t h. ap (λ u. u b k) (shelf_of b k (some v) s t h) ∙ shelve_same b k (some v) s;
  object-put_other = λ b k v s t j h apart.
      ap (λ u. u b j) (shelf_of b k (some v) s t h) ∙ shelve_other b k (some v) s j apart;
  object-remove = λ b k s t h. ap (λ u. u b k) (shelf_of b k none s t h) ∙ shelve_same b k none s;
  head_found = λ b k s h gone. absurd (cc (sym (ap head_of gone) ∙ h));
  head_missing = λ b k s e h missing. head_gone (s b k) e h;
}

abbrev config : StorageConfig
config = record {
  buckets = λ kind. codes "media";
  endpoint = codes "http://s3";
  public_base_url = codes "http://s3";
  key_prefix = codes "dev";
  swap_host = λ link base. none;
}

abbrev bare : Shelf
bare = λ b k. none

abbrev filled : Shelf
filled = shelve (codes "media") (codes "dev/a") (some (codes "x")) bare

abbrev emptied : Shelf
emptied = shelve (codes "media") (codes "dev/a") none filled

abbrev uploaded : UploadResult
uploaded = record { bucket = codes "media"; key = codes "a"; url = codes "dev/a" }

render_template-markup_example :
    count is_markup (render_template greeting greeting hostile 2026 (codes "2026")).html
    ≤ count is_markup greeting
render_template-markup_example =
    render_template-markup is_markup greeting greeting hostile 2026 (codes "2026") (λ c h. h)

escape_html-escape_once_example : escape_html (codes "<a&b>") ≡ escape_once (codes "<a&b>")
escape_html-escape_once_example = escape_html-escape_once (codes "<a&b>")

upload-delete_object_example :
    (true ≡ true)
    × (shelves.object filled
          (config.buckets BucketKind.media)
          (apply_prefix config.key_prefix (codes "a"))
        ≡ some (codes "x"))
    × (shelves.object filled
          (config.buckets BucketKind.media)
          (apply_prefix config.key_prefix (codes "b"))
        ≡ shelves.object bare
            (config.buckets BucketKind.media)
            (apply_prefix config.key_prefix (codes "b")))
    × (shelves.object emptied
          (config.buckets BucketKind.media)
          (apply_prefix config.key_prefix (codes "a"))
        ≡ none)
    × (false ≡ false)
unfolding upload_object get_signed_url delete_object apply_prefix trim_slashes normalize_key
    rewrite_to_public_base object_exists
upload-delete_object_example =
    upload-delete_object shelves config BucketKind.media (codes "a") (codes "b") (codes "x") bare
      filled emptied filled emptied uploaded true false refl refl (λ e. ground arith) refl refl
