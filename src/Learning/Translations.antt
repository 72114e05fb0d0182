-- ===== src/Learning/Translations.antt =====
-- `buildTranslations` of src/modules/learning/learning.service.ts: the layers of the translations
-- of a row, and its English entry.
use ios_backend.Base.{
  ◌≡◌, refl, true, false, ◌==◌, Option, none, some, String, [], ◌∷◌, is_some, lookup, or_else,
  if◌then◌else◌, arith, eq_iff,
}
use ios_backend.Common.I18n.{Block, Translations, resolve_translation, field_of}

-- `object[key] = block`: the value of a key that is there is replaced in its place.
abbrev pub set_key : String → Block → Translations → Translations
set_key key block [] = (key, block) ∷ []
set_key key block ((k, b) ∷ rest) =
    if k == key then (k, block) ∷ rest else (k, b) ∷ set_key key block rest

abbrev pub merge : Translations → Translations → Translations
merge existing [] = existing
merge existing ((locale, block) ∷ rest) = merge (set_key locale block existing) rest

abbrev body_of : Option String → String → Block
body_of none body_key = []
body_of (some body) body_key = (body_key, body) ∷ []

abbrev pub english_block : String → Option String → String → Block
english_block title body body_key = ("title", title) ∷ body_of body body_key

unfoldable pub build_translations :
    Translations → Option Translations → String → Option String → String → Translations
build_translations existing dto_translations canonical_title canonical_body body_key =
    let dto_t = or_else dto_translations [] in
    let merged = merge existing dto_t in
    if is_some (lookup dto_t "en")
    then merged
    else set_key "en" (english_block canonical_title canonical_body body_key) merged

pub lookup-set_key :
    (key : String) (block : Block) (t : Translations) (locale : String)
    → lookup (set_key key block t) locale ≡ (if key == locale then some block else lookup t locale)
lookup-set_key key block [] locale = ground arith
lookup-set_key key block ((k, b) ∷ rest) locale =
    ground (
      arith,
      eq_iff k key,
      eq_iff key locale,
      eq_iff k locale,
      lookup-set_key key block rest locale,
    )

-- An object has each key once.
abbrev pub HasUniqueLocales : Translations → Type 0
HasUniqueLocales [] = Unit
HasUniqueLocales ((k, b) ∷ rest) = (is_some (lookup rest k) ≡ false) × HasUniqueLocales rest

-- What the request gives for a locale, or else what was there.
abbrev pub layered : Option Block → Option Block → Option Block
layered none old = old
layered (some block) old = some block

pub lookup-merge :
    (existing dto : Translations) (locale : String)
    → HasUniqueLocales dto
    → lookup (merge existing dto) locale ≡ layered (lookup dto locale) (lookup existing locale)
lookup-merge existing [] locale u = refl
lookup-merge existing ((k, b) ∷ rest) locale (fresh, u) = ground (
  arith,
  fresh,
  eq_iff k locale,
  lookup-merge (set_key k b existing) rest locale u,
  lookup-set_key k b existing locale,
)

-- The layers of the translations: each locale that the request gives is as it gives it; English
-- otherwise mirrors the canonical title and body; every other locale is as it was.
pub lookup-build_translations :
    (existing : Translations) (dto : Option Translations) (title : String) (body : Option String)
    (body_key locale : String)
    → HasUniqueLocales (or_else dto [])
    → lookup (build_translations existing dto title body body_key) locale
      ≡ layered (lookup (or_else dto []) locale) (
          if "en" == locale
          then some (english_block title body body_key)
          else lookup existing locale)
unfolding build_translations
lookup-build_translations existing dto title body body_key locale u = ground (
  arith,
  eq_iff "en" locale,
  lookup-merge existing (or_else dto []) locale u,
  lookup-set_key "en" (english_block title body body_key) (merge existing (or_else dto [])) locale,
)

-- Writing and reading: if the request gives no English entry, the title that is resolved for a
-- locale with no text of its own is the canonical one, with the fallback flag.
pub build-resolve_translation :
    (existing : Translations) (dto : Option Translations) (title : String) (body : Option String)
    (body_key locale : String)
    → HasUniqueLocales (or_else dto [])
    → lookup (or_else dto []) "en" ≡ none
    → (title == "") ≡ false
    → ("en" == locale) ≡ false
    → field_of (layered (lookup (or_else dto []) locale) (lookup existing locale)) "title" ≡ none
    → resolve_translation
        (some (build_translations existing dto title body body_key))
        "title"
        locale
      ≡ record { value = some title; locale_used = some "en"; fallback_used = true }
unfolding resolve_translation
build-resolve_translation existing dto title body body_key locale u no_english named foreign
      untranslated =
    ground (
      arith,
      lookup-build_translations existing dto title body body_key locale u,
      lookup-build_translations existing dto title body body_key "en" u,
    )
