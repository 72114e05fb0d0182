-- ===== src/Common/I18n.antt =====
-- src/common/i18n/types.ts: the supported locales, their direction, and the resolution of a
-- translatable field.
use ios_backend.Base.{
  Bool, true, false, ◌==◌, Option, none, some, String, List, [], ◌∷◌, has, lookup, if◌then◌else◌,
}

abbrev pub supported_locales : List String
supported_locales = "en" ∷ "tr" ∷ "fr" ∷ "es" ∷ "ar" ∷ "de" ∷ []

abbrev pub default_locale : String
default_locale = "en"

abbrev pub rtl_locales : List String
rtl_locales = "ar" ∷ []

pub data Direction : Type 0 where
  ltr rtl : Direction

unfoldable pub is_locale : String → Bool
is_locale value = has supported_locales value

unfoldable pub direction_for : String → Direction
direction_for locale = if has rtl_locales locale then rtl else ltr

-- `Translations`: locale to field to text, with the keys in the order of the object.
abbrev pub Block : Type 0
Block = List (String × String)

abbrev pub Translations : Type 0
Translations = List (String × Block)

pub record Resolved : Type 0 where
  pub value : Option String
  pub locale_used : Option String
  pub fallback_used : Bool

abbrev pub field_of : Option Block → String → Option String
field_of none field = none
field_of (some block) field = lookup block field

-- A text that is there and not empty.
abbrev pub non_empty : Option String → Option String
non_empty none = none
non_empty (some text) = if text == "" then none else some text

abbrev unresolved : Resolved
unresolved = record { value = none; locale_used = none; fallback_used = false }

abbrev resolve_from : Option String → Option String → String → Resolved
resolve_from (some direct) fallback locale = record {
  value = some direct;
  locale_used = some locale;
  fallback_used = false;
}
resolve_from none (some fallback) locale = record {
  value = some fallback;
  locale_used = some default_locale;
  fallback_used = true;
}
resolve_from none none locale = unresolved

unfoldable pub resolve_translation : Option Translations → String → String → Resolved
resolve_translation none field locale = unresolved
resolve_translation (some translations) field locale =
    resolve_from (non_empty (field_of (lookup translations locale) field))
      (non_empty (field_of (lookup translations default_locale) field)) locale
