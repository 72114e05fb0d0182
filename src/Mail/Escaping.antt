-- ===== src/Mail/Escaping.antt =====
-- `escapeHtml` of src/modules/mail/template.renderer.ts: five replacements, one after another.
use Prim.Native.Char.{code}
use ios_backend.Base.{
  ℕ, Bool, false, ◌||◌, String, List, [], ◌∷◌, ◌++◌, ◌≡◌, refl, ap, Bool-cases, inl, inr, arith,
  nat_eq, if◌then◌else◌, All, All-append,
}

abbrev pub Text : Type 0
Text = List ℕ

-- The code points of a literal.
abbrev pub codes : String → Text
codes String.[] = []
codes (String.◌∷◌ c s) = code c ∷ codes s

-- `s.replace(/c/g, by)`.
abbrev pub replace_all : ℕ → Text → Text → Text
replace_all c by [] = []
replace_all c by (x ∷ xs) =
    let rest = replace_all c by xs in if nat_eq x c then by ++ rest else x ∷ rest

abbrev pub amp : Text
amp = b'&' ∷ b'a' ∷ b'm' ∷ b'p' ∷ b';' ∷ []

abbrev pub lt_entity : Text
lt_entity = b'&' ∷ b'l' ∷ b't' ∷ b';' ∷ []

abbrev pub gt_entity : Text
gt_entity = b'&' ∷ b'g' ∷ b't' ∷ b';' ∷ []

abbrev pub quot : Text
quot = b'&' ∷ b'q' ∷ b'u' ∷ b'o' ∷ b't' ∷ b';' ∷ []

abbrev pub apos : Text
apos = b'&' ∷ b'#' ∷ b'0' ∷ b'3' ∷ b'9' ∷ b';' ∷ []

unfoldable pub escape_html : Text → Text
escape_html s = replace_all b'\'' apos (
    replace_all b'"' quot
      (replace_all b'>' gt_entity (replace_all b'<' lt_entity (replace_all b'&' amp s))))

-- What a single pass puts for a character.
abbrev pub entity_of : ℕ → Text
entity_of c =
    if nat_eq c b'&'
    then amp
    else if nat_eq c b'<'
    then lt_entity
    else if nat_eq c b'>'
    then gt_entity
    else if nat_eq c b'"'
    then quot
    else if nat_eq c b'\''
    then apos
    else c ∷ []

abbrev pub escape_once : Text → Text
escape_once [] = []
escape_once (c ∷ s) = entity_of c ++ escape_once s

-- The five replacements in a row are one pass: no entity that one of them writes is escaped again,
-- and none is missed.
pub escape_html-escape_once : (s : Text) → escape_html s ≡ escape_once s
unfolding escape_html
escape_html-escape_once [] = refl
escape_html-escape_once (c ∷ s) = elim (Bool-cases (nat_eq c b'&')) [
  | inl e ↦ rw e (ap (λ r. amp ++ r) (escape_html-escape_once s))
  | inr a ↦ elim (Bool-cases (nat_eq c b'<')) [
    | inl e ↦ rw (a, e) (ap (λ r. lt_entity ++ r) (escape_html-escape_once s))
    | inr b ↦ elim (Bool-cases (nat_eq c b'>')) [
      | inl e ↦ rw (a, b, e) (ap (λ r. gt_entity ++ r) (escape_html-escape_once s))
      | inr d ↦ elim (Bool-cases (nat_eq c b'"')) [
        | inl e ↦ rw (a, b, d, e) (ap (λ r. quot ++ r) (escape_html-escape_once s))
        | inr q ↦ elim (Bool-cases (nat_eq c b'\'')) [
          | inl e ↦ rw (a, b, d, q, e) (ap (λ r. apos ++ r) (escape_html-escape_once s))
          | inr r ↦ rw (a, b, d, q, r) (ap (λ rest. c ∷ rest) (escape_html-escape_once s))
        ]
      ]
    ]
  ]
]

-- The characters that open or close a tag or an attribute.
abbrev pub is_markup : ℕ → Bool
is_markup c = nat_eq c b'<' || (nat_eq c b'>' || (nat_eq c b'"' || nat_eq c b'\''))

entity_of-plain : (c : ℕ) → All (λ d. is_markup d ≡ false) (entity_of c)
entity_of-plain c = elim (Bool-cases (nat_eq c b'&')) [
  | inl e ↦ rw e (refl, (refl, (refl, (refl, (refl, tt)))))
  | inr a ↦ elim (Bool-cases (nat_eq c b'<')) [
    | inl e ↦ rw (a, e) (refl, (refl, (refl, (refl, tt))))
    | inr b ↦ elim (Bool-cases (nat_eq c b'>')) [
      | inl e ↦ rw (a, b, e) (refl, (refl, (refl, (refl, tt))))
      | inr d ↦ elim (Bool-cases (nat_eq c b'"')) [
        | inl e ↦ rw (a, b, d, e) (refl, (refl, (refl, (refl, (refl, (refl, tt))))))
        | inr q ↦ elim (Bool-cases (nat_eq c b'\'')) [
          | inl e ↦ rw (a, b, d, q, e) (refl, (refl, (refl, (refl, (refl, (refl, tt))))))
          | inr r ↦ rw (a, b, d, q, r) (ground (arith, b, d, q, r), tt)
        ]
      ]
    ]
  ]
]

escape_once-plain : (s : Text) → All (λ d. is_markup d ≡ false) (escape_once s)
escape_once-plain [] = tt
escape_once-plain (c ∷ s) =
    All-append (λ d. is_markup d ≡ false) (entity_of c) (escape_once s) (entity_of-plain c)
      (escape_once-plain s)

-- An escaped text holds no character that could open or close a tag or an attribute.
pub escape_html-plain : (s : Text) → All (λ d. is_markup d ≡ false) (escape_html s)
escape_html-plain s = rw (escape_html-escape_once s) (escape_once-plain s)
