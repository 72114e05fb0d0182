-- ===== src/Mail/Tokens.antt =====
-- `renderTokens` of src/modules/mail/template.renderer.ts.
pub mod Markup
use ios_backend.Base.{
  ℕ, zero, suc, ◌-◌, Bool, true, false, not, ◌||◌, ◌&&◌, Option, none, some, String, List, [], ◌∷◌,
  ◌++◌, nat_eq, leb, is_empty, if◌then◌else◌, length, ◌+◌,
}
use ios_backend.Mail.Escaping.{Text, codes, escape_html}

-- `string | number | boolean | undefined`, a number with its decimal text.
pub data TemplateValue : Type 0 where
  text : Text → TemplateValue
  number : ℕ → Text → TemplateValue
  flag : Bool → TemplateValue
  undefined : TemplateValue

abbrev pub TemplateVars : Type 0
TemplateVars = List (Text × TemplateValue)

abbrev pub same_text : Text → Text → Bool
same_text [] [] = true
same_text [] (d ∷ t) = false
same_text (c ∷ s) [] = false
same_text (c ∷ s) (d ∷ t) = nat_eq c d && same_text s t

-- `vars[key]`.
abbrev pub var_of : TemplateVars → Text → TemplateValue
var_of [] key = undefined
var_of ((k, v) ∷ vars) key = if same_text k key then v else var_of vars key

-- `\w`.
abbrev pub is_word : ℕ → Bool
is_word c =
    (leb b'a' c && leb c b'z')
    || ((leb b'A' c && leb c b'Z') || ((leb b'0' c && leb c b'9') || nat_eq c b'_'))

-- A longest run of word characters, and what follows.
abbrev pub word_of : Text → Text × Text
word_of [] = ([], [])
word_of (c ∷ s) = let (w, rest) = word_of s in if is_word c then (c ∷ w, rest) else ([], c ∷ s)

-- `Some rest` if the text begins with the literal.
abbrev pub after_literal : Text → Text → Option Text
after_literal [] s = some s
after_literal (c ∷ l) [] = none
after_literal (c ∷ l) (d ∷ s) = if nat_eq c d then after_literal l s else none

abbrev closed_token : Text → Option Text → Option Text
closed_token key none = none
closed_token key (some rest) = if is_empty key then none else some key

abbrev token_key : Option Text → Option Text
token_key none = none
token_key (some s) =
    let (key, rest) = word_of s in closed_token key (after_literal (codes "}}") rest)

-- The key of `/\{\{(\w+)\}\}/` at the beginning of a text.
abbrev pub match_token : Text → Option Text
match_token s = token_key (after_literal (codes "{{") s)

abbrev pub value_text : TemplateValue → Text
value_text (text s) = s
value_text (number n s) = s
value_text (flag true) = codes "true"
value_text (flag false) = codes "false"
value_text undefined = []

abbrev pub render_value : Bool → TemplateValue → Text
render_value escape v = if escape then escape_html (value_text v) else value_text v

-- A character that stays, or the value of the token that begins at it; `follow` renders what comes
-- after so many characters more.
abbrev pub render_at : TemplateVars → Bool → ℕ → (ℕ → Text) → Option Text → Text
render_at vars escape c follow none = c ∷ follow 0
render_at vars escape c follow (some key) =
    render_value escape (var_of vars key) ++ follow (length key + 3)

-- The text from a place on, where `skip` characters belong to a token that has been replaced.
abbrev pub render_from : TemplateVars → Bool → ℕ → Text → Text
render_from vars escape skip [] = []
render_from vars escape (suc skip) (c ∷ s) = render_from vars escape skip s
render_from vars escape zero (c ∷ s) =
    render_at vars escape c (λ skip. render_from vars escape skip s) (match_token (c ∷ s))

unfoldable pub render_tokens : Text → TemplateVars → Bool → Text
render_tokens template vars escape = render_from vars escape 0 template
