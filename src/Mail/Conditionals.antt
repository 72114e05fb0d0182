-- ===== src/Mail/Conditionals.antt =====
-- `isTruthy`, `renderConditionals`, `renderTemplate` and `renderHtml` of
-- src/modules/mail/template.renderer.ts. The contents of the files and the year are arguments.
pub mod Matching
pub mod Pages
use ios_backend.Base.{
  ℕ, zero, suc, ◌-◌, ◌+◌, Bool, true, false, not, ◌||◌, ◌&&◌, Option, none, some, String, List, [],
  ◌∷◌, ◌++◌, nat_eq, leb, is_empty, if◌then◌else◌, length,
}
use ios_backend.Mail.Escaping.{Text, codes}
use ios_backend.Mail.Tokens.{
  TemplateValue, TemplateVars, same_text, var_of, word_of, after_literal, render_tokens,
}

abbrev pub is_truthy : TemplateValue → Bool
is_truthy (TemplateValue.text s) = not (is_empty s) && not (same_text s (codes "false"))
is_truthy (TemplateValue.number n s) = not (nat_eq n 0)
is_truthy (TemplateValue.flag b) = b
is_truthy TemplateValue.undefined = false

-- `\s`.
abbrev pub is_space : ℕ → Bool
is_space c =
    (leb 9 c && leb c 13)
    || (nat_eq c 32
        || (nat_eq c 160
            || (nat_eq c 5760
                || ((leb 8192 c && leb c 8202)
                    || (nat_eq c 8232
                        || (nat_eq c 8233
                            || (nat_eq c 8239
                                || (nat_eq c 8287 || (nat_eq c 12288 || nat_eq c 65279)))))))))

-- A longest run of spaces, and what follows.
abbrev pub space_of : Text → Text × Text
space_of [] = ([], [])
space_of (c ∷ s) = let (w, rest) = space_of s in if is_space c then (c ∷ w, rest) else ([], c ∷ s)

abbrev pub nearer : ℕ → Option Text → Option (Text × Text) → Option (Text × Text)
nearer c (some rest) further = some ([], rest)
nearer c none none = none
nearer c none (some (body, rest)) = some (c ∷ body, rest)

-- The text before the first occurrence of a literal, and the text behind it.
abbrev pub split_at : Text → Text → Option (Text × Text)
split_at closing [] = none
split_at closing (c ∷ s) =
    let further = split_at closing s in nearer c (after_literal closing (c ∷ s)) further

-- What a conditional has matched: its key, its body and what follows.
pub record Block : Type 0 where
  pub key : Text
  pub body : Text
  pub rest : Text

abbrev pub block_of : Text → Option (Text × Text) → Option Block
block_of key none = none
block_of key (some (body, rest)) = some (record { key = key; body = body; rest = rest })

abbrev pub block_body : Text → Text → Option Text → Option Block
block_body closing key none = none
block_body closing key (some s) = if is_empty key then none else block_of key (split_at closing s)

abbrev pub block_head : Text → Option Text → Option Block
block_head closing none = none
block_head closing (some s) =
    if is_empty (space_of s).0
    then none
    else block_body closing (word_of (space_of s).1).0
        (after_literal (codes "}}") (word_of (space_of s).1).1)

-- `/\{\{#if\s+(\w+)\}\}([\s\S]*?)\{\{\/if\}\}/` at the beginning of a text, or that of `unless`.
abbrev pub match_block : Text → Text → Text → Option Block
match_block opening closing s = block_head closing (after_literal opening s)

abbrev pub block_at : (Bool → Bool) → TemplateVars → ℕ → Text → (ℕ → Text) → Option Block → Text
block_at keeps vars c s follow none = c ∷ follow 0
block_at keeps vars c s follow (some b) =
    (if keeps (is_truthy (var_of vars b.key)) then b.body else [])
    ++ follow (length s - length b.rest)

-- One of the two replacements, from a place on, where `skip` characters belong to a conditional that
-- has been replaced.
abbrev pub blocks_from : (Bool → Bool) → Text → Text → TemplateVars → ℕ → Text → Text
blocks_from keeps opening closing vars skip [] = []
blocks_from keeps opening closing vars (suc skip) (c ∷ s) =
    blocks_from keeps opening closing vars skip s
blocks_from keeps opening closing vars zero (c ∷ s) =
    block_at keeps vars c s (λ skip. blocks_from keeps opening closing vars skip s)
      (match_block opening closing (c ∷ s))

unfoldable pub render_conditionals : Text → TemplateVars → Text
render_conditionals template vars =
    blocks_from not (codes "{{#unless") (codes "{{/unless}}") vars 0
      (blocks_from (λ b. b) (codes "{{#if") (codes "{{/if}}") vars 0 template)

-- `{ currentYear, ...vars }`
abbrev pub with_year : TemplateVars → ℕ → Text → TemplateVars
with_year vars year shown = vars ++ ((codes "currentYear", TemplateValue.number year shown) ∷ [])

pub record Rendered : Type 0 where
  pub html : Text
  pub text : Text

unfoldable pub render_template : Text → Text → TemplateVars → ℕ → Text → Rendered
unfolding render_conditionals render_tokens
render_template html text vars year shown =
    let merged = with_year vars year shown in
    record {
      html = render_tokens (render_conditionals html merged) merged true;
      text = render_tokens (render_conditionals text merged) merged false;
    }

unfoldable pub render_html : Text → TemplateVars → ℕ → Text → Text
unfolding render_conditionals render_tokens
render_html html vars year shown =
    let merged = with_year vars year shown in
    render_tokens (render_conditionals html merged) merged true
