-- ===== src/Mail/Conditionals/Pages.antt =====
-- No value can add markup to a page of src/modules/mail/template.renderer.ts, conditionals included.
use ios_backend.Base.{
  ℕ, zero, suc, ◌-◌, ◌≤◌, Bool, true, false, Option, none, some, [], ◌∷◌, ◌++◌, ◌≡◌, refl, sym, ap,
  Bool-cases, inl, inr, arith, count, count-append, if◌then◌else◌, length, length-append, subst,
  not,
}
use ios_backend.Mail.Escaping.{Text, codes, is_markup}
use ios_backend.Mail.Tokens.{TemplateVars, var_of}
use ios_backend.Mail.Tokens.Markup.{render_tokens-markup}
use ios_backend.Mail.Conditionals.{
  Block, is_truthy, match_block, block_at, blocks_from, render_conditionals, render_template,
  with_year,
}
use ios_backend.Mail.Conditionals.Matching.{match_block-Cut}

abbrev drop : ℕ → Text → Text
drop n [] = []
drop zero (c ∷ s) = c ∷ s
drop (suc n) (c ∷ s) = drop n s

drop_none : (s : Text) → drop 0 s ≡ s
drop_none [] = refl
drop_none (c ∷ s) = refl

drop-append : (n : ℕ) (a b : Text) → n ≡ length a → drop n (a ++ b) ≡ b
drop-append zero [] b h = drop_none b
drop-append (suc n) [] b h = absurd (omega (arith, h))
drop-append zero (c ∷ a) b h = absurd (omega (arith, h))
drop-append (suc n) (c ∷ a) b h = drop-append n a b (omega (arith, h))

-- The rest of a piece that begins with the first character.
drop_gone :
    (c : ℕ) (s gone rest : Text)
    → c ∷ s ≡ gone ++ rest
    → length rest ≤ length s
    → drop (length s - length rest) s ≡ rest
drop_gone c s [] rest h short = absurd (omega (arith, short, ap length h))
drop_gone c s (d ∷ gone) rest h short =
    let tail : s ≡ gone ++ rest = cc h in
    let size = ap length tail in
    subst (λ t. drop (length s - length rest) t ≡ rest) (sym tail)
      (drop-append (length s - length rest) gone rest
        (omega (arith, size, length-append gone rest)))

module _ (p : ℕ → Bool) (keeps : Bool → Bool) (o : ℕ) (opening closing : Text)
    (vars : TemplateVars) where
  abbrev rendered : ℕ → Text → Text
  rendered skip s = blocks_from keeps (o ∷ opening) closing vars skip s

  kept_count : (b : Block) (keep : Bool) → count p (if keep then b.body else []) ≤ count p b.body
  kept_count b true = omega arith
  kept_count b false = omega arith

  block_at-count :
      (c : ℕ) (s : Text) (found : Option Block)
      → match_block (o ∷ opening) closing (c ∷ s) ≡ found
      → ((skip : ℕ) → count p (rendered skip s) ≤ count p (drop skip s))
      → count p (block_at keeps vars c s (λ skip. rendered skip s) found) ≤ count p (c ∷ s)
  block_at-count c s none h rest =
      let below = subst (λ t. count p (rendered 0 s) ≤ count p t) (drop_none s) (rest 0) in
      elim (Bool-cases (p c)) [ inl e ↦ rw e (omega (arith, below)) | inr e ↦ rw e below ]
  block_at-count c s (some b) h rest =
      let (cut, short) = match_block-Cut p o opening closing (c ∷ s) b h in
      let skip = length s - length b.rest in
      let after =
        subst (λ t. count p (rendered skip s) ≤ count p t)
          (drop_gone c s cut.gone b.rest cut.whole_eq (omega (arith, short))) (rest skip) in
      let keep = keeps (is_truthy (var_of vars b.key)) in
      let total = ap (count p) cut.whole_eq in
      omega (
        arith,
        kept_count b keep,
        after,
        cut.enough,
        total,
        count-append p cut.gone b.rest,
        count-append p (if keep then b.body else []) (rendered skip s),
      )

  blocks_from-count : (skip : ℕ) (s : Text) → count p (rendered skip s) ≤ count p (drop skip s)
  blocks_from-count zero [] = omega arith
  blocks_from-count (suc skip) [] = omega arith
  blocks_from-count (suc skip) (c ∷ s) = blocks_from-count skip s
  blocks_from-count zero (c ∷ s) =
      block_at-count c s (match_block (o ∷ opening) closing (c ∷ s)) refl
        (λ skip. blocks_from-count skip s)

  blocks-count : (s : Text) → count p (rendered 0 s) ≤ count p s
  blocks-count s =
      subst (λ t. count p (rendered 0 s) ≤ count p t) (drop_none s) (blocks_from-count 0 s)

conditionals-count :
    (p : ℕ → Bool) (template : Text) (vars : TemplateVars)
    → count p (render_conditionals template vars) ≤ count p template
unfolding render_conditionals
conditionals-count p template vars =
    let ifs = blocks-count p (λ b. b) b'{' (codes "{#if") (codes "{{/if}}") vars template in
    let unlesses =
      blocks-count p not b'{' (codes "{#unless") (codes "{{/unless}}") vars
        (blocks_from (λ b. b) (codes "{{#if") (codes "{{/if}}") vars 0 template) in
    omega (arith, ifs, unlesses)

-- The HTML of a mail, its conditionals and tokens rendered, has no more angle brackets and quotation
-- marks, of each kind or of any choice of them, than the template's file: no value of a variable can
-- open a tag or leave an attribute.
pub render_template-markup :
    (p : ℕ → Bool) (html text : Text) (vars : TemplateVars) (year : ℕ) (shown : Text)
    → ((c : ℕ) → p c ≡ true → is_markup c ≡ true)
    → count p (render_template html text vars year shown).html ≤ count p html
unfolding render_template
render_template-markup p html text vars year shown inside =
    let merged = with_year vars year shown in
    omega (
      arith,
      render_tokens-markup p (render_conditionals html merged) merged inside,
      conditionals-count p html merged,
    )
