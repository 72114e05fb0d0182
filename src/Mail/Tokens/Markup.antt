-- ===== src/Mail/Tokens/Markup.antt =====
-- No value can add markup to a page that src/modules/mail/template.renderer.ts renders.
use ios_backend.Base.{
  ℕ, zero, suc, ◌+◌, ◌≤◌, Bool, true, false, Option, none, some, [], ◌∷◌, ◌≡◌, refl, Bool-cases,
  inl, inr, arith, All, count, count-append, length,
}
use ios_backend.Mail.Escaping.{Text, is_markup, escape_html-plain}
use ios_backend.Mail.Tokens.{
  TemplateVars, var_of, value_text, render_value, match_token, render_at, render_from,
  render_tokens,
}

-- A character of a kind, all of which the escaping replaces.
count-none :
    (p : ℕ → Bool) (s : Text)
    → ((c : ℕ) → p c ≡ true → is_markup c ≡ true)
    → All (λ c. is_markup c ≡ false) s
    → count p s ≡ 0
count-none p [] inside plain = refl
count-none p (c ∷ s) inside plain = elim (Bool-cases (p c)) [
  | inl e ↦ absurd (ground (arith, inside c e, plain.0))
  | inr e ↦ rw e (count-none p s inside plain.1)
]

render_at-count :
    (p : ℕ → Bool) (vars : TemplateVars) (c : ℕ) (follow : ℕ → Text) (s : Text)
    (token : Option Text)
    → ((d : ℕ) → p d ≡ true → is_markup d ≡ true)
    → ((skip : ℕ) → count p (follow skip) ≤ count p s)
    → count p (render_at vars true c follow token) ≤ count p (c ∷ s)
render_at-count p vars c follow s none inside rest = elim (Bool-cases (p c)) [
  | inl e ↦ rw e (omega (arith, rest 0))
  | inr e ↦ rw e (rest 0)
]
render_at-count p vars c follow s (some key) inside rest =
    let value = render_value true (var_of vars key) in
    let clean = count-none p value inside (escape_html-plain (value_text (var_of vars key))) in
    let added = count-append p value (follow (length key + 3)) in
    elim (Bool-cases (p c)) [
      | inl e ↦ rw e (omega (arith, clean, added, rest (length key + 3)))
      | inr e ↦ rw e (omega (arith, clean, added, rest (length key + 3)))
    ]

render_from-count :
    (p : ℕ → Bool) (vars : TemplateVars) (skip : ℕ) (s : Text)
    → ((c : ℕ) → p c ≡ true → is_markup c ≡ true)
    → count p (render_from vars true skip s) ≤ count p s
render_from-count p vars skip [] inside = omega arith
render_from-count p vars (suc skip) (c ∷ s) inside =
    let rest = render_from-count p vars skip s inside in
    elim (Bool-cases (p c)) [ inl e ↦ rw e (omega (arith, rest)) | inr e ↦ rw e rest ]
render_from-count p vars zero (c ∷ s) inside =
    render_at-count p vars c (λ k. render_from vars true k s) s (match_token (c ∷ s)) inside
      (λ k. render_from-count p vars k s inside)

-- The page that is rendered in HTML mode has no more angle brackets and quotation marks, of each
-- kind or of any choice of them, than the template itself: no value of a variable can open a tag or
-- leave an attribute.
pub render_tokens-markup :
    (p : ℕ → Bool) (template : Text) (vars : TemplateVars)
    → ((c : ℕ) → p c ≡ true → is_markup c ≡ true)
    → count p (render_tokens template vars true) ≤ count p template
unfolding render_tokens
render_tokens-markup p template vars inside = render_from-count p vars 0 template inside
