-- ===== src/Mail/Conditionals/Matching.antt =====
-- What a conditional of src/modules/mail/template.renderer.ts has matched is a piece of the text.
use ios_backend.Base.{
  ℕ, suc, ◌≤◌, Bool, Option, some, [], ◌∷◌, ◌++◌, ◌≡◌, refl, sym, ap, ◌∙◌, Bool-cases, Option-cases,
  inl, inr, arith, nat_eq, count, count-append, is_empty, length, length-append, subst,
}
use ios_backend.Mail.Escaping.{Text, codes}
use ios_backend.Mail.Tokens.{is_word, word_of, after_literal}
use ios_backend.Mail.Conditionals.{
  Block, is_space, space_of, split_at, block_of, block_body, block_head, match_block,
}

-- A text split into a part that is gone and the rest, with the characters of a kind that the gone
-- part has at least.
pub record Cut (p : ℕ → Bool) (least : ℕ) (rest whole : Text) : Type 0 where
  pub gone : Text
  pub whole_eq : whole ≡ gone ++ rest
  pub enough : least ≤ count p gone

append_assoc : (a b c : Text) → (a ++ b) ++ c ≡ a ++ (b ++ c)
append_assoc [] b c = refl
append_assoc (x ∷ a) b c = ap (λ s. x ∷ s) (append_assoc a b c)

-- A cut of the rest of a cut.
Cut-append :
    (p : ℕ → Bool) (n : ℕ) (rest middle whole : Text)
    → Cut p 0 middle whole
    → Cut p n rest middle
    → Cut p n rest whole
Cut-append p n rest middle whole first second = record {
  gone = first.gone ++ second.gone;
  whole_eq =
      first.whole_eq
      ∙ (ap (λ s. first.gone ++ s) second.whole_eq
          ∙ sym (append_assoc first.gone second.gone rest));
  enough = omega (arith, second.enough, count-append p first.gone second.gone);
}

after_literal-Cut :
    (p : ℕ → Bool) (l s rest : Text) → after_literal l s ≡ some rest → Cut p 0 rest s
after_literal-Cut p [] s rest h = record { gone = []; whole_eq = cc h; enough = omega arith }
after_literal-Cut p (c ∷ l) [] rest h = absurd (cc h)
after_literal-Cut p (c ∷ l) (d ∷ s) rest h = elim (Bool-cases (nat_eq c d)) [
  | inl e ↦
      let more = after_literal-Cut p l s rest (rw e at h) in
      record {
        gone = d ∷ more.gone;
        whole_eq = ap (λ t. d ∷ t) more.whole_eq;
        enough = omega arith;
      }
  | inr e ↦ absurd (ground (arith, e, h))
]

Cut-length :
    (p : ℕ → Bool) (n : ℕ) (rest whole : Text) → Cut p n rest whole → length rest ≤ length whole
Cut-length p n rest whole cut = omega (arith, ap length cut.whole_eq, length-append cut.gone rest)

after_literal_short :
    (c : ℕ) (l s rest : Text) → after_literal (c ∷ l) s ≡ some rest → suc (length rest) ≤ length s
after_literal_short c l [] rest h = absurd (cc h)
after_literal_short c l (d ∷ s) rest h = elim (Bool-cases (nat_eq c d)) [
  | inl e ↦
      let shorter = Cut-length is_word 0 rest s (after_literal-Cut is_word l s rest (rw e at h)) in
      omega (arith, shorter)
  | inr e ↦ absurd (ground (arith, e, h))
]

space_of-Cut : (p : ℕ → Bool) (s : Text) → Cut p 0 (space_of s).1 s
space_of-Cut p [] = record { gone = []; whole_eq = refl; enough = omega arith }
space_of-Cut p (c ∷ s) = elim (Bool-cases (is_space c)) [
  | inl e ↦
      let more = space_of-Cut p s in
      rw e (record {
        gone = c ∷ more.gone;
        whole_eq = ap (λ t. c ∷ t) more.whole_eq;
        enough = omega arith;
      })
  | inr e ↦ rw e (record { gone = []; whole_eq = refl; enough = omega arith })
]

word_of-Cut : (p : ℕ → Bool) (s : Text) → Cut p 0 (word_of s).1 s
word_of-Cut p [] = record { gone = []; whole_eq = refl; enough = omega arith }
word_of-Cut p (c ∷ s) = elim (Bool-cases (is_word c)) [
  | inl e ↦
      let more = word_of-Cut p s in
      rw e (record {
        gone = c ∷ more.gone;
        whole_eq = ap (λ t. c ∷ t) more.whole_eq;
        enough = omega arith;
      })
  | inr e ↦ rw e (record { gone = []; whole_eq = refl; enough = omega arith })
]

split_at-Cut :
    (p : ℕ → Bool) (closing s body rest : Text)
    → split_at closing s ≡ some (body, rest)
    → Cut p (count p body) rest s
split_at-Cut p closing [] body rest h = absurd (cc h)
split_at-Cut p closing (c ∷ s) body rest h = elim (Option-cases (after_literal closing (c ∷ s))) [
  | inr (found, e) ↦
      let here : ◌≡◌ {A = Option (Text × Text)} (some ([], found)) (some (body, rest)) =
        rw e at h in
      let same : ◌≡◌ {A = Text × Text} ([], found) (body, rest) = cc here in
      let cut = after_literal-Cut p closing (c ∷ s) found e in
      record {
        gone = cut.gone;
        whole_eq = cut.whole_eq ∙ ap (λ t. cut.gone ++ t) (ap (λ t. t.1) same);
        enough = subst (λ b. count p b ≤ count p cut.gone) (ap (λ t. t.0) same) (omega arith);
      }
  | inl none_here ↦ elim (Option-cases (split_at closing s)) [
    | inl e ↦ absurd (cc (rw (none_here, e) at h))
    | inr ((b, r), e) ↦
        let there : ◌≡◌ {A = Option (Text × Text)} (some (c ∷ b, r)) (some (body, rest)) =
          rw (none_here, e) at h in
        let same : ◌≡◌ {A = Text × Text} (c ∷ b, r) (body, rest) = cc there in
        let cut = split_at-Cut p closing s b r e in
        record {
          gone = c ∷ cut.gone;
          whole_eq =
              ap (λ t. c ∷ t) cut.whole_eq ∙ ap (λ t. c ∷ (cut.gone ++ t)) (ap (λ t. t.1) same);
          enough =
              subst (λ b. count p b ≤ count p (c ∷ cut.gone)) (ap (λ t. t.0) same)
                (ground (arith, cut.enough));
        }
  ]
]

block_of-Cut :
    (p : ℕ → Bool) (closing key s : Text) (b : Block)
    → block_of key (split_at closing s) ≡ some b
    → Cut p (count p b.body) b.rest s
block_of-Cut p closing key s b h = elim (Option-cases (split_at closing s)) [
  | inl e ↦ absurd (cc (rw e at h))
  | inr ((body, rest), e) ↦
      let made : ◌≡◌ {A = Option Block} (some (record { key = key; body = body; rest = rest }))
          (some b) =
        rw e at h in
      let same : ◌≡◌ {A = Block} (record { key = key; body = body; rest = rest }) b = cc made in
      subst (λ b. Cut p (count p b.body) b.rest s) same (split_at-Cut p closing s body rest e)
]

-- A match of a conditional is a piece of the text, from its first character to the rest, and the
-- body lies in it.
pub match_block-Cut :
    (p : ℕ → Bool) (o : ℕ) (opening closing s : Text) (b : Block)
    → match_block (o ∷ opening) closing s ≡ some b
    → Cut p (count p b.body) b.rest s × (suc (length b.rest) ≤ length s)
match_block-Cut p o opening closing s b h = elim (Option-cases (after_literal (o ∷ opening) s)) [
  | inl e ↦ absurd (cc (rw e at h))
  | inr (s1, e) ↦
      let h1 : block_head closing (some s1) ≡ some b = rw e at h in
      elim (Bool-cases (is_empty (space_of s1).0)) [
        | inl f ↦ absurd (cc (rw f at h1))
        | inr f ↦
            let s2 = (space_of s1).1 in
            let key = (word_of s2).0 in
            let s3 = (word_of s2).1 in
            let h2 : block_body closing key (after_literal (codes "}}") s3) ≡ some b = rw f at h1 in
            elim (Option-cases (after_literal (codes "}}") s3)) [
              | inl g ↦ absurd (cc (rw g at h2))
              | inr (s4, g) ↦
                  let h3 : block_body closing key (some s4) ≡ some b = rw g at h2 in
                  elim (Bool-cases (is_empty key)) [
                    | inl k ↦ absurd (cc (rw k at h3))
                    | inr k ↦
                        let h4 : block_of key (split_at closing s4) ≡ some b = rw k at h3 in
                        let n = count p b.body in
                        let inner = Cut-append p n b.rest s2 s1 (space_of-Cut p s1) (
                          Cut-append p n b.rest s3 s2 (word_of-Cut p s2) (
                            Cut-append p n b.rest s4 s3 (after_literal-Cut p (codes "}}") s3 s4 g)
                              (block_of-Cut p closing key s4 b h4))) in
                        (
                          Cut-append p n b.rest s1 s (after_literal-Cut p (o ∷ opening) s s1 e)
                              inner,
                          omega (
                            arith,
                            after_literal_short o opening s s1 e,
                            Cut-length p n b.rest s1 inner,
                          ),
                        )
                  ]
            ]
      ]
]
