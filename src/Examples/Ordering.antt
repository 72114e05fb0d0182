-- ===== src/Examples/Ordering.antt =====
-- An order of the ids by their characters, and texts of times and cursors.
use Prim.Native.Char.{Char, code}
use ios_backend.Base.{
  ℕ, ◌*◌, ◌≡◌, refl, ap, sym, ◌∙◌, ◌⊎◌, inl, inr, Bool, true, false, ◌||◌, ◌&&◌, Option, none, some,
  String, ◌==◌, List, [], ◌∷◌, length, ltb, nat_eq, Bool-cases, arith, eq_iff,
}
use text.Mathlib.TextBridge.{to_list, of_list, of_list-to_list}
use text.Mathlib.TextEquality.{Char-path}
use ios_backend.Catalog.Types.{Cursor}
use ios_backend.Examples.Encoding.{Part, text_of, parts_of, parts_of-text_of, ones, length-ones}

abbrev letters_before : List Char → List Char → Bool
letters_before [] [] = false
letters_before [] (d ∷ t) = true
letters_before (c ∷ s) [] = false
letters_before (c ∷ s) (d ∷ t) =
    ltb (code c) (code d) || (nat_eq (code c) (code d) && letters_before s t)

letters_irrefl : (s : List Char) → letters_before s s ≡ false
letters_irrefl [] = refl
letters_irrefl (c ∷ s) = ground (arith, letters_irrefl s)

letters_trans :
    (s t u : List Char)
    → letters_before s t ≡ true
    → letters_before t u ≡ true
    → letters_before s u ≡ true
letters_trans [] [] u h k = k
letters_trans [] (d ∷ t) [] h k = k
letters_trans [] (d ∷ t) (e ∷ u) h k = refl
letters_trans (c ∷ s) [] u h k = absurd (cc)
letters_trans (c ∷ s) (d ∷ t) [] h k = k
letters_trans (c ∷ s) (d ∷ t) (e ∷ u) h k = ground (arith, letters_trans s t u)

letters_total : (s t : List Char) → ((letters_before s t || letters_before t s) ≡ true) ⊎ (s ≡ t)
letters_total [] [] = inr refl
letters_total [] (d ∷ t) = inl refl
letters_total (c ∷ s) [] = inl refl
letters_total (c ∷ s) (d ∷ t) = elim (Bool-cases (nat_eq (code c) (code d))) [
  | inr e ↦ inl (ground (arith, e))
  | inl e ↦ elim (letters_total s t) [
    | inl h ↦ inl (ground (arith, e, h))
    | inr h ↦
        let same : c ≡ d = Char-path c d (ground (arith, e)) in
        inr (ap (λ x. x ∷ s) same ∙ ap (λ r. d ∷ r) h)
  ]
]

abbrev pub text_before : String → String → Bool
text_before a b = letters_before (to_list a) (to_list b)

pub text_before_irrefl : (a : String) → text_before a a ≡ false
text_before_irrefl a = letters_irrefl (to_list a)

pub text_before_trans :
    (a b c : String) → text_before a b ≡ true → text_before b c ≡ true → text_before a c ≡ true
text_before_trans a b c h k = letters_trans (to_list a) (to_list b) (to_list c) h k

pub text_before_total :
    (a b : String) → (a == b) ≡ false → (text_before a b || text_before b a) ≡ true
text_before_total a b apart = elim (letters_total (to_list a) (to_list b)) [
  | inl h ↦ h
  | inr h ↦
      let same : a ≡ b = sym (of_list-to_list a) ∙ ap of_list h ∙ of_list-to_list b in
      absurd (ground (arith, same, apart, eq_iff a b))
]

-- A text that holds a part is not empty.
pub text_of_full : (w : Part) (ws : List Part) → (text_of (w ∷ ws) == "") ≡ false
text_of_full w ws = elim (Bool-cases (text_of (w ∷ ws) == "")) [
  | inr e ↦ e
  | inl e ↦
      let empty : text_of (w ∷ ws) ≡ "" = (eq_iff (text_of (w ∷ ws)) "").0 e in
      let none_left : w ∷ ws ≡ [] =
        sym (parts_of-text_of (w ∷ ws)) ∙ ap parts_of empty ∙ parts_of-text_of [] in
      absurd (cc)
]

abbrev first_time : List Part → Option ℕ
first_time [] = none
first_time (w ∷ ws) = some (length w * 1000)

abbrev pub time_text : ℕ → String
time_text n = text_of (ones n ∷ [])

abbrev pub time_of : String → Option ℕ
time_of t = first_time (parts_of t)

pub time_of-time_text : (n : ℕ) → time_of (time_text n) ≡ some (n * 1000)
time_of-time_text n =
    ap first_time (parts_of-text_of (ones n ∷ [])) ∙ ap (λ k. some (k * 1000)) (length-ones n)

abbrev cursor_of : List Part → Option Cursor
cursor_of [] = none
cursor_of (a ∷ []) = none
cursor_of (a ∷ b ∷ ws) = some (record { ts = of_list a; id = of_list b })

abbrev pub cursor_text : Cursor → String
cursor_text c = text_of (to_list c.ts ∷ to_list c.id ∷ [])

abbrev pub read_cursor_text : String → Option Cursor
read_cursor_text t = cursor_of (parts_of t)

pub read-cursor_text : (c : Cursor) → read_cursor_text (cursor_text c) ≡ some c
read-cursor_text c =
    rw
      (
        parts_of-text_of (to_list c.ts ∷ to_list c.id ∷ []),
        of_list-to_list c.ts,
        of_list-to_list c.id,
      )
      refl
