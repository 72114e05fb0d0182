-- ===== src/Storage/Canonical.antt =====
-- The keys that `buildKey` of src/modules/storage/storage.service.ts builds are canonical.
use ios_backend.Base.{
  ℕ, Bool, true, false, not, ◌&&◌, List, [], ◌∷◌, ◌++◌, map, ◌≡◌, refl, ap, subst, ◌∙◌, Bool-cases,
  inl, inr, arith, nat_eq, is_empty, if◌then◌else◌, select, All, ok,
}
use ios_backend.Mail.Escaping.{Text}
use ios_backend.Storage.Keys.{
  slash, normalize_key, strip_end, trim_slashes, join_slash, is_full, build_key, apply_prefix,
}

-- No slash at the front, and none at the end.
abbrev pub starts_plain : Text → Bool
starts_plain [] = true
starts_plain (c ∷ s) = not (nat_eq c slash)

abbrev pub ends_plain : Text → Bool
ends_plain [] = true
ends_plain (c ∷ []) = not (nat_eq c slash)
ends_plain (c ∷ d ∷ s) = ends_plain (d ∷ s)

normalize-starts : (s : Text) → starts_plain (normalize_key s) ≡ true
unfolding normalize_key
normalize-starts [] = refl
normalize-starts (c ∷ s) = elim (Bool-cases (nat_eq c slash)) [
  | inl e ↦ rw e (normalize-starts s)
  | inr e ↦ rw (e, e) refl
]

strip_end-starts : (s : Text) → starts_plain s ≡ true → starts_plain (strip_end s) ≡ true
strip_end-starts [] h = refl
strip_end-starts (c ∷ s) h =
    let plain : nat_eq c slash ≡ false = ground (arith, h) in rw (plain, plain) refl

strip_step-ends :
    (c : ℕ) (rest : Text)
    → ends_plain rest ≡ true
    → ends_plain (if nat_eq c slash && is_empty rest then [] else c ∷ rest) ≡ true
strip_step-ends c [] h = elim (Bool-cases (nat_eq c slash)) [
  | inl e ↦ rw e refl
  | inr e ↦ rw (e, e) refl
]
strip_step-ends c (d ∷ rest) h = elim (Bool-cases (nat_eq c slash)) [
  | inl e ↦ rw e h
  | inr e ↦ rw e h
]

strip_end-ends : (s : Text) → ends_plain (strip_end s) ≡ true
strip_end-ends [] = refl
strip_end-ends (c ∷ s) = strip_step-ends c (strip_end s) (strip_end-ends s)

-- Plain at both ends.
abbrev pub IsTrimmed : Text → Type 0
IsTrimmed s = (starts_plain s ≡ true) × (ends_plain s ≡ true)

trim_slashes-IsTrimmed : (s : Text) → IsTrimmed (trim_slashes s)
unfolding trim_slashes
trim_slashes-IsTrimmed s =
    (strip_end-starts (normalize_key s) (normalize-starts s), strip_end-ends (normalize_key s))

append-starts :
    (p q : Text) → is_full p ≡ true → starts_plain p ≡ true → starts_plain (p ++ q) ≡ true
append-starts [] q full h = absurd (cc)
append-starts (c ∷ p) q full h = h

append-ends :
    (p : Text) (d : ℕ) (q : Text) → ends_plain (d ∷ q) ≡ true → ends_plain (p ++ d ∷ q) ≡ true
append-ends [] d q h = h
append-ends (c ∷ []) d q h = h
append-ends (c ∷ e ∷ p) d q h = append-ends (e ∷ p) d q h

slash-ends : (q : Text) → is_full q ≡ true → ends_plain q ≡ true → ends_plain (slash ∷ q) ≡ true
slash-ends [] full h = absurd (cc)
slash-ends (c ∷ q) full h = h

-- Parts that are trimmed and not empty.
abbrev IsPart : Text → Type 0
IsPart p = (is_full p ≡ true) × IsTrimmed p

join-IsPart : (p : Text) (ps : List Text) → IsPart p → All IsPart ps → IsPart (join_slash (p ∷ ps))
join-IsPart p [] h hs = h
join-IsPart p (q ∷ ps) h hs =
    let rest = join-IsPart q ps hs.0 hs.1 in
    let tail = slash ∷ join_slash (q ∷ ps) in
    (
      append-full p tail h.0,
      (
        append-starts p tail h.0 h.1.0,
        append-ends p slash (join_slash (q ∷ ps)) (slash-ends _ rest.0 rest.1.1),
      ),
    )
  where
    append-full : (s t : Text) → is_full s ≡ true → is_full (s ++ t) ≡ true
    append-full [] t full = absurd (cc)
    append-full (c ∷ s) t full = refl

join-IsTrimmed : (ps : List Text) → All IsPart ps → IsTrimmed (join_slash ps)
join-IsTrimmed [] h = (refl, refl)
join-IsTrimmed (p ∷ ps) h = (join-IsPart p ps h.0 h.1).1

parts_of : (ps : List Text) → All IsPart (select is_full (map trim_slashes ps))
parts_of [] = tt
parts_of (p ∷ ps) = elim (Bool-cases (is_full (trim_slashes p))) [
  | inl e ↦ rw e ((e, trim_slashes-IsTrimmed p), parts_of ps)
  | inr e ↦ rw e (parts_of ps)
]

normalize_plain : (s : Text) → starts_plain s ≡ true → normalize_key s ≡ s
unfolding normalize_key
normalize_plain [] h = refl
normalize_plain (c ∷ s) h = let plain : nat_eq c slash ≡ false = ground (arith, h) in rw plain refl

strip_plain : (s : Text) → ends_plain s ≡ true → strip_end s ≡ s
strip_plain [] h = refl
strip_plain (c ∷ []) h = let plain : nat_eq c slash ≡ false = ground (arith, h) in rw plain refl
strip_plain (c ∷ d ∷ s) h =
    let rest = strip_plain (d ∷ s) h in
    ap (λ r. if nat_eq c slash && is_empty r then [] else c ∷ r) rest ∙ kept (nat_eq c slash)
  where
    kept : (b : Bool) → (if b && is_empty (d ∷ s) then [] else c ∷ d ∷ s) ≡ c ∷ d ∷ s
    kept true = refl
    kept false = refl

-- A key that is built is canonical, whatever slashes its segments came with: trimming it changes
-- nothing, and without an environment prefix it is stored as it is.
pub build_key-canonical :
    (parts : List Text) (key : Text)
    → build_key parts ≡ ok key
    → (trim_slashes key ≡ key) × (apply_prefix [] key ≡ key)
unfolding build_key trim_slashes apply_prefix
build_key-canonical [] key h = absurd (cc)
build_key-canonical (p ∷ ps) key h =
    let joined : join_slash (select is_full (map trim_slashes (p ∷ ps))) ≡ key = cc in
    let (starts, ends) =
      subst IsTrimmed joined
        (join-IsTrimmed (select is_full (map trim_slashes (p ∷ ps))) (parts_of (p ∷ ps))) in
    (ap strip_end (normalize_plain key starts) ∙ strip_plain key ends, normalize_plain key starts)
