-- ===== src/Redis/Keys/Names.antt =====
-- The key names are read back, and keys of the two kinds never meet.
use Prim.Native.Char.{Char, code}
use Prim.Native.String
use Prim.Native.String.{len}
use text.Mathlib.TextEquality.{starts_with_iff}
use text.Mathlib.TextLemmas.{append_assoc, append_cancel_left, cons-append, head-eq_of_cons-eq}
use text.Mathlib.TextPositions.{starts_with-append, slice-append_right, len-append}
use text.Mathlib.Text.{starts_with}
use ios_backend.Base.{
  ◌≡◌, sym, ap, ◌∙◌, ◌≢◌, String, false, some, inl, inr, arith, Bool-cases, ◌==◌, eq_iff,
}
use ios_backend.Redis.Keys.{
  session_key, grace_key, on_expired, KeyspaceExpired, exam_session_prefix, exam_grace_prefix,
}

-- After the common "exam:" the two prefixes begin with different letters.
letters_differ : (a b : String) → String.◌++◌ "session:" a ≢ String.◌++◌ "grace:" b
letters_differ a b e =
    let same : ◌≡◌ {A = Char} "s" "g" =
      head-eq_of_cons-eq (sym (cons-append "s" "ession:" a) ∙ e ∙ cons-append "g" "race:" b) in
    absurd (omega (arith, ap code same))

prefixes_differ :
    (a b : String) → String.◌++◌ exam_session_prefix a ≢ String.◌++◌ exam_grace_prefix b
prefixes_differ a b e = letters_differ a b (
    append_cancel_left "exam:" (String.◌++◌ "session:" a) (String.◌++◌ "grace:" b)
      (sym (append_assoc "exam:" "session:" a) ∙ e ∙ append_assoc "exam:" "grace:" b))

-- No session key is a grace key, whatever the two ids are.
pub session_key-ne-grace_key : (a b : String) → session_key a ≢ grace_key b
unfolding session_key grace_key
session_key-ne-grace_key a b = prefixes_differ a b

pub session_key-eq_grace_key : (a b : String) → (session_key a == grace_key b) ≡ false
session_key-eq_grace_key a b =
    ground (arith, eq_iff (session_key a) (grace_key b), session_key-ne-grace_key a b)

pub grace_key-eq_session_key : (a b : String) → (grace_key b == session_key a) ≡ false
grace_key-eq_session_key a b =
    ground (arith, eq_iff (grace_key b) (session_key a), session_key-ne-grace_key a b)

not_session :
    (b : String) → starts_with (String.◌++◌ exam_grace_prefix b) exam_session_prefix ≡ false
not_session b =
    elim (Bool-cases (starts_with (String.◌++◌ exam_grace_prefix b) exam_session_prefix)) [
      | inl e ↦
          let (u, same) =
            (starts_with_iff (String.◌++◌ exam_grace_prefix b) exam_session_prefix).0 e in
          absurd (prefixes_differ u b same)
      | inr e ↦ e
    ]

suffix_of : (p s : String) → String.slice (String.◌++◌ p s) (len p) (len (String.◌++◌ p s)) ≡ s
suffix_of p s = rw (len-append p s) (slice-append_right p s)

-- The subscriber gets back the kind and the id of every key that the application writes.
pub on_expired_keys :
    (session_id : String)
    → (on_expired (session_key session_id) ≡ some (KeyspaceExpired.session session_id))
      × (on_expired (grace_key session_id) ≡ some (KeyspaceExpired.grace session_id))
unfolding on_expired session_key grace_key
on_expired_keys id = (
  rw (starts_with-append exam_session_prefix id)
      (ap some (ap KeyspaceExpired.session (suffix_of exam_session_prefix id))),
  rw (not_session id, starts_with-append exam_grace_prefix id)
      (ap some (ap KeyspaceExpired.grace (suffix_of exam_grace_prefix id))),
)
