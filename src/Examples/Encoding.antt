-- ===== src/Examples/Encoding.antt =====
-- A text for the JSON values of src/modules/exam: each character of a part stands behind a mark, and
-- each part ends with another mark.
use Prim.Native.Char.{Char, code}
use ios_backend.Base.{
  ℕ, zero, suc, ◌≡◌, refl, ap, ◌∙◌, Bool, Option, none, some, String, List, [], ◌∷◌, length, nat_eq,
  if◌then◌else◌,
}
use text.Mathlib.TextBridge.{to_list, of_list, to_list-of_list, of_list-to_list}
use ios_backend.Redis.Client.{Json}
use ios_backend.Exam.Types.{Answers}
use ios_backend.Exam.Platform.{ExamSessionData, GraceData}

abbrev pub Part : Type 0
Part = List Char

abbrev more : Char
more = "1"

abbrev end_ : Char
end_ = "0"

abbrev is_more : Char → Bool
is_more c = nat_eq (code c) 49

abbrev push : Char → List Part → List Part
push c [] = (c ∷ []) ∷ []
push c (w ∷ ws) = (c ∷ w) ∷ ws

abbrev write : Part → List Char → List Char
write [] r = end_ ∷ end_ ∷ r
write (c ∷ w) r = more ∷ c ∷ write w r

abbrev write_all : List Part → List Char
write_all [] = []
write_all (w ∷ ws) = write w (write_all ws)

abbrev parts : List Char → List Part
parts [] = []
parts (m ∷ []) = []
parts (m ∷ c ∷ r) = let rest = parts r in if is_more m then push c rest else [] ∷ rest

parts-write : (w : Part) (r : List Char) → parts (write w r) ≡ w ∷ parts r
parts-write [] r = refl
parts-write (c ∷ w) r = rw (parts-write w r) refl

parts-write_all : (ws : List Part) → parts (write_all ws) ≡ ws
parts-write_all [] = refl
parts-write_all (w ∷ ws) = parts-write w (write_all ws) ∙ ap (λ x. w ∷ x) (parts-write_all ws)

abbrev pub ones : ℕ → Part
ones zero = []
ones (suc n) = more ∷ ones n

pub length-ones : (n : ℕ) → length (ones n) ≡ n
length-ones zero = refl
length-ones (suc n) = ap suc (length-ones n)

abbrev pairs : Answers → List Part
pairs [] = []
pairs ((k, v) ∷ rest) = to_list k ∷ to_list v ∷ pairs rest

abbrev unpair : List Part → Answers
unpair [] = []
unpair (k ∷ []) = []
unpair (k ∷ v ∷ rest) = (of_list k, of_list v) ∷ unpair rest

pub unpair-pairs : (a : Answers) → unpair (pairs a) ≡ a
unpair-pairs [] = refl
unpair-pairs ((k, v) ∷ rest) = rw (of_list-to_list k, of_list-to_list v, unpair-pairs rest) refl

abbrev pub text_of : List Part → String
text_of ws = of_list (write_all ws)

abbrev pub parts_of : String → List Part
parts_of t = parts (to_list t)

pub parts_of-text_of : (ws : List Part) → parts_of (text_of ws) ≡ ws
parts_of-text_of ws = ap parts (to_list-of_list (write_all ws)) ∙ parts-write_all ws

abbrev read_grace : String → Option GraceData
read_grace t = some (record { snapshot = unpair (parts_of t) })

abbrev pub grace_json : Json GraceData
grace_json = record {
  stringify = λ g. text_of (pairs g.snapshot);
  parse = read_grace;
  parse-stringify = λ g. rw (parts_of-text_of (pairs g.snapshot), unpair-pairs g.snapshot) refl;
}

abbrev session_of : List Part → Option ExamSessionData
session_of [] = none
session_of (a ∷ []) = none
session_of (a ∷ b ∷ []) = none
session_of (a ∷ b ∷ c ∷ []) = none
session_of (a ∷ b ∷ c ∷ d ∷ []) = none
session_of (a ∷ b ∷ c ∷ d ∷ n ∷ rest) = some (record {
  session_id = of_list a;
  user_id = of_list b;
  exam_id = of_list c;
  cert_id = of_list d;
  started_at = length n;
  answers = unpair rest;
})

abbrev session_parts : ExamSessionData → List Part
session_parts x =
    to_list x.session_id
    ∷ to_list x.user_id
    ∷ to_list x.exam_id
    ∷ to_list x.cert_id
    ∷ ones x.started_at
    ∷ pairs x.answers

abbrev pub session_json : Json ExamSessionData
session_json = record {
  stringify = λ x. text_of (session_parts x);
  parse = λ t. session_of (parts_of t);
  parse-stringify = λ x.
      rw
        (
          parts_of-text_of (session_parts x),
          of_list-to_list x.session_id,
          of_list-to_list x.user_id,
          of_list-to_list x.exam_id,
          of_list-to_list x.cert_id,
          length-ones x.started_at,
          unpair-pairs x.answers,
        )
        refl;
}
