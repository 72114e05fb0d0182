-- ===== src/Common/Problems/Answers.antt =====
-- What the answers of src/common/filters/global-exception.filter.ts have in common.
use ios_backend.Base.{
  ℕ, Option, none, some, String, List, [], ◌∷◌, lookup, ◌≡◌, refl, Bool-cases, inl, inr, nat_eq,
  length, map, ap, suc,
}
use ios_backend.Common.Problems.{
  object_body, BodyField, entries, MessageEntry, bad_request_exception, unknown_error,
  ProblemPlatform, resolve, catch_exception, status_to_code, status_to_i18n_key, log_level,
  error_level, flatten_validator_messages, entry_item,
}

-- The translation key of a code.
abbrev pub keys_of_codes : List (String × String)
keys_of_codes =
    ("JWT_INVALID", "errors.auth.jwt_invalid")
    ∷ ("INSUFFICIENT_ROLE", "errors.auth.insufficient_role")
    ∷ ("RESOURCE_NOT_FOUND", "errors.domain.resource_not_found")
    ∷ ("RESOURCE_ALREADY_EXISTS", "errors.domain.resource_already_exists")
    ∷ ("RATE_LIMITED", "errors.infrastructure.rate_limited")
    ∷ ("VALIDATION_FAILED", "errors.validation.failed")
    ∷ ("INTERNAL", "errors.infrastructure.internal")
    ∷ []

-- Whatever its status, the code and the translated title of an HTTP exception go together: the key
-- of the title is the one of the code.
pub status_to_code-status_to_i18n_key :
    (status : ℕ) → lookup keys_of_codes (status_to_code status) ≡ some (status_to_i18n_key status)
unfolding status_to_code status_to_i18n_key
status_to_code-status_to_i18n_key status = elim (Bool-cases (nat_eq status 401)) [
  | inl e ↦ rw e refl
  | inr a ↦ elim (Bool-cases (nat_eq status 403)) [
    | inl e ↦ rw (a, e) refl
    | inr b ↦ elim (Bool-cases (nat_eq status 404)) [
      | inl e ↦ rw (a, b, e) refl
      | inr c ↦ elim (Bool-cases (nat_eq status 409)) [
        | inl e ↦ rw (a, b, c, e) refl
        | inr d ↦ elim (Bool-cases (nat_eq status 429)) [
          | inl e ↦ rw (a, b, c, d, e) refl
          | inr f ↦ elim (Bool-cases (nat_eq status 422)) [
            | inl e ↦ rw (a, b, c, d, f, e) refl
            | inr g ↦ elim (Bool-cases (nat_eq status 400)) [
              | inl e ↦ rw (a, b, c, d, f, g, e) refl
              | inr h ↦ rw (a, b, c, d, f, g, h) refl
            ]
          ]
        ]
      ]
    ]
  ]
]

-- The message of an error that is no HTTP exception never reaches the client: two such errors are
-- answered alike, with status 500 and no list of errors, and both are logged as errors.
pub catch_exception-unknown_error :
    (env : ProblemPlatform) (lang m n : String)
    → (catch_exception env lang (unknown_error m) ≡ catch_exception env lang (unknown_error n))
      × ((catch_exception env lang (unknown_error m)).status ≡ 500)
      × ((catch_exception env lang (unknown_error m)).errors ≡ none)
      × (log_level (resolve env (unknown_error m)) ≡ error_level)
unfolding catch_exception resolve log_level
catch_exception-unknown_error env lang m n = (refl, refl, refl, refl)

items_count :
    (env : ProblemPlatform) (es : List MessageEntry) → length (map (entry_item env) es) ≡ length es
items_count env [] = refl
items_count env (e ∷ es) = ap suc (items_count env es)

abbrev pub map_length : {A : Type 0} → Option (List A) → Option ℕ
map_length none = none
map_length (some xs) = some (length xs)

-- Every complaint of the validator is reported: the answer to its output has status 400, one item
-- for each message, and no text of the exception in its detail.
pub catch_exception-validator :
    (env : ProblemPlatform) (lang message : String) (es : List MessageEntry) (errors : BodyField)
    → let p =
        catch_exception env lang
          (bad_request_exception (object_body (entries es) errors) message) in
      (p.status ≡ 400)
      × (map_length p.errors ≡ some (length es))
      × (p.detail ≡ env.translate lang "errors.validation.failed.detail")
unfolding catch_exception resolve flatten_validator_messages
catch_exception-validator env lang message es errors = (refl, ap some (items_count env es), refl)
