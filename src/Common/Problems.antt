-- ===== src/Common/Problems.antt =====
-- `GlobalExceptionFilter` of src/common/filters/global-exception.filter.ts, with the code registry
-- and `codeToSlug` of src/common/errors/error-codes.ts: what an exception is answered with. The
-- translations come from nestjs-i18n, which is a parameter.
pub mod Answers
use Prim.Native.String.{String, ◌++◌}
use ios_backend.Base.{
  ℕ, Bool, true, false, not, ◌&&◌, Option, none, some, ◌==◌, List, [], ◌∷◌, map, nat_eq, leb,
  or_else, if◌then◌else◌,
}

-- An entry of the messages of class-validator: a text, or a violation with its constraints.
pub data MessageEntry : Type 0 where
  plain : String → MessageEntry
  violation : Option String → List (String × String) → MessageEntry

-- The `message` (or `errors`) of a response body.
pub data BodyField : Type 0 where
  absent other_field : BodyField
  text_field : String → BodyField
  entries : List MessageEntry → BodyField

-- `exception.getResponse()`: a text or an object.
pub data ResponseBody : Type 0 where
  text_body : String → ResponseBody
  object_body : BodyField → BodyField → ResponseBody

pub record ValidationErrorItem : Type 0 where
  pub field : String
  pub code : String
  pub message : String

-- What is thrown: an `AppException`, a `BadRequestException`, another `HttpException`, or anything.
pub data Thrown : Type 0 where
  app_exception : ℕ → String → String → Option (List ValidationErrorItem) → Thrown
  bad_request_exception : ResponseBody → String → Thrown
  http_exception : ℕ → ResponseBody → String → Thrown
  unknown_error : String → Thrown

pub record ResolvedError : Type 0 where
  pub status : ℕ
  pub code : String
  pub i18n_key : String
  pub raw_detail : Option String
  pub errors : Option (List ValidationErrorItem)

-- The text functions of the runtime: `toUpperCase`, `toLowerCase().replace(/_/g, '-')`, and
-- `nestjs-i18n`'s translation of a key.
pub record ProblemPlatform : Type 0 where
  pub to_upper_case : String → String
  pub to_slug : String → String
  pub translate : String → String → String

abbrev pub entry_text : MessageEntry → String
entry_text (plain s) = s
entry_text (violation property constraints) = "[object Object]"

-- `join('; ')`.
abbrev pub join_messages : List MessageEntry → String
join_messages [] = ""
join_messages (e ∷ []) = entry_text e
join_messages (e ∷ f ∷ es) = entry_text e ++ "; " ++ join_messages (f ∷ es)

abbrev message_text : BodyField → String → String
message_text absent fallback = fallback
message_text other_field fallback = fallback
message_text (text_field s) fallback = s
message_text (entries es) fallback = join_messages es

unfoldable pub extract_raw_message : ResponseBody → String → String
extract_raw_message (text_body s) fallback = s
extract_raw_message (object_body message errors) fallback = message_text message fallback

abbrev pub root_item : String → ValidationErrorItem
root_item message = record { field = "_root"; code = "INVALID"; message = message }

module _ (env : ProblemPlatform) where
  -- The first constraint of a violation.
  abbrev constraint_item : String → List (String × String) → ValidationErrorItem
  constraint_item field [] = record { field = field; code = "INVALID"; message = "Invalid" }
  constraint_item field ((name, message) ∷ rest) = record {
    field = field;
    code = env.to_upper_case name;
    message = message;
  }

  abbrev pub entry_item : MessageEntry → ValidationErrorItem
  entry_item (plain s) = root_item s
  entry_item (violation property constraints) =
      constraint_item (or_else property "_root") constraints

  abbrev pub field_items : BodyField → List ValidationErrorItem
  field_items absent = root_item "Validation failed" ∷ []
  field_items other_field = root_item "Validation failed" ∷ []
  field_items (text_field s) = root_item s ∷ []
  field_items (entries es) = map entry_item es

  -- `message ?? errors`.
  abbrev pub first_field : BodyField → BodyField → BodyField
  first_field absent errors = errors
  first_field other_field errors = other_field
  first_field (text_field s) errors = text_field s
  first_field (entries es) errors = entries es

  unfoldable pub flatten_validator_messages : ResponseBody → List ValidationErrorItem
  flatten_validator_messages (text_body s) = root_item s ∷ []
  flatten_validator_messages (object_body message errors) = field_items (first_field message errors)

unfoldable pub status_to_code : ℕ → String
status_to_code status =
    if nat_eq status 401
    then "JWT_INVALID"
    else if nat_eq status 403
    then "INSUFFICIENT_ROLE"
    else if nat_eq status 404
    then "RESOURCE_NOT_FOUND"
    else if nat_eq status 409
    then "RESOURCE_ALREADY_EXISTS"
    else if nat_eq status 429
    then "RATE_LIMITED"
    else if nat_eq status 422
    then "VALIDATION_FAILED"
    else if nat_eq status 400
    then "VALIDATION_FAILED"
    else "INTERNAL"

unfoldable pub status_to_i18n_key : ℕ → String
status_to_i18n_key status =
    if nat_eq status 401
    then "errors.auth.jwt_invalid"
    else if nat_eq status 403
    then "errors.auth.insufficient_role"
    else if nat_eq status 404
    then "errors.domain.resource_not_found"
    else if nat_eq status 409
    then "errors.domain.resource_already_exists"
    else if nat_eq status 429
    then "errors.infrastructure.rate_limited"
    else if nat_eq status 422
    then "errors.validation.failed"
    else if nat_eq status 400
    then "errors.validation.failed"
    else "errors.infrastructure.internal"

-- Only an object whose `message` is an array is the output of class-validator.
abbrev pub is_validator_output : ResponseBody → Bool
is_validator_output (object_body (entries es) errors) = true
is_validator_output (object_body absent errors) = false
is_validator_output (object_body other_field errors) = false
is_validator_output (object_body (text_field s) errors) = false
is_validator_output (text_body s) = false

unfoldable pub resolve : ProblemPlatform → Thrown → ResolvedError
unfolding extract_raw_message flatten_validator_messages status_to_code status_to_i18n_key
resolve env (app_exception status code i18n_key errors) = record {
  status = status;
  code = code;
  i18n_key = i18n_key;
  raw_detail = none;
  errors = errors;
}
resolve env (bad_request_exception body message) =
    if is_validator_output body
    then record {
      status = 400;
      code = "VALIDATION_FAILED";
      i18n_key = "errors.validation.failed";
      raw_detail = none;
      errors = some (flatten_validator_messages env body);
    }
    else record {
      status = 400;
      code = "VALIDATION_FAILED";
      i18n_key = "errors.validation.failed";
      raw_detail = some (extract_raw_message body message);
      errors = none;
    }
resolve env (http_exception status body message) = record {
  status = status;
  code = status_to_code status;
  i18n_key = status_to_i18n_key status;
  raw_detail = some (extract_raw_message body message);
  errors = none;
}
resolve env (unknown_error message) = record {
  status = 500;
  code = "INTERNAL";
  i18n_key = "errors.infrastructure.internal";
  raw_detail = none;
  errors = none;
}

-- The members of the response body that depend on the exception.
pub record Problem : Type 0 where
  pub type_url : String
  pub title : String
  pub status : ℕ
  pub detail : String
  pub code : String
  pub errors : Option (List ValidationErrorItem)

unfoldable pub catch_exception : ProblemPlatform → String → Thrown → Problem
unfolding resolve
catch_exception env lang thrown =
    let resolved = resolve env thrown in
    record {
      type_url = "https://ios-lms.com/errors/" ++ env.to_slug resolved.code;
      title = env.translate lang (resolved.i18n_key ++ ".title");
      status = resolved.status;
      detail = or_else resolved.raw_detail (env.translate lang (resolved.i18n_key ++ ".detail"));
      code = resolved.code;
      errors = resolved.errors;
    }

pub data LogLevel : Type 0 where
  error_level warn_level debug_level : LogLevel

-- The level that `log` writes at.
unfoldable pub log_level : ResolvedError → LogLevel
log_level resolved =
    if leb 500 resolved.status
    then error_level
    else if resolved.code == "REFRESH_TOKEN_REUSED"
    then warn_level
    else if leb 400 resolved.status && not (resolved.code == "VALIDATION_FAILED")
    then warn_level
    else debug_level
