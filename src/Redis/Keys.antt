-- ===== src/Redis/Keys.antt =====
-- The key names of src/modules/redis/redis.constants.ts, and the subscriber of
-- src/modules/redis/redis.module.ts, which turns the name of an expired key into an event.
use Prim.Native.String.{len, slice}
pub mod Names
use ios_backend.Base.{
  ℕ, ◌≡◌, refl, ◌≢◌, Bool, true, false, Option, none, some, String, ◌==◌, if◌then◌else◌, arith,
}
use Prim.Native.String
use text.Mathlib.Text.{starts_with}

abbrev pub exam_session_prefix : String
exam_session_prefix = "exam:session:"

abbrev pub exam_grace_prefix : String
exam_grace_prefix = "exam:grace:"

abbrev pub grace_window_seconds : ℕ
grace_window_seconds = 120

unfoldable pub session_key : String → String
session_key session_id = String.◌++◌ exam_session_prefix session_id

unfoldable pub grace_key : String → String
grace_key session_id = String.◌++◌ exam_grace_prefix session_id

pub data KeyspaceExpired : Type 0 where
  session grace : String → KeyspaceExpired

-- The handler of the `message` event; a key of another kind is ignored.
pub on_expired : String → Option KeyspaceExpired
on_expired key =
    if starts_with key exam_session_prefix
    then some (KeyspaceExpired.session (slice key (len exam_session_prefix) (len key)))
    else if starts_with key exam_grace_prefix
    then some (KeyspaceExpired.grace (slice key (len exam_grace_prefix) (len key)))
    else none
