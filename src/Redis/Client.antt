-- ===== src/Redis/Client.antt =====
-- The Redis server behind ioredis, which is not part of the repository: its commands, and what
-- their documentation promises. A command may be rejected (`none`). Times are milliseconds.
use ios_backend.Base.{
  ℕ, ◌+◌, ◌-◌, ◌*◌, ◌≡◌, Bool, true, false, ◌&&◌, Option, none, some, String, ◌==◌, ltb,
  if◌then◌else◌,
}

-- What is stored at a key: a text, and the time at which it goes away.
pub record Entry : Type 0 where
  pub value : String
  pub deadline : Option ℕ

abbrev pub before_deadline : ℕ → Option ℕ → Bool
before_deadline now none = true
before_deadline now (some d) = ltb now d

-- An entry is there until its deadline.
abbrev pub is_live : ℕ → Option Entry → Bool
is_live now none = false
is_live now (some e) = before_deadline now e.deadline

abbrev pub live_value : ℕ → Option Entry → Option String
live_value now none = none
live_value now (some e) = if before_deadline now e.deadline then some e.value else none

-- The answer of PTTL: -2, -1 or the time that is left.
pub data Pttl : Type 0 where
  no_key no_ttl : Pttl
  ms : ℕ → Pttl

abbrev left_of : ℕ → Option ℕ → Pttl
left_of now none = no_ttl
left_of now (some d) = if ltb now d then ms (d - now) else no_key

abbrev pub live_pttl : ℕ → Option Entry → Pttl
live_pttl now none = no_key
live_pttl now (some e) = left_of now e.deadline

-- SET … KEEPTTL: another text, the same deadline.
abbrev pub overwrite : String → Option Entry → Option Entry
overwrite v none = none
overwrite v (some e) = some (record e { value = v })

pub record RedisClient : Type 1 where
  pub Store : Type 0
  -- The entry at a key, which the commands read and write.
  pub entry : Store → String → Option Entry
  pub set_ex : ℕ → String → String → ℕ → Store → Option Store
  pub set_keepttl_xx : ℕ → String → String → Store → Option (Bool × Store)
  pub get : ℕ → String → Store → Option (Option String)
  pub getdel : ℕ → String → Store → Option (Option String × Store)
  pub pttl : ℕ → String → Store → Option Pttl
  pub del : String → Store → Option Store
  pub entry-set_ex :
      (now : ℕ) (k v : String) (ttl : ℕ) (s t : Store) (j : String)
      → set_ex now k v ttl s ≡ some t
      → entry t j ≡ (
          if k == j
          then some (record { value = v; deadline = some (now + ttl * 1000) })
          else entry s j)
  pub entry-set_keepttl_xx :
      (now : ℕ) (k v : String) (b : Bool) (s t : Store) (j : String)
      → set_keepttl_xx now k v s ≡ some (b, t)
      → (b ≡ is_live now (entry s k))
        × (entry t j
            ≡ (if k == j && is_live now (entry s k) then overwrite v (entry s j) else entry s j))
  pub get_lem :
      (now : ℕ) (k : String) (s : Store) (r : Option String)
      → get now k s ≡ some r
      → r ≡ live_value now (entry s k)
  pub entry-getdel :
      (now : ℕ) (k : String) (r : Option String) (s t : Store) (j : String)
      → getdel now k s ≡ some (r, t)
      → (r ≡ live_value now (entry s k)) × (entry t j ≡ (if k == j then none else entry s j))
  pub pttl_lem :
      (now : ℕ) (k : String) (s : Store) (p : Pttl)
      → pttl now k s ≡ some p
      → p ≡ live_pttl now (entry s k)
  pub entry-del :
      (k : String) (s t : Store) (j : String)
      → del k s ≡ some t
      → entry t j ≡ (if k == j then none else entry s j)

-- JSON.stringify and JSON.parse at one type of values; a parse may throw.
pub record Json (V : Type 0) : Type 0 where
  pub stringify : V → String
  pub parse : String → Option V
  pub parse-stringify : (v : V) → parse (stringify v) ≡ some v
