-- ===== src/Redis/Service.antt =====
-- src/modules/redis/redis.service.ts
use ios_backend.Base.{ℕ, Bool, Option, none, some, String, ok, err, failure, Action, pure, ◌>>=◌}
use ios_backend.Redis.Client.{RedisClient, Pttl, Json}

-- A command that the client rejects throws, and leaves the store as it was.
abbrev pub command : {S A : Type 0} → (S → Option (A × S)) → Action S A
command f s = elim (f s) [ none ↦ (err (failure "redis"), s) | some (a, t) ↦ (ok a, t) ]

abbrev pub query : {S A : Type 0} → (S → Option A) → Action S A
query f s = elim (f s) [ none ↦ (err (failure "redis"), s) | some a ↦ (ok a, s) ]

abbrev pub write : {S : Type 0} → (S → Option S) → Action S (Unit {0})
write f s = elim (f s) [ none ↦ (err (failure "redis"), s) | some t ↦ (ok tt, t) ]

-- `null` where there is nothing, or where the text is no JSON.
abbrev pub decode : {V : Type 0} → Json V → Option String → Option V
decode j none = none
decode j (some raw) = j.parse raw

module _ (c : RedisClient) {V : Type 0} (j : Json V) where
  unfoldable pub set_json : ℕ → String → V → ℕ → Action c.Store (Unit {0})
  set_json now key value ttl_seconds = write (c.set_ex now key (j.stringify value) ttl_seconds)

  unfoldable pub set_json_keep_ttl : ℕ → String → V → Action c.Store Bool
  set_json_keep_ttl now key value = command (c.set_keepttl_xx now key (j.stringify value))

  unfoldable pub get_json : ℕ → String → Action c.Store (Option V)
  get_json now key = do pure (decode j (← query (c.get now key)))

  unfoldable pub get_del_json : ℕ → String → Action c.Store (Option V)
  get_del_json now key = do pure (decode j (← command (c.getdel now key)))

module _ (c : RedisClient) where
  unfoldable pub pttl : ℕ → String → Action c.Store Pttl
  pttl now key = query (c.pttl now key)

  unfoldable pub del : String → Action c.Store (Unit {0})
  del key = write (c.del key)
