-- ===== src/Examples/Setting.antt =====
-- The platform of the examples: a Redis that may be down, the texts of `Encoding`, and a bcrypt that
-- keeps the text.
use ios_backend.Base.{
  ℕ, ◌+◌, ◌*◌, ◌≡◌, ap, inl, inr, Bool-cases, eq_iff, Bool, false, ◌&&◌, Option, none, some, String,
  ◌==◌, arith, eq_refl, if◌then◌else◌,
}
use ios_backend.Crypto.{Bcrypt}
use ios_backend.Redis.Client.{RedisClient, Entry, is_live, live_value, live_pttl, overwrite}
use ios_backend.Exam.Platform.{Platform}
use ios_backend.Examples.Rounding.{rounding}
use ios_backend.Examples.Encoding.{session_json, grace_json}

-- Whether the server answers, and its entries.
pub record Server : Type 0 where
  pub up : Bool
  pub entries : String → Option Entry

abbrev pub put : String → Option Entry → Server → Server
put k e s = record s { entries = λ j. if k == j then e else s.entries j }

abbrev pub set_live : ℕ → String → String → Server → Option (Bool × Server)
set_live now k v s =
    if s.up
    then some (
      is_live now (s.entries k),
      if is_live now (s.entries k) then put k (overwrite v (s.entries k)) s else s,
    )
    else none

pub put_live :
    (now : ℕ) (k v : String) (b : Bool) (s t : Server) (j : String)
    → set_live now k v s ≡ some (b, t)
    → t.entries j
      ≡ (if k == j && is_live now (s.entries k) then overwrite v (s.entries j) else s.entries j)
put_live now k v b s t j h = elim (Bool-cases (k == j)) [
  | inl same ↦
      let at : s.entries k ≡ s.entries j = ap s.entries ((eq_iff k j).0 same) in
      ground (arith, same, at)
  | inr other ↦ ground (arith, other)
]

abbrev pub server_redis : RedisClient
server_redis = record {
  Store = Server;
  entry = λ s. s.entries;
  set_ex = λ now k v ttl s.
      if s.up
      then some (put k (some (record { value = v; deadline = some (now + ttl * 1000) })) s)
      else none;
  set_keepttl_xx = set_live;
  get = λ now k s. if s.up then some (live_value now (s.entries k)) else none;
  getdel = λ now k s. if s.up then some (live_value now (s.entries k), put k none s) else none;
  pttl = λ now k s. if s.up then some (live_pttl now (s.entries k)) else none;
  del = λ k s. if s.up then some (put k none s) else none;
  entry-set_ex = λ now k v ttl s t j h. ground arith;
  entry-set_keepttl_xx = λ now k v b s t j h. (ground arith, put_live now k v b s t j h);
  get_lem = λ now k s r h. ground arith;
  entry-getdel = λ now k r s t j h. ground arith;
  pttl_lem = λ now k s p h. ground arith;
  entry-del = λ k s t j h. ground arith;
}

abbrev pub plain_bcrypt : Bcrypt
plain_bcrypt = record {
  hash = λ plain cost salt. plain;
  compare = λ plain hash. plain == hash;
  compare-hash = λ plain cost salt. eq_refl plain;
}

abbrev pub platform : Platform
platform = record {
  redis = server_redis;
  session_json = session_json;
  grace_json = grace_json;
  bcrypt = plain_bcrypt;
  rounding = rounding;
  start_faults = λ session_id. record { lost_reply = false; compensation = false; load = false };
}
