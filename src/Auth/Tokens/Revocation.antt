-- ===== src/Auth/Tokens/Revocation.antt =====
-- What revoking and issuing do to the refresh tokens.
use ios_backend.Base.{ℕ, ◌≡◌, refl, String, List, [], ◌∷◌, count, update, arith}
use ios_backend.Auth.Types.{
  AccountType, RefreshToken, AuthDb, is_unrevoked_of, refresh_has_id, is_unrevoked_with_id,
}
use ios_backend.Auth.Tokens.{revoke, revoke_all_refresh_tokens, set_hash}

count_revoked :
    (subject_id : String) (kind : AccountType) (now : ℕ) (rows : List RefreshToken)
    → count
        (is_unrevoked_of subject_id kind)
        (update (is_unrevoked_of subject_id kind) (revoke now) rows)
      ≡ 0
count_revoked subject_id AccountType.student now [] = refl
count_revoked subject_id AccountType.admin now [] = refl
count_revoked subject_id AccountType.student now (x ∷ xs) =
    ground (arith, count_revoked subject_id AccountType.student now xs)
count_revoked subject_id AccountType.admin now (x ∷ xs) =
    ground (arith, count_revoked subject_id AccountType.admin now xs)

-- No session of the subject is left.
pub revoke_all_refresh_tokens-count :
    (subject_id : String) (kind : AccountType) (now : ℕ) (s : AuthDb)
    → count
        (is_unrevoked_of subject_id kind)
        (revoke_all_refresh_tokens subject_id kind now s).1.refresh_tokens
      ≡ 0
unfolding revoke_all_refresh_tokens
revoke_all_refresh_tokens-count subject_id kind now s =
    count_revoked subject_id kind now s.refresh_tokens

-- A row revoked by its id is not unrevoked any more.
pub count_claimed :
    (id now : ℕ) (rows : List RefreshToken)
    → count (is_unrevoked_with_id id) (update (is_unrevoked_with_id id) (revoke now) rows) ≡ 0
count_claimed id now [] = refl
count_claimed id now (x ∷ xs) = ground (arith, count_claimed id now xs)

pub count_hashed :
    (hash : String) (id j : ℕ) (rows : List RefreshToken)
    → count (is_unrevoked_with_id j) (update (refresh_has_id id) (set_hash hash) rows)
      ≡ count (is_unrevoked_with_id j) rows
count_hashed hash id j [] = refl
count_hashed hash id j (x ∷ xs) = ground (arith, count_hashed hash id j xs)
