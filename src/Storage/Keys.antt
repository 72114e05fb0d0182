-- ===== src/Storage/Keys.antt =====
-- The keys of src/modules/storage/storage.service.ts: `buildKey`, `normalizeKey` and
-- `applyPrefix`, with the clean-up of the configured prefix.
use ios_backend.Base.{
  ℕ, Bool, not, ◌&&◌, List, [], ◌∷◌, ◌++◌, map, nat_eq, is_empty, if◌then◌else◌, select, Result, ok,
  err, failure,
}
use ios_backend.Mail.Escaping.{Text}

abbrev pub slash : ℕ
slash = b'/'

-- `s.replace(/^\/+/, '')`, which is also `normalizeKey`.
unfoldable pub normalize_key : Text → Text
normalize_key [] = []
normalize_key (c ∷ s) = let rest = normalize_key s in if nat_eq c slash then rest else c ∷ s

-- `s.replace(/\/+$/, '')`.
abbrev pub strip_end : Text → Text
strip_end [] = []
strip_end (c ∷ s) =
    let rest = strip_end s in if nat_eq c slash && is_empty rest then [] else c ∷ rest

-- `s.replace(/^\/+|\/+$/g, '')`.
unfoldable pub trim_slashes : Text → Text
unfolding normalize_key
trim_slashes s = strip_end (normalize_key s)

abbrev pub join_slash : List Text → Text
join_slash [] = []
join_slash (p ∷ []) = p
join_slash (p ∷ q ∷ ps) = p ++ slash ∷ join_slash (q ∷ ps)

abbrev pub is_full : Text → Bool
is_full s = not (is_empty s)

unfoldable pub build_key : List Text → Result Text
unfolding trim_slashes
build_key [] = err (failure "buildKey requires at least one segment")
build_key (p ∷ ps) = ok (join_slash (select is_full (map trim_slashes (p ∷ ps))))

-- The environment's prefix is trimmed when the service is built.
unfoldable pub apply_prefix : Text → Text → Text
unfolding normalize_key trim_slashes
apply_prefix configured key =
    let key_prefix = trim_slashes configured in
    let normalised = normalize_key key in
    if is_full key_prefix then key_prefix ++ slash ∷ normalised else normalised
