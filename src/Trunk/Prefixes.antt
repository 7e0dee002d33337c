-- ===== src/Trunk/Prefixes.antt =====
-- TrunkLink.cpp: prefix lists and the talk groups that they route.
use geu_reflector.Base.{
  ℕ, Bool, true, false, not, ◌&&◌, List, [], ◌∷◌, ◌++◌, Bytes, ltb, if◌then◌else◌, is_empty, length,
  to_string, get_lines, trim, has_prefix,
}

-- The prefix tables of one link.
pub record Routes : Type 0 where
  pub local_prefix : List Bytes
  pub remote_prefix : List Bytes
  pub routable_prefixes : List Bytes
  pub routable_wildcard : Bool
  pub all_prefixes : List Bytes

unfoldable pub keep_tokens : List Bytes → List Bytes
keep_tokens [] = []
keep_tokens (l ∷ ls) =
    let rest = keep_tokens ls in if is_empty (trim l) then rest else trim l ∷ rest

unfoldable pub split_prefixes : Bytes → List Bytes
split_prefixes s = keep_tokens (get_lines b',' s)

unfoldable pub join_from : Bytes → List Bytes → Bytes
join_from r [] = r
join_from r (p ∷ ps) = join_from ((if is_empty r then r else r ++ b',' ∷ []) ++ p) ps

unfoldable pub join_prefixes : List Bytes → Bytes
join_prefixes ps = join_from [] ps

-- One of the two loops of `isSharedTG` that look for the longest claim.
unfoldable pub best_match : Bytes → ℕ × Bool → List Bytes → ℕ × Bool
best_match s b [] = b
best_match s (best, matched) (p ∷ ps) =
    best_match s
      (if has_prefix s p && ltb best (length p) then (length p, true) else (best, matched)) ps

-- The loop over all prefixes: is there a longer one?
unfoldable pub has_longer : Bytes → ℕ → List Bytes → Bool
has_longer s n [] = false
has_longer s n (p ∷ ps) =
    let rest = has_longer s n ps in if ltb n (length p) && has_prefix s p then true else rest

unfoldable pub any_prefix : Bytes → List Bytes → Bool
any_prefix s [] = false
any_prefix s (p ∷ ps) = let rest = any_prefix s ps in if has_prefix s p then true else rest

unfoldable pub is_shared_tg : Routes → ℕ → Bool
is_shared_tg r tg =
    let s = to_string tg in
    let (best, matched) =
      best_match s (best_match s (0, false) r.remote_prefix) r.routable_prefixes in
    if not matched
    then if not r.routable_wildcard then false else not (has_longer s 0 r.all_prefixes)
    else not (has_longer s best r.all_prefixes)

unfoldable pub matches_routable : Routes → ℕ → Bool
matches_routable r tg =
    if r.routable_wildcard then true else any_prefix (to_string tg) r.routable_prefixes

unfoldable pub is_owned_tg : Routes → ℕ → Bool
is_owned_tg r tg =
    if any_prefix (to_string tg) r.local_prefix
    then true
    else any_prefix (to_string tg) r.remote_prefix
