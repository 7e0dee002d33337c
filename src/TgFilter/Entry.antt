-- ===== src/TgFilter/Entry.antt =====
-- TgFilter.h. A `uint32_t` that is given an `unsigned long` keeps its low 32 bits.
use geu_reflector.Base.{
  ℕ, ◌%◌, ◌^◌, Bool, true, false, ◌&&◌, List, [], ◌∷◌, ◌++◌, Option, none, some, Bytes, leb, ◌==◌,
  if◌then◌else◌, is_empty, to_string, stoul, get_lines, trim, has_prefix,
}

pub data Entry : Type 0 where
  exact : ℕ → Entry
  prefix : Bytes → Entry
  range : ℕ → ℕ → Entry

abbrev pub TgFilter : Type 0
TgFilter = List Entry

abbrev pub u32 : ℕ → ℕ
u32 n = n % 2 ^ 32

-- `tok.back() == '*'`
unfoldable pub ends_star : Bytes → Bool
ends_star [] = false
ends_star (x ∷ []) = x == b'*'
ends_star (x ∷ y ∷ s) = ends_star (y ∷ s)

unfoldable pub drop_last : Bytes → Bytes
drop_last [] = []
drop_last (x ∷ []) = []
drop_last (x ∷ y ∷ s) = x ∷ drop_last (y ∷ s)

-- The text on both sides of the first dash.
abbrev pub before : ℕ → Option (Bytes × Bytes) → Option (Bytes × Bytes)
before x none = none
before x (some (a, b)) = some (x ∷ a, b)

unfoldable pub split_at : ℕ → Bytes → Option (Bytes × Bytes)
split_at d [] = none
split_at d (x ∷ s) = let rest = before x (split_at d s) in if x == d then some ([], s) else rest

unfoldable pub range_entry : Option ℕ → Option ℕ → Option Entry
range_entry (some a) (some b) = some (range (u32 a) (u32 b))
range_entry _ _ = none

unfoldable pub exact_entry : Option ℕ → Option Entry
exact_entry (some a) = some (exact (u32 a))
exact_entry none = none

-- The body of the loop behind the trimming; `none` is `continue`.
unfoldable pub parse_token : Bytes → Option Entry
parse_token tok =
    if ends_star tok then some (prefix (drop_last tok)) else elim (split_at b'-' tok) [
      | some (a, b) ↦ range_entry (stoul a) (stoul b)
      | none ↦ exact_entry (stoul tok)
    ]

abbrev pub push : Option Entry → TgFilter → TgFilter
push none f = f
push (some e) f = e ∷ f

unfoldable pub parse_lines : List Bytes → TgFilter
parse_lines [] = []
parse_lines (l ∷ ls) =
    if is_empty (trim l) then parse_lines ls else push (parse_token (trim l)) (parse_lines ls)

unfoldable pub parse : Bytes → TgFilter
parse s = parse_lines (get_lines b',' s)

unfoldable pub entry_matches : ℕ → Entry → Bool
entry_matches tg (exact v) = tg == v
entry_matches tg (prefix p) = has_prefix (to_string tg) p
entry_matches tg (range a b) = leb a tg && leb tg b

unfoldable pub any_matches : ℕ → TgFilter → Bool
any_matches tg [] = false
any_matches tg (e ∷ f) = let rest = any_matches tg f in if entry_matches tg e then true else rest

unfoldable pub matches : ℕ → TgFilter → Bool
matches tg f = if is_empty f then true else any_matches tg f

unfoldable pub print_entry : Entry → Bytes
print_entry (exact v) = to_string v
print_entry (prefix p) = p ++ b'*' ∷ []
print_entry (range a b) = to_string a ++ b'-' ∷ to_string b

unfoldable pub print_from : Bytes → TgFilter → Bytes
print_from r [] = r
print_from r (e ∷ f) = print_from ((if is_empty r then r else r ++ b',' ∷ []) ++ print_entry e) f

unfoldable pub filter_to_string : TgFilter → Bytes
filter_to_string f = print_from [] f
