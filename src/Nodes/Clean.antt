-- ===== src/Nodes/Clean.antt =====
-- What `sanitizeJsonStrings` promises: a bounded depth, bounded containers and text values that
-- are clean.
use geu_reflector.Base.{
  ℕ, zero, suc, ◌≤◌, ◌<◌, ◌≡◌, refl, Bool, true, false, not, ◌&&◌, List, [], ◌∷◌, Bytes, leb, ltb,
  length, take, arith, ap, subst, ◌↔◌,
}
use geu_reflector.Trunk.Ident.{is_control, sanitize_text}
use geu_reflector.Trunk.Sanitized.{keep_text, sanitize_text_lem}
use geu_reflector.Nodes.Json.{
  Json, null, boolean, unsigned, number, string, array, object, Elements, nil, element, Members,
  end, member, max_depth, max_len, max_str_bytes, sanitize_json_strings, sanitize_elements,
  sanitize_members,
}

-- No control character.
pub has_no_control : Bytes → Bool
has_no_control [] = true
has_no_control (c ∷ cs) = not (is_control c) && has_no_control cs

pub is_clean_text : ℕ → Bytes → Bool
unfolding has_no_control
is_clean_text max s = leb (length s) max && has_no_control s

-- A value at a depth: what lies at the greatest depth is null, a text value is clean and not too
-- long, and an array or object has not too many parts. The names of members may be any.
mutual
  pub is_clean : ℕ → Json → Bool
  is_clean depth null = true
  is_clean depth (boolean b) = ltb depth max_depth
  is_clean depth (unsigned n) = ltb depth max_depth
  is_clean depth (number n) = ltb depth max_depth
  is_clean depth (string s) = ltb depth max_depth && is_clean_text max_str_bytes s
  is_clean depth (array xs) = ltb depth max_depth && are_clean_elements max_len (suc depth) xs
  is_clean depth (object ms) = ltb depth max_depth && are_clean_members max_len (suc depth) ms

  pub are_clean_elements : ℕ → ℕ → Elements → Bool
  are_clean_elements room depth nil = true
  are_clean_elements zero depth (element v xs) = false
  are_clean_elements (suc room) depth (element v xs) =
      is_clean depth v && are_clean_elements room depth xs

  pub are_clean_members : ℕ → ℕ → Members → Bool
  are_clean_members room depth end = true
  are_clean_members zero depth (member k v ms) = false
  are_clean_members (suc room) depth (member k v ms) =
      is_clean depth v && are_clean_members room depth ms

length-take-le : (n : ℕ) (s : Bytes) → length (take n s) ≤ n
length-take-le zero s = omega arith
length-take-le (suc n) [] = omega arith
length-take-le (suc n) (c ∷ s) = omega (arith, length-take-le n s)

keep_text-clean : (s : Bytes) → has_no_control (keep_text s) ≡ true
unfolding has_no_control keep_text
keep_text-clean [] = refl
keep_text-clean (c ∷ s) = ground (arith, keep_text-clean s)

has_no_control-take :
    (n : ℕ) (s : Bytes) → has_no_control s ≡ true → has_no_control (take n s) ≡ true
unfolding has_no_control
has_no_control-take zero s h = refl
has_no_control-take (suc n) [] h = refl
has_no_control-take (suc n) (c ∷ s) h = ground (arith, has_no_control-take n s)

take-keep_text-clean : (n : ℕ) (s : Bytes) → has_no_control (take n (keep_text s)) ≡ true
take-keep_text-clean n s = has_no_control-take n (keep_text s) (keep_text-clean s)

pub sanitize_text-clean : (s : Bytes) (n : ℕ) → 0 < n → is_clean_text n (sanitize_text s n) ≡ true
unfolding is_clean_text
sanitize_text-clean s n h =
    rw (sanitize_text_lem s n h)
      (ground (arith, length-take-le n (keep_text s), take-keep_text-clean n s))

keep_text_self : (s : Bytes) → has_no_control s ≡ true → keep_text s ≡ s
unfolding keep_text has_no_control
keep_text_self [] h = refl
keep_text_self (c ∷ s) h = ground (arith, keep_text_self s)

take_self : (n : ℕ) (s : Bytes) → length s ≤ n → take n s ≡ s
take_self zero [] h = refl
take_self zero (c ∷ s) h = absurd (omega arith)
take_self (suc n) [] h = refl
take_self (suc n) (c ∷ s) h = ap (λ t. c ∷ t) (take_self n s (omega arith))

sanitize_text_self : (s : Bytes) (n : ℕ) → 0 < n → is_clean_text n s ≡ true → sanitize_text s n ≡ s
unfolding is_clean_text
sanitize_text_self s n h k =
    let a : has_no_control s ≡ true = ground arith in
    let b : length s ≤ n = ground arith in
    rw (sanitize_text_lem s n h, keep_text_self s a) (take_self n s b)

-- What is kept of a value is clean at its depth.
mutual
  unfolding sanitize_json_strings is_clean

  sanitized-clean : (d : ℕ) (v : Json) → is_clean d (sanitize_json_strings d v) ≡ true
  sanitized-clean d null = refl
  sanitized-clean d (boolean b) = ground arith
  sanitized-clean d (unsigned n) = ground arith
  sanitized-clean d (number n) = ground arith
  sanitized-clean d (string s) = ground (arith, sanitize_text-clean s 1024)
  sanitized-clean d (array xs) = ground (arith, elements-clean 256 (suc d) xs)
  sanitized-clean d (object ms) = ground (arith, members-clean 256 (suc d) ms)

  elements-clean :
      (room d : ℕ) (xs : Elements) → are_clean_elements room d (sanitize_elements room d xs) ≡ true
  elements-clean zero d xs = refl
  elements-clean (suc room) d nil = refl
  elements-clean (suc room) d (element v xs) =
      ground (arith, sanitized-clean d v, elements-clean room d xs)

  members-clean :
      (room d : ℕ) (ms : Members) → are_clean_members room d (sanitize_members room d ms) ≡ true
  members-clean zero d ms = refl
  members-clean (suc room) d end = refl
  members-clean (suc room) d (member k v ms) =
      ground (arith, sanitized-clean d v, members-clean room d ms)

-- A value that is clean is kept as it is.
mutual
  unfolding sanitize_json_strings is_clean

  clean_self : (d : ℕ) (v : Json) → is_clean d v ≡ true → sanitize_json_strings d v ≡ v
  clean_self d null h = refl
  clean_self d (boolean b) h = ground arith
  clean_self d (unsigned n) h = ground arith
  clean_self d (number n) h = ground arith
  clean_self d (string s) h = ground (arith, sanitize_text_self s 1024)
  clean_self d (array xs) h = ground (arith, elements_self 256 (suc d) xs)
  clean_self d (object ms) h = ground (arith, members_self 256 (suc d) ms)

  elements_self :
      (room d : ℕ) (xs : Elements)
      → are_clean_elements room d xs ≡ true
      → sanitize_elements room d xs ≡ xs
  elements_self zero d nil h = refl
  elements_self zero d (element v xs) h = absurd (ground arith)
  elements_self (suc room) d nil h = refl
  elements_self (suc room) d (element v xs) h =
      ground (arith, clean_self d v, elements_self room d xs)

  members_self :
      (room d : ℕ) (ms : Members)
      → are_clean_members room d ms ≡ true
      → sanitize_members room d ms ≡ ms
  members_self zero d end h = refl
  members_self zero d (member k v ms) h = absurd (ground arith)
  members_self (suc room) d end h = refl
  members_self (suc room) d (member k v ms) h =
      ground (arith, clean_self d v, members_self room d ms)

-- The names of the members of an object.
pub names_of : Members → List Bytes
names_of end = []
names_of (member k v ms) = k ∷ names_of ms

pub names : Json → List Bytes
unfolding names_of
names (object ms) = names_of ms
names v = []

names_of-sanitize_members :
    (room d : ℕ) (ms : Members) → names_of (sanitize_members room d ms) ≡ take room (names_of ms)
unfolding names_of sanitize_json_strings
names_of-sanitize_members zero d ms = refl
names_of-sanitize_members (suc room) d end = refl
names_of-sanitize_members (suc room) d (member k v ms) =
    ap (λ t. k ∷ t) (names_of-sanitize_members room d ms)

names-sanitize_json_strings :
    (v : Json) → names (sanitize_json_strings 0 v) ≡ take max_len (names v)
unfolding names sanitize_json_strings
names-sanitize_json_strings (object ms) = names_of-sanitize_members max_len 1 ms
names-sanitize_json_strings null = refl
names-sanitize_json_strings (boolean b) = refl
names-sanitize_json_strings (unsigned n) = refl
names-sanitize_json_strings (number n) = refl
names-sanitize_json_strings (string s) = refl
names-sanitize_json_strings (array xs) = refl

-- What is kept of a value from a peer has a depth of at most 8, at most 256 elements or members in
-- each array or object, and its text values, those of elements and members included, have at most
-- 1024 bytes and no control character; and exactly the values that were so are kept as they are. The
-- names of members are not looked at: the first 256 names of the value's own members are kept, of
-- any length and with any character.
pub sanitize_json_strings_lem :
    (v : Json)
    → (is_clean 0 (sanitize_json_strings 0 v) ≡ true)
      × ((is_clean 0 v ≡ true) ↔ (sanitize_json_strings 0 v ≡ v))
      × (names (sanitize_json_strings 0 v) ≡ take 256 (names v))
sanitize_json_strings_lem v = (
  sanitized-clean 0 v,
  (λ h. clean_self 0 v h, λ e. subst (λ u. is_clean 0 u ≡ true) e (sanitized-clean 0 v)),
  names-sanitize_json_strings v,
)
