-- ===== src/Base/Split.antt =====
-- The list syntax of the configuration: `std::getline` at commas, and blanks trimmed off.
use Prim.Native.Nat.{ℕ}
use mathlib.Core.Path.{◌≡◌, refl, ap, ◌∙◌}
use mathlib.Core.Logic.{inl, inr}
use mathlib.Core.Bool.{Bool, true, false, not, ◌&&◌, ◌||◌}
use mathlib.Core.List.{List, [], ◌∷◌, ◌++◌}
use native.Mathlib.Omega.{arith}
use geu_reflector.Base.Tests.{◌==◌, Bool-cases, if◌then◌else◌}
use geu_reflector.Base.Lists.{All, is_empty}
use geu_reflector.Base.Text.{Bytes}

abbrev pub cons_head : ℕ → List Bytes → List Bytes
cons_head x [] = (x ∷ []) ∷ []
cons_head x (t ∷ ts) = (x ∷ t) ∷ ts

-- The lines that a `getline` loop with this delimiter reads.
unfoldable pub get_lines : ℕ → Bytes → List Bytes
get_lines d [] = []
get_lines d (x ∷ xs) = let rest = get_lines d xs in if x == d then [] ∷ rest else cons_head x rest

abbrev pub is_blank : ℕ → Bool
is_blank c = c == 32 || c == 9

unfoldable pub trim_left : Bytes → Bytes
trim_left [] = []
trim_left (x ∷ xs) = let rest = trim_left xs in if is_blank x then rest else x ∷ xs

unfoldable pub trim_right : Bytes → Bytes
trim_right [] = []
trim_right (x ∷ xs) =
    let rest = trim_right xs in if is_empty rest && is_blank x then [] else x ∷ rest

unfoldable pub trim : Bytes → Bytes
unfolding trim_left trim_right
trim s = trim_right (trim_left s)

-- A byte that is not the delimiter.
abbrev pub IsNot : ℕ → ℕ → Type 0
IsNot d x = (x == d) ≡ false

pub get_lines-All : (d : ℕ) (s : Bytes) → All (All (IsNot d)) (get_lines d s)
unfolding get_lines
get_lines-All d [] = tt
get_lines-All d (x ∷ xs) = elim (Bool-cases (x == d)) [
  | inl hit ↦ rw hit (tt, get_lines-All d xs)
  | inr miss ↦ rw miss (cons_head-All d x (get_lines d xs) miss (get_lines-All d xs))
]
  where
    cons_head-All :
        (e y : ℕ) (ts : List Bytes)
        → IsNot e y
        → All (All (IsNot e)) ts
        → All (All (IsNot e)) (cons_head y ts)
    cons_head-All e y [] n h = ((n, tt), tt)
    cons_head-All e y (t ∷ ts) n h = ((n, h.0), h.1)

-- The last line ends with the input.
pub get_lines_one :
    (d x : ℕ) (t : Bytes) → All (IsNot d) (x ∷ t) → get_lines d (x ∷ t) ≡ (x ∷ t) ∷ []
unfolding get_lines
get_lines_one d x [] h = rw h.0
get_lines_one d x (y ∷ t) h = rw (h.0, get_lines_one d y t h.1)

-- A line ends at the delimiter.
pub get_lines_cons :
    (d x : ℕ) (t s : Bytes)
    → All (IsNot d) (x ∷ t)
    → get_lines d ((x ∷ t) ++ d ∷ s) ≡ (x ∷ t) ∷ get_lines d s
unfolding get_lines
get_lines_cons d x [] s h = rw h.0 (ground arith)
get_lines_cons d x (y ∷ t) s h = rw (h.0, get_lines_cons d y t s h.1)

pub trim_right-All : (P : ℕ → Type 0) (s : Bytes) → All P s → All P (trim_right s)
unfolding trim_right
trim_right-All P [] h = tt
trim_right-All P (x ∷ s) h = elim (Bool-cases (is_empty (trim_right s) && is_blank x)) [
  | inl e ↦ rw e tt
  | inr e ↦ rw e (h.0, trim_right-All P s h.1)
]

trim_left-All : (P : ℕ → Type 0) (s : Bytes) → All P s → All P (trim_left s)
unfolding trim_left
trim_left-All P [] h = tt
trim_left-All P (x ∷ s) h = elim (Bool-cases (is_blank x)) [
  | inl e ↦ rw e (trim_left-All P s h.1)
  | inr e ↦ rw e h
]

pub trim-All : (P : ℕ → Type 0) (s : Bytes) → All P s → All P (trim s)
unfolding trim
trim-All P s h = trim_right-All P (trim_left s) (trim_left-All P s h)

-- Text that begins and ends with no blank.
abbrev pub head_ok : Bytes → Bool
head_ok [] = true
head_ok (x ∷ s) = not (is_blank x)

trim_left_same : (s : Bytes) → head_ok s ≡ true → trim_left s ≡ s
unfolding trim_left
trim_left_same [] h = refl
trim_left_same (x ∷ s) h = ground arith

trim_right-snoc : (s : Bytes) (x : ℕ) → is_blank x ≡ false → trim_right (s ++ x ∷ []) ≡ s ++ x ∷ []
unfolding trim_right
trim_right-snoc [] x h = ground arith
trim_right-snoc (y ∷ s) x h = rw (trim_right-snoc s x h) (ground (arith, nonempty s x))
  where
    nonempty : (t : Bytes) (z : ℕ) → is_empty (t ++ z ∷ []) ≡ false
    nonempty [] z = refl
    nonempty (w ∷ t) z = refl

pub trim-snoc :
    (s : Bytes) (x : ℕ)
    → head_ok (s ++ x ∷ []) ≡ true
    → is_blank x ≡ false
    → trim (s ++ x ∷ []) ≡ s ++ x ∷ []
unfolding trim
trim-snoc s x h b = ap trim_right (trim_left_same (s ++ x ∷ []) h) ∙ trim_right-snoc s x b

trim_left-head_ok : (s : Bytes) → head_ok (trim_left s) ≡ true
unfolding trim_left
trim_left-head_ok [] = refl
trim_left-head_ok (x ∷ s) = ground (arith, trim_left-head_ok s)

trim_right-head_ok : (s : Bytes) → head_ok s ≡ true → head_ok (trim_right s) ≡ true
unfolding trim_right
trim_right-head_ok [] h = refl
trim_right-head_ok (x ∷ s) h = ground arith

pub trim-head_ok : (s : Bytes) → head_ok (trim s) ≡ true
unfolding trim
trim-head_ok s = trim_right-head_ok (trim_left s) (trim_left-head_ok s)
