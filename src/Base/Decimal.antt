-- ===== src/Base/Decimal.antt =====
-- `std::to_string` and `std::stoul` on base-10 text.
use Prim.Native.Nat.{ℕ, zero, suc, ◌+◌, ◌-◌, ◌*◌, ◌/◌, ◌%◌, ◌^◌, ◌<◌}
use mathlib.Core.Path.{◌≡◌, refl, sym, ◌∙◌, ap}
use mathlib.Core.Logic.{inl, inr}
use mathlib.Core.Bool.{Bool, true, false, ◌&&◌, ◌||◌}
use mathlib.Core.List.{[], ◌∷◌, ◌++◌}
use mathlib.Core.Option.{Option, none, some}
use native.Mathlib.Omega.{arith}
use geu_reflector.Base.Tests.{◌==◌, ltb, leb, Bool-cases, if◌then◌else◌}
use geu_reflector.Base.Lists.{All, All-append, is_empty}
use geu_reflector.Base.Text.{Bytes}

unfoldable pub to_digits : ℕ → ℕ → Bytes
to_digits zero n = []
to_digits (suc f) n =
    let rest = to_digits f (n / 10) in
    if ltb n 10 then (48 + n) ∷ [] else rest ++ ((48 + n % 10) ∷ [])

unfoldable pub to_string : ℕ → Bytes
unfolding to_digits
to_string n = to_digits (suc n) n

abbrev pub is_digit : ℕ → Bool
is_digit c = leb 48 c && leb c 57

abbrev pub is_space : ℕ → Bool
is_space c = c == 32 || (leb 9 c && leb c 13)

-- The number in front, with the digits read so far.
unfoldable pub digits_value : ℕ → Bytes → ℕ
digits_value v [] = v
digits_value v (c ∷ s) =
    let rest = digits_value (10 * v + (c - 48)) s in if is_digit c then rest else v

unfoldable pub skip_space : Bytes → Bytes
skip_space [] = []
skip_space (c ∷ s) = let rest = skip_space s in if is_space c then rest else c ∷ s

abbrev pub starts_digit : Bytes → Bool
starts_digit [] = false
starts_digit (c ∷ s) = is_digit c

-- `strtoul` behind the sign: no digit and a value past 64 bits are the exceptions of `stoul`.
unfoldable pub unsigned_value : Bool → Bytes → Option ℕ
unfolding digits_value
unsigned_value negative s =
    if starts_digit s
    then if ltb (digits_value 0 s) (2 ^ 64)
      then some (if negative then (2 ^ 64 - digits_value 0 s) % 2 ^ 64 else digits_value 0 s)
      else none
    else none

unfoldable pub signed_value : Bytes → Option ℕ
unfolding unsigned_value
signed_value [] = none
signed_value (c ∷ s) =
    if c == b'-'
    then unsigned_value true s
    else if c == b'+'
    then unsigned_value false s
    else unsigned_value false (c ∷ s)

unfoldable pub stoul : Bytes → Option ℕ
unfolding signed_value skip_space
stoul s = signed_value (skip_space s)

abbrev pub IsDigit : ℕ → Type 0
IsDigit c = is_digit c ≡ true

to_digits-All : (f n : ℕ) → All IsDigit (to_digits f n)
unfolding to_digits
to_digits-All zero n = tt
to_digits-All (suc f) n = elim (Bool-cases (ltb n 10)) [
  | inl small ↦ rw small (ground arith, tt)
  | inr big ↦ rw big (
      All-append IsDigit (to_digits f (n / 10)) ((48 + n % 10) ∷ []) (to_digits-All f (n / 10))
        (ground arith, tt))
]

pub to_string-All : (n : ℕ) → All IsDigit (to_string n)
unfolding to_string
to_string-All n = to_digits-All (suc n) n

is_empty-snoc : (s : Bytes) (c : ℕ) → is_empty (s ++ c ∷ []) ≡ false
is_empty-snoc [] c = refl
is_empty-snoc (x ∷ s) c = refl

pub is_empty-to_string : (n : ℕ) → is_empty (to_string n) ≡ false
unfolding to_string
is_empty-to_string n = ground (arith, is_empty-snoc (to_digits n (n / 10)) (48 + n % 10))

digits_value-snoc :
    (v d : ℕ) (s : Bytes)
    → All IsDigit s
    → d < 10
    → digits_value v (s ++ (48 + d) ∷ []) ≡ 10 * digits_value v s + d
unfolding digits_value
digits_value-snoc v d [] h lt = ground arith
digits_value-snoc v d (c ∷ s) h lt =
    ground (arith, h.0, digits_value-snoc (10 * v + (c - 48)) d s h.1 lt)

digits_value-to_digits : (f n : ℕ) → n < f → digits_value 0 (to_digits f n) ≡ n
unfolding to_digits
digits_value-to_digits zero n h = absurd (omega arith)
digits_value-to_digits (suc f) n h = elim (Bool-cases (ltb n 10)) [
  | inl small ↦
      rw small (digits_value-snoc 0 n [] tt (ground arith) ∙ unfold digits_value in omega arith)
  | inr big ↦ rw big (
      digits_value-snoc 0 (n % 10) (to_digits f (n / 10)) (to_digits-All f (n / 10)) (omega arith)
      ∙ omega (arith, digits_value-to_digits f (n / 10) (ground arith)))
]

pub digits_value-to_string : (n : ℕ) → digits_value 0 (to_string n) ≡ n
unfolding to_string
digits_value-to_string n = digits_value-to_digits (suc n) n (omega arith)

signed_value_digits :
    (s : Bytes)
    → All IsDigit s
    → is_empty s ≡ false
    → digits_value 0 s < 2 ^ 64
    → stoul s ≡ some (digits_value 0 s)
unfolding stoul
signed_value_digits [] h e lt = cc
signed_value_digits (c ∷ s) h e lt = ground (arith, h.0)

-- Reading back a printed number below 2 ^ 64 gives the number.
pub stoul-to_string : (n : ℕ) → n < 2 ^ 64 → stoul (to_string n) ≡ some n
stoul-to_string n lt =
    signed_value_digits (to_string n) (to_string-All n) (is_empty-to_string n)
      (rw (digits_value-to_string n) lt)
    ∙ ap some (digits_value-to_string n)

pub to_string_injective : (m n : ℕ) → to_string m ≡ to_string n → m ≡ n
to_string_injective m n e =
    sym (digits_value-to_string m) ∙ ap (digits_value 0) e ∙ digits_value-to_string n
