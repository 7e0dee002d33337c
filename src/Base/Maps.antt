-- ===== src/Base/Maps.antt =====
-- `std::map` and `std::set` with number keys (talk groups, client and connection handles), as
-- lists in ascending key order, which is the order in which the source iterates them.
use Prim.Native.Nat.{ℕ, suc, ◌+◌, ◌≤◌}
use mathlib.Core.Path.{◌≡◌, refl, ◌∙◌}
use mathlib.Core.Logic.{inl, inr}
use mathlib.Core.Bool.{Bool, true, false, ◌||◌}
use mathlib.Core.List.{List, [], ◌∷◌}
use mathlib.Core.Option.{Option, none, some}
use native.Mathlib.Omega.{arith}
use geu_reflector.Base.Tests.{◌==◌, ltb, Bool-cases, if◌then◌else◌}
use geu_reflector.Base.Lists.{length, is_empty}

abbrev pub Map : Type 0 → Type 0
Map V = List (ℕ × V)

abbrev pub is_some : {A : Type 0} → Option A → Bool
is_some none = false
is_some (some a) = true

abbrev pub value_or : {A : Type 0} → Option A → A → A
value_or none d = d
value_or (some a) d = a

module _ {V : Type 0} where
  unfoldable pub find : ℕ → Map V → Option V
  find k [] = none
  find k ((j, v) ∷ m) = if k == j then some v else find k m

  -- A new key goes to its place in the order.
  place : ℕ → V → Map V → Map V
  place k v [] = (k, v) ∷ []
  place k v ((j, w) ∷ m) = if ltb k j then (k, v) ∷ (j, w) ∷ m else (j, w) ∷ place k v m

  replace : ℕ → V → Map V → Map V
  replace k v [] = []
  replace k v ((j, w) ∷ m) = (j, if k == j then v else w) ∷ replace k v m

  -- `m[k] = v`
  unfoldable pub assign : ℕ → V → Map V → Map V
  unfolding place replace
  assign k v m = if is_some (find k m) then replace k v m else place k v m

  unfoldable pub erase : ℕ → Map V → Map V
  erase k [] = []
  erase k ((j, v) ∷ m) = if k == j then erase k m else (j, v) ∷ erase k m

  find-place :
      (k j : ℕ) (v : V) (m : Map V)
      → is_some (find k m) ≡ false
      → find j (place k v m) ≡ (if j == k then some v else find j m)
  unfolding find place
  find-place k j v [] h = refl
  find-place k j v ((i, w) ∷ m) h = ground (arith, find-place k j v m)

  find-replace :
      (k j : ℕ) (v : V) (m : Map V)
      → find j (replace k v m)
        ≡ (if j == k then (if is_some (find k m) then some v else none) else find j m)
  unfolding find replace
  find-replace k j v [] = ground arith
  find-replace k j v ((i, w) ∷ m) = ground (arith, find-replace k j v m)

  pub find-assign :
      (k j : ℕ) (v : V) (m : Map V) → find j (assign k v m) ≡ (if j == k then some v else find j m)
  unfolding assign
  find-assign k j v m = elim (Bool-cases (is_some (find k m))) [
    | inl e ↦ rw e (find-replace k j v m ∙ rw e)
    | inr e ↦ rw e (find-place k j v m e)
  ]

  pub find-erase : (k j : ℕ) (m : Map V) → find j (erase k m) ≡ (if j == k then none else find j m)
  unfolding find erase
  find-erase k j [] = ground arith
  find-erase k j ((i, w) ∷ m) = ground (arith, find-erase k j m)

  length-place : (k : ℕ) (v : V) (m : Map V) → length (place k v m) ≡ suc (length m)
  unfolding place
  length-place k v [] = omega arith
  length-place k v ((j, w) ∷ m) = ground (arith, length-place k v m)

  length-replace : (k : ℕ) (v : V) (m : Map V) → length (replace k v m) ≡ length m
  unfolding replace
  length-replace k v [] = omega arith
  length-replace k v ((j, w) ∷ m) = omega (arith, length-replace k v m)

  -- Writing under a key that is there keeps the size; a new key adds one.
  pub length-assign :
      (k : ℕ) (v : V) (m : Map V)
      → length (assign k v m) ≡ length m + (if is_some (find k m) then 0 else 1)
  unfolding assign
  length-assign k v m = elim (Bool-cases (is_some (find k m))) [
    | inl e ↦ rw e (omega (arith, length-replace k v m))
    | inr e ↦ rw e (omega (arith, length-place k v m))
  ]

  -- How many keys pass a test.
  unfoldable pub count_keys : (ℕ → Bool) → Map V → ℕ
  count_keys p [] = 0
  count_keys p ((k, v) ∷ m) = let rest = count_keys p m in if p k then suc rest else rest

  count_keys-place :
      (p : ℕ → Bool) (k : ℕ) (v : V) (m : Map V)
      → count_keys p (place k v m) ≡ count_keys p m + (if p k then 1 else 0)
  unfolding count_keys place
  count_keys-place p k v [] = ground arith
  count_keys-place p k v ((j, w) ∷ m) = ground (arith, count_keys-place p k v m)

  count_keys-replace :
      (p : ℕ → Bool) (k : ℕ) (v : V) (m : Map V) → count_keys p (replace k v m) ≡ count_keys p m
  unfolding count_keys replace
  count_keys-replace p k v [] = refl
  count_keys-replace p k v ((j, w) ∷ m) = ground (arith, count_keys-replace p k v m)

  pub count_keys-assign :
      (p : ℕ → Bool) (k : ℕ) (v : V) (m : Map V)
      → count_keys p (assign k v m) ≤ count_keys p m + (if p k then 1 else 0)
  unfolding assign
  count_keys-assign p k v m = elim (Bool-cases (is_some (find k m))) [
    | inl e ↦ rw e (omega (arith, count_keys-replace p k v m))
    | inr e ↦ rw e (omega (arith, count_keys-place p k v m))
  ]

  pub count_keys-erase :
      (p : ℕ → Bool) (k : ℕ) (m : Map V) → count_keys p (erase k m) ≤ count_keys p m
  unfolding count_keys erase
  count_keys-erase p k [] = omega arith
  count_keys-erase p k ((j, w) ∷ m) = ground (arith, count_keys-erase p k m)

  pub length-erase : (k : ℕ) (m : Map V) → length (erase k m) ≤ length m
  unfolding erase
  length-erase k [] = omega arith
  length-erase k ((j, w) ∷ m) = ground (arith, length-erase k m)

-- No key stands twice, as in every `std::map`.
abbrev pub IsKeyed : {V : Type 0} → Map V → Type 0
IsKeyed [] = Unit
IsKeyed ((k, v) ∷ m) = (find k m ≡ none) × IsKeyed m

module _ {V : Type 0} where
  place-IsKeyed :
      (k : ℕ) (v : V) (m : Map V) → is_some (find k m) ≡ false → IsKeyed m → IsKeyed (place k v m)
  unfolding find place
  place-IsKeyed k v [] e h = (refl, tt)
  place-IsKeyed k v ((j, w) ∷ m) e h = ground (arith, find-place k j v m, place-IsKeyed k v m)

  replace-IsKeyed : (k : ℕ) (v : V) (m : Map V) → IsKeyed m → IsKeyed (replace k v m)
  unfolding find replace
  replace-IsKeyed k v [] h = tt
  replace-IsKeyed k v ((j, w) ∷ m) h =
      (ground (arith, find-replace k j v m, h.0), replace-IsKeyed k v m h.1)

  pub assign-IsKeyed : (k : ℕ) (v : V) (m : Map V) → IsKeyed m → IsKeyed (assign k v m)
  unfolding assign
  assign-IsKeyed k v m h = elim (Bool-cases (is_some (find k m))) [
    | inl e ↦ rw e (replace-IsKeyed k v m h)
    | inr e ↦ rw e (place-IsKeyed k v m e h)
  ]

  pub erase-IsKeyed : (k : ℕ) (m : Map V) → IsKeyed m → IsKeyed (erase k m)
  unfolding find erase
  erase-IsKeyed k [] h = tt
  erase-IsKeyed k ((j, w) ∷ m) h = ground (arith, find-erase k j m, erase-IsKeyed k m)

abbrev pub NatSet : Type 0
NatSet = List ℕ

unfoldable pub contains : ℕ → NatSet → Bool
contains k [] = false
contains k (j ∷ s) = k == j || contains k s

unfoldable pub insert : ℕ → NatSet → NatSet
insert k [] = k ∷ []
insert k (j ∷ s) = if k == j then j ∷ s else if ltb k j then k ∷ j ∷ s else j ∷ insert k s

unfoldable pub remove : ℕ → NatSet → NatSet
remove k [] = []
remove k (j ∷ s) = if k == j then remove k s else j ∷ remove k s

pub contains-insert : (k j : ℕ) (s : NatSet) → contains j (insert k s) ≡ (j == k || contains j s)
unfolding contains insert
contains-insert k j [] = refl
contains-insert k j (i ∷ s) = ground (arith, contains-insert k j s)

pub contains-remove :
    (k j : ℕ) (s : NatSet) → contains j (remove k s) ≡ (if j == k then false else contains j s)
unfolding contains remove
contains-remove k j [] = ground arith
contains-remove k j (i ∷ s) = ground (arith, contains-remove k j s)

pub contains_of_is_empty : (c : ℕ) (l : NatSet) → is_empty l ≡ true → contains c l ≡ false
unfolding contains
contains_of_is_empty c [] h = refl
contains_of_is_empty c (x ∷ l) h = ground arith

pub is_empty-insert : (c : ℕ) (l : NatSet) → is_empty (insert c l) ≡ false
unfolding insert
is_empty-insert c [] = refl
is_empty-insert c (x ∷ l) = ground arith
