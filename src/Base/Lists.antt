-- ===== src/Base/Lists.antt =====
-- Lists measured by native numbers, and predicates over them.
use Prim.Native.Nat.{ℕ, zero, suc, ◌+◌, ◌-◌, min}
use mathlib.Core.Path.{◌≡◌, refl, ap, sym, subst, ◌∙◌}
use mathlib.Core.Logic.{◌⊎◌, inl, inr}
use mathlib.Core.Bool.{Bool, true, false}
use mathlib.Core.List.{List, [], ◌∷◌, ◌++◌}
use mathlib.Core.Option.{Option, none, some}
use native.Mathlib.Omega.{arith}

module _ {ℓ} {A : Type ℓ} where
  abbrev pub length : List A → ℕ
  length [] = 0
  length (x ∷ xs) = suc (length xs)

  abbrev pub take : ℕ → List A → List A
  take zero xs = []
  take (suc n) [] = []
  take (suc n) (x ∷ xs) = x ∷ take n xs

  abbrev pub drop : ℕ → List A → List A
  drop zero xs = xs
  drop (suc n) [] = []
  drop (suc n) (x ∷ xs) = drop n xs

  abbrev pub get_elem? : List A → ℕ → Option A
  get_elem? [] i = none
  get_elem? (x ∷ xs) zero = some x
  get_elem? (x ∷ xs) (suc i) = get_elem? xs i

  -- `xs[i] = f(xs[i])`, nothing out of range.
  abbrev pub update_at : ℕ → (A → A) → List A → List A
  update_at i f [] = []
  update_at zero f (x ∷ xs) = f x ∷ xs
  update_at (suc i) f (x ∷ xs) = x ∷ update_at i f xs

  pub update_at-there :
      (i : ℕ) (f : A → A) (xs : List A) (x : A)
      → get_elem? xs i ≡ some x
      → get_elem? (update_at i f xs) i ≡ some (f x)
  update_at-there i f [] x e = absurd (ground (arith, e))
  update_at-there zero f (y ∷ xs) x e = ground (arith, e)
  update_at-there (suc i) f (y ∷ xs) x e = update_at-there i f xs x e

  pub length-update_at : (i : ℕ) (f : A → A) (xs : List A) → length (update_at i f xs) ≡ length xs
  length-update_at i f [] = refl
  length-update_at zero f (x ∷ xs) = refl
  length-update_at (suc i) f (x ∷ xs) = omega (arith, length-update_at i f xs)

  pub length-append : (xs ys : List A) → length (xs ++ ys) ≡ length xs + length ys
  length-append [] ys = omega arith
  length-append (x ∷ xs) ys = omega (arith, length-append xs ys)

  pub take-append : (xs ys : List A) → take (length xs) (xs ++ ys) ≡ xs
  take-append [] ys = refl
  take-append (x ∷ xs) ys = ap (◌∷◌ x) (take-append xs ys)

  pub drop-append : (xs ys : List A) → drop (length xs) (xs ++ ys) ≡ ys
  drop-append [] ys = refl
  drop-append (x ∷ xs) ys = drop-append xs ys

  pub append_left : (us vs xs ys : List A) → length us ≡ length vs → us ++ xs ≡ vs ++ ys → us ≡ vs
  append_left us vs xs ys h e =
      sym (take-append us xs)
      ∙ (ap (λ n. take n (us ++ xs)) h ∙ (ap (take (length vs)) e ∙ take-append vs ys))

  pub append_right : (us vs xs ys : List A) → length us ≡ length vs → us ++ xs ≡ vs ++ ys → xs ≡ ys
  append_right us vs xs ys h e =
      sym (drop-append us xs)
      ∙ (ap (λ n. drop n (us ++ xs)) h ∙ (ap (drop (length vs)) e ∙ drop-append vs ys))

  pub take-drop : (n : ℕ) (bs : List A) → take n bs ++ drop n bs ≡ bs
  take-drop zero bs = refl
  take-drop (suc n) [] = refl
  take-drop (suc n) (x ∷ bs) = ap (◌∷◌ x) (take-drop n bs)

  pub length-take : (n : ℕ) (bs : List A) → length (take n bs) ≡ min n (length bs)
  length-take zero bs = omega arith
  length-take (suc n) [] = omega arith
  length-take (suc n) (x ∷ bs) = omega (arith, length-take n bs)

  pub length-drop : (n : ℕ) (bs : List A) → length (drop n bs) ≡ length bs - n
  length-drop zero bs = omega arith
  length-drop (suc n) [] = omega arith
  length-drop (suc n) (x ∷ bs) = omega (arith, length-drop n bs)

abbrev pub is_empty {ℓ} : {A : Type ℓ} → List A → Bool
is_empty [] = true
is_empty (x ∷ xs) = false

pub is_empty-append_cons :
    {A : Type 0} (s : List A) (x : A) (t : List A) → is_empty (s ++ x ∷ t) ≡ false
is_empty-append_cons [] x t = refl
is_empty-append_cons (y ∷ s) x t = refl

-- A predicate on every element, as a tuple.
abbrev pub All {ℓ κ} : {A : Type ℓ} → (A → Type κ) → List A → Type κ
All P [] = Unit
All P (x ∷ xs) = P x × All P xs

pub All-append {ℓ κ} :
    {A : Type ℓ} (P : A → Type κ) (xs ys : List A) → All P xs → All P ys → All P (xs ++ ys)
All-append P [] ys hx hy = hy
All-append P (x ∷ xs) ys hx hy = (hx.0, All-append P xs ys hx.1 hy)

-- The value stands in the list.
abbrev pub Elem : {A : Type 0} → A → List A → Type 0
Elem x [] = ⊥
Elem x (y ∷ ys) = (x ≡ y) ⊎ Elem x ys

pub Elem-append_left : {A : Type 0} (x : A) (xs ys : List A) → Elem x xs → Elem x (xs ++ ys)
Elem-append_left x (y ∷ xs) ys (inl e) = inl e
Elem-append_left x (y ∷ xs) ys (inr e) = inr (Elem-append_left x xs ys e)
Elem-append_left x [] ys e = elim e [ ]

pub Elem-append_right : {A : Type 0} (x : A) (xs ys : List A) → Elem x ys → Elem x (xs ++ ys)
Elem-append_right x [] ys e = e
Elem-append_right x (y ∷ xs) ys e = inr (Elem-append_right x xs ys e)

pub Elem-append : {A : Type 0} (x : A) (xs ys : List A) → Elem x (xs ++ ys) → Elem x xs ⊎ Elem x ys
Elem-append x [] ys e = inr e
Elem-append x (y ∷ xs) ys (inl e) = inl (inl e)
Elem-append x (y ∷ xs) ys (inr e) = elim (Elem-append x xs ys e) [
  | inl l ↦ inl (inr l)
  | inr r ↦ inr r
]

pub All-Elem : {A : Type 0} (P : A → Type 0) (x : A) (xs : List A) → All P xs → Elem x xs → P x
All-Elem P x (y ∷ xs) h (inl e) = subst P (sym e) h.0
All-Elem P x (y ∷ xs) h (inr e) = All-Elem P x xs h.1 e
All-Elem P x [] h e = elim e [ ]
