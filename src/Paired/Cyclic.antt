-- ===== src/Paired/Cyclic.antt =====
-- TrunkLink.cpp: the places that the loop of `sendMsg` over the hosts goes through.
use geu_reflector.Base.{
  ℕ, zero, suc, ◌+◌, ◌-◌, ◌%◌, ◌<◌, ◌≤◌, ◌≡◌, refl, sym, ap, subst, ◌∙◌, true, false, List, [], ◌∷◌,
  none, some, length, leb, ◌==◌, Bool-cases, Option-cases, inl, inr, arith,
}
use native.Mathlib.Nat.{mod-eq_of_lt, add-mod_right}
use geu_reflector.Paired.State.{PairedClientState, is_live, is_live_at, any_live_host, next_live}

-- From any place, each place is reached in less than a full round.
reached : (sticky i n : ℕ) → sticky < n → i < n → (j : ℕ) × (j < n) × ((sticky + j) % n ≡ i)
reached sticky i n s h = elim (Bool-cases (leb sticky i)) [
  | inl up ↦
      let sum : sticky + (i - sticky) ≡ i = ground arith in
      (i - sticky, omega arith, ap (λ x. x % n) sum ∙ mod-eq_of_lt h)
  | inr down ↦
      let below : i < sticky = ground arith in
      let sum : sticky + (i + n - sticky) ≡ i + n = omega arith in
      (i + n - sticky, omega arith, ap (λ x. x % n) sum ∙ add-mod_right i n ∙ mod-eq_of_lt h)
]

-- A live host has a place.
any_live_host-place :
    (cs : List PairedClientState)
    → any_live_host cs ≡ true
    → (i : ℕ) × (i < length cs) × (is_live_at i cs ≡ true)
unfolding any_live_host
any_live_host-place [] h = absurd (ground arith)
any_live_host-place (c ∷ cs) h = elim (Bool-cases (is_live c)) [
  | inl e ↦ (0, omega arith, e)
  | inr e ↦ let (i, b, l) = any_live_host-place cs (rw e at h) in (suc i, omega arith, l)
]

pub is_live_at-any :
    (i : ℕ) (cs : List PairedClientState) → is_live_at i cs ≡ true → any_live_host cs ≡ true
unfolding any_live_host
is_live_at-any i [] h = absurd (ground arith)
is_live_at-any zero (c ∷ cs) h = ground arith
is_live_at-any (suc i) (c ∷ cs) h = ground (arith, is_live_at-any i cs h)

pub is_live_at-bound :
    (i : ℕ) (cs : List PairedClientState) → is_live_at i cs ≡ true → i < length cs
is_live_at-bound i [] h = absurd (ground arith)
is_live_at-bound zero (c ∷ cs) h = omega arith
is_live_at-bound (suc i) (c ∷ cs) h = omega (arith, is_live_at-bound i cs h)

-- The place `k` steps behind the sticky one is live, and none before it.
pub record IsNext (sticky : ℕ) (cs : List PairedClientState) (idx : ℕ) : Type 0 where
  pub steps : ℕ
  pub within : steps < length cs
  pub place : idx ≡ (sticky + steps) % length cs
  pub live : is_live_at idx cs ≡ true
  pub earlier : (j : ℕ) → j < steps → is_live_at ((sticky + j) % length cs) cs ≡ false

-- None of the places before the round was live.
abbrev NoneBefore : ℕ → ℕ → List PairedClientState → Type 0
NoneBefore tries sticky cs = (j : ℕ) → j < tries → is_live_at ((sticky + j) % length cs) cs ≡ false

NoneBefore-suc :
    (tries sticky : ℕ) (cs : List PairedClientState)
    → NoneBefore tries sticky cs
    → is_live_at ((sticky + tries) % length cs) cs ≡ false
    → NoneBefore (suc tries) sticky cs
NoneBefore-suc tries sticky cs before here j h = elim (Bool-cases (j == tries)) [
  | inl e ↦
      let same : tries ≡ j = ground arith in
      subst (λ k. is_live_at ((sticky + k) % length cs) cs ≡ false) same here
  | inr e ↦ before j (ground arith)
]

next_live-IsNext :
    (left tries sticky idx : ℕ) (cs : List PairedClientState)
    → tries + left ≡ length cs
    → NoneBefore tries sticky cs
    → next_live left tries sticky cs ≡ some idx
    → IsNext sticky cs idx
unfolding next_live
next_live-IsNext zero tries sticky idx cs n before e = absurd (ground (arith, e))
next_live-IsNext (suc left) tries sticky idx cs n before e =
    elim (Bool-cases (is_live_at ((sticky + tries) % length cs) cs)) [
      | inl live ↦
          let found : some ((sticky + tries) % length cs) ≡ some idx = rw live at e in
          let same : (sticky + tries) % length cs ≡ idx = ground (arith, found) in
          record {
            steps = tries;
            within = omega arith;
            place = sym same;
            live = subst (λ i. is_live_at i cs ≡ true) same live;
            earlier = before;
          }
      | inr dead ↦
          next_live-IsNext left (suc tries) sticky idx cs (omega arith)
            (NoneBefore-suc tries sticky cs before dead) (rw dead at e)
    ]

next_live-none :
    (left tries sticky : ℕ) (cs : List PairedClientState)
    → next_live left tries sticky cs ≡ none
    → (j : ℕ) → tries ≤ j
    → j < tries + left
    → is_live_at ((sticky + j) % length cs) cs ≡ false
unfolding next_live
next_live-none zero tries sticky cs e j a b = absurd (omega arith)
next_live-none (suc left) tries sticky cs e j a b =
    elim (Bool-cases (is_live_at ((sticky + tries) % length cs) cs)) [
      | inl live ↦ absurd (ground (arith, rw live at e))
      | inr dead ↦ elim (Bool-cases (j == tries)) [
        | inl h ↦
            let same : tries ≡ j = ground arith in
            subst (λ k. is_live_at ((sticky + k) % length cs) cs ≡ false) same dead
        | inr h ↦
            next_live-none left (suc tries) sticky cs (rw dead at e) j (ground arith) (omega arith)
      ]
    ]

-- Where a host is live, the loop finds the next live one.
pub next_live-found :
    (sticky : ℕ) (cs : List PairedClientState)
    → sticky < length cs
    → any_live_host cs ≡ true
    → (idx : ℕ) × (next_live (length cs) 0 sticky cs ≡ some idx) × IsNext sticky cs idx
next_live-found sticky cs s h = elim (Option-cases (next_live (length cs) 0 sticky cs)) [
  | inr (idx, e) ↦ (
    idx,
    e,
    next_live-IsNext (length cs) 0 sticky idx cs (omega arith) (λ j b. absurd (omega arith)) e,
  )
  | inl e ↦
      let (i, b, l) = any_live_host-place cs h in
      let (j, w, r) = reached sticky i (length cs) s b in
      let dead : is_live_at ((sticky + j) % length cs) cs ≡ false =
        next_live-none (length cs) 0 sticky cs e j (omega arith) (omega arith) in
      absurd (ground (arith, l, rw r at dead))
]

-- Where no host is live, it finds none.
pub next_live-nowhere :
    (left tries sticky : ℕ) (cs : List PairedClientState)
    → any_live_host cs ≡ false
    → next_live left tries sticky cs ≡ none
unfolding next_live
next_live-nowhere zero tries sticky cs h = refl
next_live-nowhere (suc left) tries sticky cs h =
    elim (Bool-cases (is_live_at ((sticky + tries) % length cs) cs)) [
      | inl live ↦ absurd (ground (arith, is_live_at-any _ cs live))
      | inr dead ↦ rw dead (next_live-nowhere left (suc tries) sticky cs h)
    ]
