-- ===== src/TgFilter/Matches.antt =====
-- What the filters of TgFilter.h accept.
use geu_reflector.Base.{
  ℕ, ◌≤◌, ◌≡◌, refl, ◌↔◌, ◌⊎◌, inl, inr, true, [], ◌∷◌, ◌++◌, Bytes, to_string, has_prefix_iff,
  arith, Bool-cases,
}
use geu_reflector.TgFilter.Entry.{
  Entry, exact, prefix, range, TgFilter, entry_matches, any_matches, matches,
}

-- The talk groups that an entry stands for.
abbrev pub Covers : ℕ → Entry → Type 0
Covers tg (exact v) = tg ≡ v
Covers tg (prefix p) = (rest : Bytes) × (to_string tg ≡ p ++ rest)
Covers tg (range a b) = (a ≤ tg) × (tg ≤ b)

pub data Covered (tg : ℕ) : TgFilter → Type 0 where
  first : {e : Entry} {f : TgFilter} → Covers tg e → Covered tg (e ∷ f)
  later : {e : Entry} {f : TgFilter} → Covered tg f → Covered tg (e ∷ f)

entry_matches_iff : (tg : ℕ) (e : Entry) → (entry_matches tg e ≡ true) ↔ Covers tg e
unfolding entry_matches
entry_matches_iff tg (exact v) = ground arith
entry_matches_iff tg (prefix p) = has_prefix_iff (to_string tg) p
entry_matches_iff tg (range a b) = (λ h. ground arith, λ h. ground (arith, h.0, h.1))

any_matches→Covered : (tg : ℕ) (f : TgFilter) → any_matches tg f ≡ true → Covered tg f
unfolding any_matches
any_matches→Covered tg [] h = cc
any_matches→Covered tg (e ∷ f) h = elim (Bool-cases (entry_matches tg e)) [
  | inl m ↦ first ((entry_matches_iff tg e).0 m)
  | inr m ↦ later (any_matches→Covered tg f (rw m at h))
]

Covered→any_matches : (tg : ℕ) (f : TgFilter) → Covered tg f → any_matches tg f ≡ true
unfolding any_matches
Covered→any_matches tg [] c = elim c [ ]
Covered→any_matches tg (e ∷ f) (first c) = rw ((entry_matches_iff tg e).1 c)
Covered→any_matches tg (e ∷ f) (later c) = ground (arith, Covered→any_matches tg f c)

-- A filter accepts a talk group exactly when it has no entry, or an entry that covers it: the
-- same number, a prefix of its decimal digits, or a range around it.
pub matches_iff : (tg : ℕ) (f : TgFilter) → (matches tg f ≡ true) ↔ ((f ≡ []) ⊎ Covered tg f)
unfolding matches
matches_iff tg [] = (λ h. inl refl, λ h. refl)
matches_iff tg (e ∷ f) = (
  λ h. inr (any_matches→Covered tg (e ∷ f) h),
  elim [ inl n ↦ cc | inr c ↦ Covered→any_matches tg (e ∷ f) c ],
)
