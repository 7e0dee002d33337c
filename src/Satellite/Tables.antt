-- ===== src/Satellite/Tables.antt =====
-- Reflector.cpp: the tables of satellites under the loops and updates.
use geu_reflector.Base.{
  ℕ, ◌≡◌, refl, true, false, [], ◌∷◌, none, some, Map, find, ◌==◌, if◌then◌else◌, Bool-cases, inl,
  inr, arith, some_eq, ap,
}
use geu_reflector.Satellite.State.{
  SatelliteLink, update_satellite, every_satellite, satellites_except,
}

module _ (con : ℕ) (f : SatelliteLink → SatelliteLink) where
  pub find-update_other :
      (d : ℕ) (m : Map SatelliteLink)
      → (d == con) ≡ false
      → find d (update_satellite con f m) ≡ find d m
  unfolding find update_satellite
  find-update_other d [] h = refl
  find-update_other d ((c, l) ∷ m) h = ground (arith, find-update_other d m)

  pub find-update_self :
      (l : SatelliteLink) (m : Map SatelliteLink)
      → find con m ≡ some l
      → find con (update_satellite con f m) ≡ some (f l)
  unfolding find update_satellite
  find-update_self l [] h = absurd (ground arith)
  find-update_self l ((c, k) ∷ m) h = elim (Bool-cases (con == c)) [
    | inl e ↦
        let e' : (c == con) ≡ true = ground arith in
        rw (e', e) (ap (λ x. some (f x)) (some_eq (rw e at h)))
    | inr e ↦
        let e' : (c == con) ≡ false = ground arith in rw (e', e) (find-update_self l m (rw e at h))
  ]

  pub find-update_none :
      (m : Map SatelliteLink) → find con m ≡ none → find con (update_satellite con f m) ≡ none
  unfolding find update_satellite
  find-update_none [] h = refl
  find-update_none ((c, k) ∷ m) h = ground (arith, find-update_none m)

  pub find-except :
      (d : ℕ) (l : SatelliteLink) (m : Map SatelliteLink)
      → find d m ≡ some l
      → find d (satellites_except con f m) ≡ some (if d == con then l else f l)
  unfolding find satellites_except
  find-except d l [] h = absurd (ground arith)
  find-except d l ((c, k) ∷ m) h = ground (arith, find-except d l m)

pub find-every :
    (f : SatelliteLink → SatelliteLink) (d : ℕ) (l : SatelliteLink) (m : Map SatelliteLink)
    → find d m ≡ some l
    → find d (every_satellite f m) ≡ some (f l)
unfolding find every_satellite
find-every f d l [] h = absurd (ground arith)
find-every f d l ((c, k) ∷ m) h = ground (arith, find-every f d l m)
