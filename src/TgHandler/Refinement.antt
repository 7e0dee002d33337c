-- ===== src/TgHandler/Refinement.antt =====
-- TGHandler.cpp refines the placement of clients, over any sequence of operations.
use geu_reflector.Base.{
  ℕ, ◌≡◌, refl, ap, ◌∙◌, Bool, List, [], ◌∷◌, Option, none, some, find, contains, value_or,
  Option-cases, inl, inr, arith,
}
use geu_reflector.TgHandler.State.{TgHandler, Config, clients_for_tg, tg_for_client}
use geu_reflector.TgHandler.Consistent.{IsConsistent, points_to, holds, lookup_client}
use geu_reflector.TgHandler.Placement.{
  Placement, Operation, select, leave, talk, tick, intended, perform, placement, perform-Refines,
}

abbrev pub intended_all : List Operation → List Bool → Placement → Placement
intended_all [] oks m = m
intended_all (o ∷ os) [] m = m
intended_all (o ∷ os) (ok ∷ oks) m = intended_all os oks (intended o ok m)

abbrev pub record_result : Bool → Option (List Bool × TgHandler) → Option (List Bool × TgHandler)
record_result ok none = none
record_result ok (some (oks, s)) = some (ok ∷ oks, s)

unfoldable pub perform_all : Config → List Operation → TgHandler → Option (List Bool × TgHandler)
perform_all cfg [] s = some ([], s)
perform_all cfg (o ∷ os) s = elim (perform cfg o s) [
  | none ↦ none
  | some (ok, s') ↦ record_result ok (perform_all cfg os s')
]

intended-cong :
    (o : Operation) (ok : Bool) (m m' : Placement)
    → ((d : ℕ) → m d ≡ m' d)
    → (d : ℕ) → intended o ok m d ≡ intended o ok m' d
unfolding intended
intended-cong (select c tg) ok m m' h d = ground (arith, h d)
intended-cong (leave now c) ok m m' h d = ground (arith, h d)
intended-cong (talk now tg talker) ok m m' h d = h d
intended-cong (tick now) ok m m' h d = h d

intended_all-cong :
    (os : List Operation) (oks : List Bool) (m m' : Placement)
    → ((d : ℕ) → m d ≡ m' d)
    → (d : ℕ) → intended_all os oks m d ≡ intended_all os oks m' d
intended_all-cong [] oks m m' h d = h d
intended_all-cong (o ∷ os) [] m m' h d = h d
intended_all-cong (o ∷ os) (ok ∷ oks) m m' h d =
    intended_all-cong os oks (intended o ok m) (intended o ok m') (intended-cong o ok m m' h) d

-- What the handler shows is what the placement says.
pub record Shows (s : TgHandler) (m : Placement) : Type 0 where
  pub groups : (d : ℕ) → tg_for_client d s ≡ some (value_or (m d) 0)
  pub members : (d tg : ℕ) → contains d (clients_for_tg tg s) ≡ points_to tg (m d)

pub tg_for_client-placement :
    (d : ℕ) (s : TgHandler)
    → IsConsistent s
    → tg_for_client d s ≡ some (value_or (find d s.client_map) 0)
unfolding tg_for_client
tg_for_client-placement d s v = elim (Option-cases (find d s.client_map)) [
  | inl e ↦ rw (tg_for_client, e) refl
  | inr (tg, e) ↦
      let (i, here, has, named) = lookup_client d tg s v e in
      rw (tg_for_client, e, here, named) refl
]

contains-clients_for_tg :
    (d tg : ℕ) (s : TgHandler) → contains d (clients_for_tg tg s) ≡ holds d (find tg s.id_map)
unfolding clients_for_tg contains
contains-clients_for_tg d tg s = elim (Option-cases (find tg s.id_map)) [
  | inl e ↦ rw (clients_for_tg, e) refl
  | inr (i, e) ↦ rw (clients_for_tg, e) refl
]

placement-Shows :
    (s : TgHandler) (m : Placement) → IsConsistent s → ((d : ℕ) → placement s d ≡ m d) → Shows s m
placement-Shows s m v h = record {
  groups = λ d. tg_for_client-placement d s v ∙ ap (λ o. some (value_or o 0)) (h d);
  members = λ d tg. contains-clients_for_tg d tg s ∙ v.agree d tg ∙ ap (points_to tg) (h d);
}

-- Some operations that did what is intended.
record RefinesAll (os : List Operation) (s : TgHandler) (r : List Bool × TgHandler) : Type 0 where
  consistent : IsConsistent r.1
  places : (d : ℕ) → placement r.1 d ≡ intended_all os r.0 (placement s) d

perform_all-RefinesAll :
    (cfg : Config) (os : List Operation) (s : TgHandler)
    → IsConsistent s
    → (r : List Bool × TgHandler) × (perform_all cfg os s ≡ some r) × RefinesAll os s r
unfolding perform_all
perform_all-RefinesAll cfg [] s v = (([], s), refl, record { consistent = v; places = λ d. refl })
perform_all-RefinesAll cfg (o ∷ os) s v =
    let ((ok, s'), e, one) = perform-Refines cfg o s v in
    let ((oks, s''), e', rest) = perform_all-RefinesAll cfg os s' one.consistent in
    (
      (ok ∷ oks, s''),
      rw (perform_all, e, e') refl,
      record {
        consistent = rest.consistent;
        places = λ d.
            rest.places d
            ∙ intended_all-cong os oks (placement s') (intended o ok (placement s)) one.places d;
      },
    )

-- From a consistent handler, any operations give a result for each of them and a consistent
-- handler; `TGForClient` and `clientsForTG` show the placement of the clients that these results
-- make of the placement before.
pub perform_all-Shows :
    (cfg : Config) (os : List Operation) (s : TgHandler)
    → IsConsistent s
    → (r : List Bool × TgHandler) × (perform_all cfg os s ≡ some r)
      × IsConsistent r.1
      × Shows r.1 (intended_all os r.0 (placement s))
perform_all-Shows cfg os s v =
    let (r, e, all) = perform_all-RefinesAll cfg os s v in
    (
      r,
      e,
      all.consistent,
      placement-Shows r.1 (intended_all os r.0 (placement s)) all.consistent all.places,
    )
