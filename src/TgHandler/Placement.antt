-- ===== src/TgHandler/Placement.antt =====
-- TGHandler.cpp against what it is for: it keeps for each client the talk group that the client is
-- in. The abstract state is that function, and the order and the storage of clients are forgotten.
use geu_reflector.Base.{
  ℕ, ◌≡◌, refl, sym, ap, ◌∙◌, Bool, true, false, Option, none, some, find, find-assign,
  if◌then◌else◌, ◌==◌, some_eq, Option-cases, Bool-cases, inl, inr, arith,
}
use geu_reflector.TgHandler.State.{TgInfo, TgHandler, Config, is_client, new_info}
use geu_reflector.TgHandler.Talkers.{set_talker_for_tg, check_timers}
use geu_reflector.TgHandler.Loop.{check_timers_total}
use geu_reflector.TgHandler.Members.{
  drop_client, join, select_tg, switch_to, remove_client, remove_client_p,
}
use geu_reflector.TgHandler.Consistent.{
  IsConsistent, drop_client-others, select_tg_cases, switch_to_cases, select_tg-IsConsistent,
}
use geu_reflector.TgHandler.Retains.{Retains-IsConsistent, set_talker_for_tg-Retains}
use geu_reflector.TgHandler.Leave.{Switched, select_tg-Switched, remove_client-IsConsistent}

-- The talk group of each client, `none` for a client in none.
abbrev pub Placement : Type 0
Placement = ℕ → Option ℕ

abbrev pub put : ℕ → Option ℕ → Placement → Placement
put c o m d = if d == c then o else m d

-- The operations that the reflector calls, and the tick of the timers, with the times of those that read the clock.
pub data Operation : Type 0 where
  select : ℕ → ℕ → Operation
  leave : ℕ → ℕ → Operation
  talk : ℕ → ℕ → Option ℕ → Operation
  tick : ℕ → Operation

-- What an operation does to the placement, given whether it succeeded.
unfoldable pub intended : Operation → Bool → Placement → Placement
intended (select c tg) ok m = put c (if ok then (if tg == 0 then none else some tg) else none) m
intended (leave now c) ok m = put c none m
intended (talk now tg talker) ok m = m
intended (tick now) ok m = m

-- The same operations of the handler; `none` is a dangling pointer.
unfoldable pub perform : Config → Operation → TgHandler → Option (Bool × TgHandler)
perform cfg (select c tg) s = switch_to cfg c tg s
perform cfg (leave now c) s = elim (remove_client now c s) [
  | none ↦ none
  | some s' ↦ some (true, s')
]
perform cfg (talk now tg talker) s = some (true, set_talker_for_tg now tg talker s)
perform cfg (tick now) s = elim (check_timers now s) [ none ↦ none | some s' ↦ some (true, s') ]

abbrev pub placement : TgHandler → Placement
placement s d = find d s.client_map

-- Outside the client that an operation is about, the placement stays.
join-Others :
    (c tg : ℕ) (info : TgInfo) (s : TgHandler) (d : ℕ)
    → (d == c) ≡ false
    → find d (join c tg info s).client_map ≡ find d s.client_map
unfolding join
join-Others c tg info s d other = ground (arith, find-assign c d tg s.client_map)

select_tg-Others :
    (cfg : Config) (c tg : ℕ) (s : TgHandler) (d : ℕ)
    → (d == c) ≡ false
    → find d (select_tg cfg c tg s).1.client_map ≡ find d s.client_map
select_tg-Others cfg c tg s d other =
    select_tg_cases (λ r. find d r.1.client_map ≡ find d s.client_map) cfg c tg s (λ _. refl)
      (λ _. refl) (λ _ _ info e. join-Others c tg info s d other)
      (λ _ _ _ _. join-Others c tg (new_info cfg tg) s d other)

-- A step of the handler that does what is intended.
pub record Refines (o : Operation) (s : TgHandler) (r : Bool × TgHandler) : Type 0 where
  pub consistent : IsConsistent r.1
  pub places : (d : ℕ) → placement r.1 d ≡ intended o r.0 (placement s) d

Switched-placement :
    (c tg : ℕ) (s : TgHandler) (r : Bool × TgHandler)
    → Switched c tg r
    → ((d : ℕ) → (d == c) ≡ false → find d r.1.client_map ≡ find d s.client_map)
    → (d : ℕ) → placement r.1 d ≡ intended (select c tg) r.0 (placement s) d
unfolding intended
Switched-placement c tg s r here others d = elim (Bool-cases (d == c)) [
  | inr other ↦ rw other (others d other)
  | inl same ↦
      let equal : d ≡ c = ground arith in rw same (ap (λ k. find k r.1.client_map) equal ∙ here)
]

pub select-Refines :
    (cfg : Config) (c tg : ℕ) (s : TgHandler)
    → IsConsistent s
    → (r : Bool × TgHandler) × (switch_to cfg c tg s ≡ some r) × Refines (select c tg) s r
select-Refines cfg c tg s v =
    switch_to_cases (Refines (select c tg) s) cfg c tg s v
      (λ p e. record {
        consistent = v;
        places = Switched-placement c tg s (true, s) (e ∙ ground arith) (λ d other. refl);
      })
      λ s' v' free _ others. record {
        consistent = select_tg-IsConsistent cfg c tg s' v' free;
        places =
            Switched-placement c tg s (select_tg cfg c tg s') (select_tg-Switched cfg c tg s' free)
              (λ d other. select_tg-Others cfg c tg s' d other ∙ others d other);
      }

removed-others :
    (tg c : ℕ) (s s' : TgHandler) (d : ℕ)
    → (d == c) ≡ false
    → remove_client_p tg c s ≡ some s'
    → find d s'.client_map ≡ find d s.client_map
unfolding remove_client_p
removed-others tg c s s' d other e = elim (Option-cases (find tg s.id_map)) [
  | inl n ↦ absurd (ground (arith, rw (remove_client_p, n) at e))
  | inr (info, h) ↦
      let dropped : some (drop_client tg info c s) ≡ some s' = rw (remove_client_p, h) at e in
      ap (λ t. find d t.client_map) (sym (some_eq dropped)) ∙ drop_client-others c tg info s d other
]

remove_client-others :
    (now c : ℕ) (s s' : TgHandler) (d : ℕ)
    → (d == c) ≡ false
    → remove_client now c s ≡ some s'
    → find d s'.client_map ≡ find d s.client_map
unfolding remove_client
remove_client-others now c s s' d other e = elim (Option-cases (find c s.client_map)) [
  | inl n ↦
      let same : some s ≡ some s' = rw (remove_client, n) at e in
      ap (λ t. find d t.client_map) (sym (some_eq same))
  | inr (tg, h) ↦ elim (Option-cases (find tg s.id_map)) [
    | inl n ↦ absurd (ground (arith, rw (remove_client, h, n) at e))
    | inr (info, k) ↦
        let t = if is_client info.talker c then set_talker_for_tg now info.id none s else s in
        let kept : t.client_map ≡ s.client_map = elim (Bool-cases (is_client info.talker c)) [
          | inl y ↦ rw y (set_talker_for_tg-Retains now info.id none s).pointers
          | inr n ↦ rw n refl
        ] in
        removed-others tg c t s' d other (rw (remove_client, h, k) at e) ∙ ap (find d) kept
  ]
]

-- Each operation on a consistent handler gives a result, and does what is intended.
pub perform-Refines :
    (cfg : Config) (o : Operation) (s : TgHandler)
    → IsConsistent s
    → (r : Bool × TgHandler) × (perform cfg o s ≡ some r) × Refines o s r
unfolding perform intended
perform-Refines cfg (select c tg) s v = select-Refines cfg c tg s v
perform-Refines cfg (leave now c) s v =
    let (s', done, v', gone) = remove_client-IsConsistent now c s v in
    (
      (true, s'),
      rw (perform, done) refl,
      record {
        consistent = v';
        places = λ d. elim (Bool-cases (d == c)) [
          | inr other ↦ rw other (remove_client-others now c s s' d other done)
          | inl same ↦
              let equal : d ≡ c = ground arith in
              rw same (ap (λ k. find k s'.client_map) equal ∙ gone)
        ];
      },
    )
perform-Refines cfg (talk now tg talker) s v =
    let k = set_talker_for_tg-Retains now tg talker s in
    (
      (true, set_talker_for_tg now tg talker s),
      refl,
      record { consistent = Retains-IsConsistent k v; places = λ d. ap (find d) k.pointers },
    )
perform-Refines cfg (tick now) s v =
    let (s', done, k) = check_timers_total now s v in
    (
      (true, s'),
      rw (perform, done) refl,
      record { consistent = Retains-IsConsistent k v; places = λ d. ap (find d) k.pointers },
    )
