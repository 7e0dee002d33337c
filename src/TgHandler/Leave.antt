-- ===== src/TgHandler/Leave.antt =====
-- Leaving: `removeClient` of TGHandler.cpp, what a switch achieves, and the limit on talk groups.
use geu_reflector.Base.{
  ℕ, ◌<◌, ◌≤◌, ◌≡◌, refl, ◌∙◌, inl, inr, Bool, true, Option, none, some, find, find-assign, length,
  length-assign, Option-cases, Bool-cases, if◌then◌else◌, ◌==◌, is_some, insert, ◌+◌, arith,
}
use geu_reflector.TgHandler.State.{TgInfo, TgHandler, Config, is_client, new_info, max_active_tgs}
use geu_reflector.TgHandler.Talkers.{set_talker_for_tg}
use geu_reflector.TgHandler.Members.{drop_client, join, select_tg, switch_to, remove_client}
use geu_reflector.TgHandler.Consistent.{
  IsConsistent, lookup_client, drop_client-IsConsistent, drop_client-client_map,
  remove_client_p_live, select_tg_cases, switch_to_cases,
}
use geu_reflector.TgHandler.Retains.{
  Retains, Retains-refl, Retains-IsConsistent, set_talker_for_tg-Retains, membership,
}

pub found_of_membership :
    (o : Option TgInfo) (i : TgInfo)
    → membership o ≡ membership (some i)
    → (j : TgInfo) × (o ≡ some j)
found_of_membership none i e = cc
found_of_membership (some j) i e = (j, refl)

-- On a consistent state `removeClient` follows no dangling pointer; afterwards the state is
-- consistent and the client is in no talk group.
pub remove_client-IsConsistent :
    (now c : ℕ) (s : TgHandler)
    → IsConsistent s
    → (s' : TgHandler) × (remove_client now c s ≡ some s')
      × IsConsistent s'
      × (find c s'.client_map ≡ none)
unfolding remove_client
remove_client-IsConsistent now c s v = elim (Option-cases (find c s.client_map)) [
  | inl e ↦ (s, rw (e, remove_client), v, e)
  | inr (tg, e) ↦
      let (i, here, has, named) = lookup_client c tg s v e in
      let s₁ = if is_client i.talker c then set_talker_for_tg now i.id none s else s in
      let r : Retains s s₁ = elim (Bool-cases (is_client i.talker c)) [
        | inl y ↦ rw y (set_talker_for_tg-Retains now i.id none s)
        | inr n ↦ rw n (Retains-refl s)
      ] in
      let v₁ = Retains-IsConsistent r v in
      let at : find c s₁.client_map ≡ some tg = rw (r.pointers) e in
      let (j, live) = found_of_membership (find tg s₁.id_map) i (rw here at (r.infos tg)) in
      (
        drop_client tg j c s₁,
        rw (e, here, remove_client) (remove_client_p_live tg c j s₁ live),
        drop_client-IsConsistent c tg j s₁ v₁ at live,
        drop_client-client_map c tg j s₁,
      )
]

-- The client is in the talk group that it asked for, or in none.
abbrev pub Switched : ℕ → ℕ → Bool × TgHandler → Type 0
Switched c tg r =
    find c (r.1).client_map ≡ (if r.0 then (if tg == 0 then none else some tg) else none)

join-Switched :
    (c tg : ℕ) (info : TgInfo) (s : TgHandler) → 0 < tg → Switched c tg (true, join c tg info s)
unfolding join
join-Switched c tg info s p = find-assign c c tg s.client_map ∙ ground arith

pub select_tg-Switched :
    (cfg : Config) (c tg : ℕ) (s : TgHandler)
    → find c s.client_map ≡ none
    → Switched c tg (select_tg cfg c tg s)
select_tg-Switched cfg c tg s free =
    select_tg_cases (Switched c tg) cfg c tg s (λ z. ground arith) (λ _. free)
      (λ p _ info e. join-Switched c tg info s p)
      (λ p _ _ _. join-Switched c tg (new_info cfg tg) s p)

-- On a consistent state `switchTo` ends with the client in the talk group that it asked for (in
-- none if that is 0) when it returns true, and in no talk group when it returns false.
pub switch_to-Switched :
    (cfg : Config) (c tg : ℕ) (s : TgHandler)
    → IsConsistent s
    → (r : Bool × TgHandler) × (switch_to cfg c tg s ≡ some r) × Switched c tg r
switch_to-Switched cfg c tg s v =
    switch_to_cases (Switched c tg) cfg c tg s v (λ p e. ground arith)
      λ s' _ free _ _. select_tg-Switched cfg c tg s' free

abbrev pub Limited : TgHandler → Type 0
Limited s = length s.id_map ≤ max_active_tgs

join-Limited :
    (c tg n : ℕ) (info : TgInfo) (s : TgHandler)
    → length s.id_map + (if is_some (find tg s.id_map) then 0 else 1) ≤ n
    → length (join c tg info s).id_map ≤ n
unfolding join
join-Limited c tg n info s h =
    omega (arith, length-assign tg (record info { clients = insert c info.clients }) s.id_map)

select_tg-Limited :
    (cfg : Config) (c tg : ℕ) (s : TgHandler) → Limited s → Limited (select_tg cfg c tg s).1
select_tg-Limited cfg c tg s h =
    select_tg_cases (λ r. Limited r.1) cfg c tg s (λ _. h) (λ _. h)
      (λ _ _ info e. join-Limited c tg max_active_tgs info s (rw e (omega arith)))
      (λ _ _ e room. join-Limited c tg max_active_tgs (new_info cfg tg) s (rw e (omega arith)))

-- On a consistent state `switchTo` never brings the number of talk groups over the limit of 10000.
switch_to-Limited :
    (cfg : Config) (c tg : ℕ) (s : TgHandler)
    → IsConsistent s
    → Limited s
    → (r : Bool × TgHandler) × (switch_to cfg c tg s ≡ some r) × Limited r.1
switch_to-Limited cfg c tg s v h =
    switch_to_cases (λ r. Limited r.1) cfg c tg s v (λ _ _. h)
      λ s' _ _ le _. select_tg-Limited cfg c tg s' (omega arith)
