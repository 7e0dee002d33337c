-- ===== src/TgHandler/Consistent.antt =====
-- The two maps of TGHandler.cpp agree, so that no operation follows a pointer to a deleted entry.
use geu_reflector.Base.{
  ℕ, ◌<◌, ◌≤◌, length-erase, length-assign, leb, ltb, length, ◌∙◌, ◌≡◌, refl, inl, inr, Bool, true,
  false, ◌&&◌, [], Option, none, some, find, insert, remove, contains, find-assign, find-erase,
  contains-insert, contains-remove, ◌==◌, not, is_empty, contains_of_is_empty, is_empty-insert,
  arith, Option-cases, Bool-cases, if◌then◌else◌,
}
use geu_reflector.TgHandler.State.{
  TgInfo, TgHandler, Config, is_client, allow_tg_selection, max_active_tgs, new_info,
}
use geu_reflector.TgHandler.Members.{drop_client, remove_client_p, join, select_tg, switch_to}

abbrev pub holds : ℕ → Option TgInfo → Bool
holds c none = false
holds c (some i) = contains c i.clients

abbrev pub points_to : ℕ → Option ℕ → Bool
points_to t none = false
points_to t (some u) = u == t

abbrev pub well_named : ℕ → Option TgInfo → Bool
well_named t none = true
well_named t (some i) = i.id == t && ltb 0 t && not (is_empty i.clients)

-- A talk group holds a client exactly when the client points to it; an entry stands under its own
-- id, which is not 0, and has a client.
pub record IsConsistent (s : TgHandler) : Type 0 where
  pub agree : (c t : ℕ) → holds c (find t s.id_map) ≡ points_to t (find c s.client_map)
  pub named : (t : ℕ) → well_named t (find t s.id_map) ≡ true

join-IsConsistent :
    (c tg : ℕ) (info : TgInfo) (s : TgHandler)
    → IsConsistent s
    → info.id ≡ tg
    → 0 < tg
    → find c s.client_map ≡ none
    → ((d : ℕ) → contains d info.clients ≡ points_to tg (find d s.client_map))
    → IsConsistent (join c tg info s)
unfolding join
join-IsConsistent c tg info s v e p free same = record {
  agree = λ d t. ground (
    arith,
    find-assign tg t (record info { clients = insert c info.clients }) s.id_map,
    find-assign c d tg s.client_map,
    contains-insert c d info.clients,
    v.agree d t,
    same d,
  );
  named = λ t. ground (
    arith,
    find-assign tg t (record info { clients = insert c info.clients }) s.id_map,
    is_empty-insert c info.clients,
    v.named t,
  );
}

-- A client's pointer leads to an entry that has the client and stands under its id.
pub lookup_client :
    (c t : ℕ) (s : TgHandler)
    → IsConsistent s
    → find c s.client_map ≡ some t
    → (i : TgInfo) × (find t s.id_map ≡ some i) × (contains c i.clients ≡ true) × (i.id ≡ t)
lookup_client c t s v e = elim (Option-cases (find t s.id_map)) [
  | inl h ↦ ground (arith, v.agree c t)
  | inr (i, h) ↦ (i, h, ground (arith, v.agree c t), ground (arith, v.named t))
]

pub drop_client-IsConsistent :
    (c tg : ℕ) (info : TgInfo) (s : TgHandler)
    → IsConsistent s
    → find c s.client_map ≡ some tg
    → find tg s.id_map ≡ some info
    → IsConsistent (drop_client tg info c s)
unfolding drop_client
drop_client-IsConsistent c tg info s v at here =
    let info' = record info {
      talker = if is_client info.talker c then none else info.talker;
      clients = remove c info.clients;
    } in
    record {
      agree = λ d t. ground (
        arith,
        find-assign tg t info' s.id_map,
        find-erase info.id t s.id_map,
        find-erase c d s.client_map,
        contains-remove c d info.clients,
        contains_of_is_empty d (remove c info.clients),
        v.agree d t,
        v.agree c t,
        v.agree d tg,
        v.named tg,
      );
      named = λ t. ground (
        arith,
        find-assign tg t info' s.id_map,
        find-erase info.id t s.id_map,
        v.named t,
        v.named tg,
      );
    }

pub drop_client-client_map :
    (c tg : ℕ) (info : TgInfo) (s : TgHandler) → find c (drop_client tg info c s).client_map ≡ none
unfolding drop_client
drop_client-client_map c tg info s = ground (arith, find-erase c c s.client_map)

pub drop_client-others :
    (c tg : ℕ) (info : TgInfo) (s : TgHandler) (d : ℕ)
    → (d == c) ≡ false
    → find d (drop_client tg info c s).client_map ≡ find d s.client_map
unfolding drop_client
drop_client-others c tg info s d other = ground (arith, find-erase c d s.client_map)

join-IsConsistent_new :
    (cfg : Config) (c tg : ℕ) (s : TgHandler)
    → IsConsistent s
    → 0 < tg
    → find c s.client_map ≡ none
    → find tg s.id_map ≡ none
    → IsConsistent (join c tg (new_info cfg tg) s)
join-IsConsistent_new cfg c tg s v p free e =
    join-IsConsistent c tg (new_info cfg tg) s v refl p free
      λ d. contains_of_is_empty d [] refl ∙ ground (arith, v.agree d tg)

join-IsConsistent_old :
    (c tg : ℕ) (info : TgInfo) (s : TgHandler)
    → IsConsistent s
    → find c s.client_map ≡ none
    → find tg s.id_map ≡ some info
    → IsConsistent (join c tg info s)
join-IsConsistent_old c tg info s v free e =
    join-IsConsistent c tg info s v (ground (arith, v.named tg)) (ground (arith, v.named tg)) free
      λ d. ground (arith, v.agree d tg)

-- What `switchTo` can do after it has left the old talk group: nothing, or join.
pub select_tg_cases {ℓ} :
    (P : Bool × TgHandler → Type ℓ) (cfg : Config) (c tg : ℕ) (s : TgHandler)
    → (tg ≡ 0 → P (true, s))
    → (0 < tg → P (false, s))
    → (0 < tg
        → allow_tg_selection cfg c tg ≡ true
        → (info : TgInfo) → find tg s.id_map ≡ some info
        → P (true, join c tg info s))
    → (0 < tg
        → allow_tg_selection cfg c tg ≡ true
        → find tg s.id_map ≡ none
        → length s.id_map < max_active_tgs
        → P (true, join c tg (new_info cfg tg) s))
    → P (select_tg cfg c tg s)
unfolding select_tg
select_tg_cases P cfg c tg s zero_tg refused old new = elim (Bool-cases (ltb 0 tg)) [
  | inr z ↦ rw (z, select_tg) (zero_tg (ground arith))
  | inl p ↦ elim (Bool-cases (allow_tg_selection cfg c tg)) [
    | inr n ↦ rw (p, n, select_tg) (refused (ground arith))
    | inl a ↦ elim (Option-cases (find tg s.id_map)) [
      | inr (info, e) ↦ rw (p, a, e, select_tg) (old (ground arith) a info e)
      | inl e ↦ elim (Bool-cases (leb max_active_tgs (length s.id_map))) [
        | inl full ↦ rw (p, a, e, full, select_tg) (refused (ground arith))
        | inr room ↦ rw (p, a, e, room, select_tg) (new (ground arith) a e (ground arith))
      ]
    ]
  ]
]

pub select_tg-IsConsistent :
    (cfg : Config) (c tg : ℕ) (s : TgHandler)
    → IsConsistent s
    → find c s.client_map ≡ none
    → IsConsistent (select_tg cfg c tg s).1
select_tg-IsConsistent cfg c tg s v free =
    select_tg_cases (λ r. IsConsistent r.1) cfg c tg s (λ _. v) (λ _. v)
      (λ _ _ info e. join-IsConsistent_old c tg info s v free e)
      (λ p _ e _. join-IsConsistent_new cfg c tg s v p free e)

pub remove_client_p_live :
    (tg c : ℕ) (info : TgInfo) (s : TgHandler)
    → find tg s.id_map ≡ some info
    → remove_client_p tg c s ≡ some (drop_client tg info c s)
unfolding remove_client_p
remove_client_p_live tg c info s e = rw (e, remove_client_p)

length-drop_client :
    (tg c : ℕ) (info : TgInfo) (s : TgHandler)
    → find tg s.id_map ≡ some info
    → length (drop_client tg info c s).id_map ≤ length s.id_map
unfolding drop_client
length-drop_client tg c info s e =
    let info' = record info {
      talker = if is_client info.talker c then none else info.talker;
      clients = remove c info.clients;
    } in
    ground (arith, length-erase info.id s.id_map, length-assign tg info' s.id_map)

-- On a consistent state `switchTo` follows no dangling pointer: it stays in the talk group, or
-- selects from a consistent state in which the client is in none.
pub switch_to_cases :
    (P : Bool × TgHandler → Type 0) (cfg : Config) (c tg : ℕ) (s : TgHandler)
    → IsConsistent s
    → (0 < tg → find c s.client_map ≡ some tg → P (true, s))
    → ((s' : TgHandler)
        → IsConsistent s'
        → find c s'.client_map ≡ none
        → length s'.id_map ≤ length s.id_map
        → ((d : ℕ) → (d == c) ≡ false → find d s'.client_map ≡ find d s.client_map)
        → P (select_tg cfg c tg s'))
    → (r : Bool × TgHandler) × (switch_to cfg c tg s ≡ some r) × P r
unfolding switch_to
switch_to_cases P cfg c tg s v stay go = elim (Option-cases (find c s.client_map)) [
  | inl e ↦ (select_tg cfg c tg s, rw (e, switch_to), go s v e (omega arith) (λ d other. refl))
  | inr (old, e) ↦
      let (info, here, has, named) = lookup_client c old s v e in
      elim (Bool-cases (info.id == tg)) [
        | inl same ↦ (
          (true, s),
          rw (e, here, same, switch_to),
          stay (ground (arith, v.named old)) (ground arith),
        )
        | inr other ↦ (
          select_tg cfg c tg (drop_client old info c s),
          rw (e, here, other, remove_client_p_live old c info s here, switch_to),
          go (drop_client old info c s) (drop_client-IsConsistent c old info s v e here)
              (drop_client-client_map c old info s) (length-drop_client old c info s here)
              (drop_client-others c old info s),
        )
      ]
]

-- On a consistent state `switchTo` follows no dangling pointer and leaves a consistent state.
pub switch_to-IsConsistent :
    (cfg : Config) (c tg : ℕ) (s : TgHandler)
    → IsConsistent s
    → (r : Bool × TgHandler) × (switch_to cfg c tg s ≡ some r) × IsConsistent r.1
switch_to-IsConsistent cfg c tg s v =
    switch_to_cases (λ r. IsConsistent r.1) cfg c tg s v (λ _ _. v)
      λ s' v' free _ _. select_tg-IsConsistent cfg c tg s' v' free
