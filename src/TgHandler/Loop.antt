-- ===== src/TgHandler/Loop.antt =====
-- The whole loop of `checkTimers` of TGHandler.cpp.
use geu_reflector.Base.{
  ℕ, ◌≡◌, refl, ◌∙◌, sym, inl, inr, Bool, true, false, [], ◌∷◌, Option, none, some, Map, find,
  Option-cases, Bool-cases, ◌==◌, ◌||◌, some_eq, is_some, arith, All, ap,
}
use geu_reflector.TgHandler.State.{TgInfo, TgHandler, talker_for_tg}
use geu_reflector.TgHandler.Talkers.{check_tg, check_tgs, check_timers}
use geu_reflector.TgHandler.Consistent.{IsConsistent}
use geu_reflector.TgHandler.Retains.{
  Updates, Retains, Retains-refl, Retains-trans, Retains-IsConsistent, membership,
}
use geu_reflector.TgHandler.Timers.{is_stale, checked, check_tg_live}

abbrev is_key : ℕ → Map TgInfo → Bool
is_key t [] = false
is_key t ((u, i) ∷ l) = t == u || is_key t l

All-mono :
    (P Q : ℕ → Type 0) (l : Map TgInfo)
    → ((t : ℕ) → P t → Q t)
    → All (λ p. P p.0) l
    → All (λ p. Q p.0) l
All-mono P Q [] f h = tt
All-mono P Q (x ∷ l) f h = (f x.0 h.0, All-mono P Q l f h.1)

keys_found : (m : Map TgInfo) → All (λ p. is_some (find p.0 m) ≡ true) m
unfolding find
keys_found [] = tt
keys_found ((u, i) ∷ m) = (
  ground arith,
  All-mono (λ t. is_some (find t m) ≡ true) (λ t. is_some (find t ((u, i) ∷ m)) ≡ true) m
      (λ t h. ground arith) (keys_found m),
)

is_key_of_find : (t : ℕ) (m : Map TgInfo) → is_some (find t m) ≡ true → is_key t m ≡ true
unfolding find
is_key_of_find t [] h = h
is_key_of_find t ((u, i) ∷ m) h = ground (arith, is_key_of_find t m)

membership-checked :
    (now timeout : ℕ) (i : TgInfo) → membership (some (checked now timeout i)) ≡ membership (some i)
membership-checked now timeout i = ground arith

-- One round on a key of the map: it ends, members stay, and its entry becomes what `checked` says.
check_tg_step :
    (now u : ℕ) (s : TgHandler)
    → IsConsistent s
    → is_some (find u s.id_map) ≡ true
    → (i : TgInfo) × (s' : TgHandler) × (find u s.id_map ≡ some i)
      × (check_tg now u s ≡ some s')
      × Updates u (some (checked now s.sql_timeout i)) s s'
      × Retains s s'
check_tg_step now u s v h = elim (Option-cases (find u s.id_map)) [
  | inl e ↦ absurd (ground arith)
  | inr (i, e) ↦
      let (s', ok, up) = check_tg_live now u i s e (ground (arith, v.named u)) in
      (
        i,
        s',
        e,
        ok,
        up,
        record {
          infos = λ t. ground (arith, up.entries t, membership-checked now s.sql_timeout i);
          pointers = up.pointers;
        },
      )
]

abbrev pub talker_of : Option TgInfo → Option ℕ
talker_of none = none
talker_of (some i) = i.talker

-- What the loop leaves behind for one talk group.
record Outcome (now : ℕ) (l : Map TgInfo) (s s' : TgHandler) : Type 0 where
  retains : Retains s s'
  steady :
      (t : ℕ) (i : TgInfo)
      → find t s.id_map ≡ some i
      → checked now s.sql_timeout i ≡ i
      → find t s'.id_map ≡ some i
  silenced :
      (t : ℕ) (i : TgInfo)
      → find t s.id_map ≡ some i
      → is_stale now i ≡ true
      → is_key t l ≡ true
      → talker_of (find t s'.id_map) ≡ none

checked_stale :
    (now timeout : ℕ) (i : TgInfo) → is_stale now i ≡ true → (checked now timeout i).talker ≡ none
checked_stale now timeout i h = ground arith

checked_quiet : (now timeout : ℕ) (i : TgInfo) → i.talker ≡ none → checked now timeout i ≡ i
checked_quiet now timeout i h = ground arith

is_some-membership :
    (o p : Option TgInfo) → membership o ≡ membership p → is_some p ≡ true → is_some o ≡ true
is_some-membership o p e h = ground arith

Outcome-step :
    (now u : ℕ) (x i₀ : TgInfo) (l : Map TgInfo) (s s₁ s' : TgHandler)
    → find u s.id_map ≡ some i₀
    → Updates u (some (checked now s.sql_timeout i₀)) s s₁
    → Retains s s₁
    → Outcome now l s₁ s'
    → Outcome now ((u, x) ∷ l) s s'
Outcome-step now u x i₀ l s s₁ s' e up r ih = record {
  retains = Retains-trans r ih.retains;
  steady = λ t i f c.
      ih.steady t i (ground (arith, up.entries t)) (ap (λ n. checked now n i) up.timeout ∙ c);
  silenced = λ t i f stale k.
      let j = checked now s.sql_timeout i in
      elim (Bool-cases (t == u)) [
        | inl same ↦
            ap talker_of (
              ih.steady t j (ground (arith, up.entries t))
                (checked_quiet now s₁.sql_timeout j (checked_stale now s.sql_timeout i stale)))
            ∙ checked_stale now s.sql_timeout i stale
        | inr other ↦ ih.silenced t i (ground (arith, up.entries t)) stale (ground arith)
      ];
}

check_tgs_lem :
    (now : ℕ) (l : Map TgInfo) (s : TgHandler)
    → IsConsistent s
    → All (λ p. is_some (find p.0 s.id_map) ≡ true) l
    → (s' : TgHandler) × (check_tgs now l s ≡ some s') × Outcome now l s s'
unfolding check_tgs
check_tgs_lem now [] s v h = (
  s,
  refl,
  record { retains = Retains-refl s; steady = λ t i e c. e; silenced = λ t i e st k. cc },
)
check_tgs_lem now ((u, x) ∷ l) s v h =
    let (i, s₁, e, ok, up, r) = check_tg_step now u s v h.0 in
    let live =
      All-mono (λ t. is_some (find t s.id_map) ≡ true) (λ t. is_some (find t s₁.id_map) ≡ true) l
        (λ t. is_some-membership _ _ (r.infos t)) h.1 in
    let (s', done, out) = check_tgs_lem now l s₁ (Retains-IsConsistent r v) live in
    (s', rw (ok, check_tgs) done, Outcome-step now u x i l s s₁ s' e up r out)

-- `checkTimers` on a consistent state runs to its end without reading through a null pointer, and
-- no client enters or leaves a talk group.
pub check_timers_total :
    (now : ℕ) (s : TgHandler)
    → IsConsistent s
    → (s' : TgHandler) × (check_timers now s ≡ some s') × Retains s s'
unfolding check_timers
check_timers_total now s v =
    let (s', ok, out) = check_tgs_lem now s.id_map s v (keys_found s.id_map) in
    (s', ok, out.retains)

-- On a consistent state, a talker whose last audio is more than three seconds old has lost its
-- talk group after `checkTimers`.
check_timers_stale :
    (now tg : ℕ) (i : TgInfo) (s s' : TgHandler)
    → IsConsistent s
    → check_timers now s ≡ some s'
    → find tg s.id_map ≡ some i
    → is_stale now i ≡ true
    → talker_for_tg tg s' ≡ none
unfolding check_timers talker_for_tg
check_timers_stale now tg i s s' v run e stale =
    let (t, ok, out) = check_tgs_lem now s.id_map s v (keys_found s.id_map) in
    let same : t ≡ s' = some_eq (sym ok ∙ run) in
    let gone = out.silenced tg i e stale (is_key_of_find tg s.id_map (ground arith)) in
    rw (← same) (ground (arith, gone))

-- On a consistent state, `checkTimers` leaves the entry of a talk group as it was if its last audio
-- is at most three seconds old and no squelch timeout runs.
check_timers_fresh :
    (now tg : ℕ) (i : TgInfo) (s s' : TgHandler)
    → IsConsistent s
    → check_timers now s ≡ some s'
    → find tg s.id_map ≡ some i
    → is_stale now i ≡ false
    → i.sql_timeout_cnt ≡ 0
    → find tg s'.id_map ≡ some i
unfolding check_timers
check_timers_fresh now tg i s s' v run e fresh idle =
    let (t, ok, out) = check_tgs_lem now s.id_map s v (keys_found s.id_map) in
    let same : t ≡ s' = some_eq (sym ok ∙ run) in rw (← same) (out.steady tg i e (ground arith))
