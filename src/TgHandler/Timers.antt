-- ===== src/TgHandler/Timers.antt =====
-- `checkTimers` of TGHandler.cpp, which runs every second.
use geu_reflector.Base.{
  ℕ, ◌-◌, ◌≡◌, refl, subst, sym, ◌⊎◌, inl, inr, Bool, true, none, some, find, Option-cases,
  Bool-cases, if◌then◌else◌, ◌==◌, ltb, is_some, arith,
}
use geu_reflector.TgHandler.State.{
  TgInfo, TgHandler, put_info, emit, seconds, set_block, talker_audio_timeout,
}
use geu_reflector.TgHandler.Talkers.{
  set_talker_for_tg, check_audio_timeout, check_sql_timeout, check_tg,
}
use geu_reflector.TgHandler.Retains.{
  Updates, Updates-of_eq, Updates-refl, Updates-trans, put_info-Updates, set_talker_for_tg-Updates,
  with_talker,
}

-- The audio of this talker came in more than three seconds ago.
abbrev pub is_stale : ℕ → TgInfo → Bool
is_stale now i = ltb talker_audio_timeout (seconds (now - i.last_talker_timestamp))

-- The squelch timeout's part of a round.
abbrev pub sql_checked : ℕ → ℕ → TgInfo → TgInfo
sql_checked now timeout i =
    if i.sql_timeout_cnt == 0
    then i
    else if i.sql_timeout_cnt == 1
    then with_talker now timeout none (record i { sql_timeout_cnt = i.sql_timeout_cnt - 1 })
    else record i { sql_timeout_cnt = i.sql_timeout_cnt - 1 }

abbrev pub audio_checked : ℕ → ℕ → TgInfo → TgInfo
audio_checked now timeout i = if is_stale now i then with_talker now timeout none i else i

-- What one round makes of an entry.
abbrev pub checked : ℕ → ℕ → TgInfo → TgInfo
checked now timeout i =
    if is_some i.talker then sql_checked now timeout (audio_checked now timeout i) else i

expired :
    (now tg c : ℕ) (i j : TgInfo) (s : TgHandler)
    → i.id ≡ tg
    → Updates tg (some (with_talker now s.sql_timeout none j)) s (
        set_talker_for_tg now i.id none
          (emit (set_block c s.sql_timeout_blocktime) (put_info tg j s)))
expired now tg c i j s n =
    let s' = emit (set_block c s.sql_timeout_blocktime) (put_info tg j s) in
    let u = set_talker_for_tg-Updates now tg none s' in
    let p = put_info-Updates tg j s in
    subst
      (λ k.
        Updates tg (some (with_talker now s.sql_timeout none j)) s
          (set_talker_for_tg now k none s'))
      (sym n)
      (record {
        entries = λ t. ground (arith, u.entries t, p.entries t, p.entries tg);
        pointers = u.pointers;
        timeout = u.timeout;
      })

-- A round that finds a talker, or a count of 0, never reads through a null talker.
check_sql_timeout_live :
    (now tg : ℕ) (i : TgInfo) (s : TgHandler)
    → find tg s.id_map ≡ some i
    → i.id ≡ tg
    → (i.sql_timeout_cnt ≡ 0) ⊎ (is_some i.talker ≡ true)
    → (s' : TgHandler) × (check_sql_timeout now tg s ≡ some s')
      × Updates tg (some (sql_checked now s.sql_timeout i)) s s'
unfolding check_sql_timeout
check_sql_timeout_live now tg i s e n ok =
    let j = record i { sql_timeout_cnt = i.sql_timeout_cnt - 1 } in
    elim (Bool-cases (ltb 0 i.sql_timeout_cnt)) [
      | inr z ↦ (
        s,
        rw (e, z, check_sql_timeout),
        let u = Updates-refl tg s in
            record { entries = λ t. ground (arith, u.entries t); pointers = refl; timeout = refl },
      )
      | inl p ↦ elim (Bool-cases (i.sql_timeout_cnt - 1 == 0)) [
        | inr more ↦ (
          put_info tg j s,
          rw (e, p, more, check_sql_timeout),
          Updates-of_eq (ground arith) (put_info-Updates tg j s),
        )
        | inl last ↦ elim (Option-cases i.talker) [
          | inl gone ↦ absurd (ground arith)
          | inr (c, t) ↦ (
            set_talker_for_tg now i.id none
                (emit (set_block c s.sql_timeout_blocktime) (put_info tg j s)),
            ground arith,
            Updates-of_eq (ground arith) (expired now tg c i j s n),
          )
        ]
      ]
    ]

check_audio_timeout-Updates :
    (now tg : ℕ) (i : TgInfo) (s : TgHandler)
    → find tg s.id_map ≡ some i
    → i.id ≡ tg
    → Updates tg (some (audio_checked now s.sql_timeout i)) s (check_audio_timeout now tg i s)
unfolding check_audio_timeout
check_audio_timeout-Updates now tg i s e n = elim (Bool-cases (is_stale now i)) [
  | inl stale ↦
      rw (stale, check_audio_timeout)
        (subst
          (λ k.
            Updates tg (some (with_talker now s.sql_timeout none i)) s
              (set_talker_for_tg now k none s))
          (sym n) (rw e at (set_talker_for_tg-Updates now tg none s)))
  | inr fresh ↦ rw (fresh, check_audio_timeout) (rw e at (Updates-refl tg s))
]

-- One round rewrites its own entry as `checked` says, and ends.
pub check_tg_live :
    (now tg : ℕ) (i : TgInfo) (s : TgHandler)
    → find tg s.id_map ≡ some i
    → i.id ≡ tg
    → (s' : TgHandler) × (check_tg now tg s ≡ some s')
      × Updates tg (some (checked now s.sql_timeout i)) s s'
unfolding check_tg
check_tg_live now tg i s e n = elim (Bool-cases (is_some i.talker)) [
  | inr quiet ↦ (s, rw (e, quiet, check_tg), Updates-of_eq (ground arith) (Updates-refl tg s))
  | inl talks ↦
      let s₁ = check_audio_timeout now tg i s in
      let i₁ = audio_checked now s.sql_timeout i in
      let a = check_audio_timeout-Updates now tg i s e n in
      let (s₂, ok, b) =
        check_sql_timeout_live now tg i₁ s₁ (ground (arith, a.entries tg)) (ground arith)
          (ground arith) in
      (
        s₂,
        rw (e, talks, check_tg) ok,
        Updates-of_eq (ground (arith, a.timeout)) (Updates-trans a b),
      )
]
