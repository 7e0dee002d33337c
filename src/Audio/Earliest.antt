-- ===== src/Audio/Earliest.antt =====
-- ReflectorClient.cpp: of the talk groups that a client monitors, the audio of one is delivered.
use geu_reflector.Base.{
  ℕ, ◌≡◌, refl, sym, ap, ◌∙◌, true, false, not, ◌||◌, List, [], ◌∷◌, some, contains, ◌==◌,
  Bool-cases, Option-cases, inl, inr, arith,
}
use geu_reflector.TgHandler.State.{TgHandler}
use geu_reflector.Audio.Filters.{
  Client, start_time_for_tg, has_talker, comes_before, earlier_of, earliest_of,
  earliest_monitor_talker,
}

-- Where the loop ends at `m_tg`, it began there, and no talk group on its way comes before it.
earlier_of-stays :
    (h : TgHandler) (m_tg tg : ℕ) (e : ℕ × ℕ)
    → ((earlier_of h m_tg tg e).0 == m_tg) ≡ true
    → earlier_of h m_tg tg e ≡ e
unfolding earlier_of
earlier_of-stays h m_tg tg (etg, ets) k =
    elim (Bool-cases ((tg == m_tg) || not (has_talker h tg))) [
      | inl skip ↦ rw (earlier_of, skip) refl
      | inr go ↦ elim (Option-cases (start_time_for_tg h tg)) [
        | inl e ↦ rw (earlier_of, go, e) refl
        | inr (ts, e) ↦ elim (Bool-cases (comes_before tg ts etg ets)) [
          | inr later ↦ rw (earlier_of, go, e, later) refl
          | inl sooner ↦
              let moved : (tg == m_tg) ≡ true = rw (earlier_of, go, e, sooner) at k in
              absurd (ground (arith, go, moved))
        ]
      ]
    ]

earliest_of-start :
    (h : TgHandler) (m_tg : ℕ) (tgs : List ℕ) (e : ℕ × ℕ)
    → ((earliest_of h m_tg tgs e).0 == m_tg) ≡ true
    → (e.0 == m_tg) ≡ true
unfolding earliest_of
earliest_of-start h m_tg [] e k = k
earliest_of-start h m_tg (tg ∷ tgs) e k =
    let next = earliest_of-start h m_tg tgs (earlier_of h m_tg tg e) k in
    ap (λ x. x.0 == m_tg) (sym (earlier_of-stays h m_tg tg e next)) ∙ next

earlier_of-first :
    (h : TgHandler) (m_tg tg ts : ℕ) (e : ℕ × ℕ)
    → ((earlier_of h m_tg tg e).0 == m_tg) ≡ true
    → (tg == m_tg) ≡ false
    → has_talker h tg ≡ true
    → start_time_for_tg h tg ≡ some ts
    → comes_before tg ts e.0 e.1 ≡ false
unfolding earlier_of
earlier_of-first h m_tg tg ts (etg, ets) k other talks start =
    elim (Bool-cases (comes_before tg ts etg ets)) [
      | inr later ↦ later
      | inl sooner ↦
          let moved : (tg == m_tg) ≡ true = rw (earlier_of, other, talks, start, sooner) at k in
          absurd (ground (arith, other, moved))
    ]

earliest_of-first :
    (h : TgHandler) (m_tg tg ts : ℕ) (tgs : List ℕ) (e : ℕ × ℕ)
    → ((earliest_of h m_tg tgs e).0 == m_tg) ≡ true
    → contains tg tgs ≡ true
    → (tg == m_tg) ≡ false
    → has_talker h tg ≡ true
    → start_time_for_tg h tg ≡ some ts
    → comes_before tg ts e.0 e.1 ≡ false
unfolding earliest_of contains
earliest_of-first h m_tg tg ts [] e k c other talks start = absurd (ground (arith, c))
earliest_of-first h m_tg tg ts (t ∷ tgs) e k c other talks start =
    let next = earliest_of-start h m_tg tgs (earlier_of h m_tg t e) k in
    elim (Bool-cases (tg == t)) [
      | inl here ↦
          let same : t ≡ tg = ground arith in
          earlier_of-first h m_tg tg ts e (rw⁻¹ same next) other talks start
      | inr there ↦ rw⁻¹ (earlier_of-stays h m_tg t e next) (
          earliest_of-first h m_tg tg ts tgs (earlier_of h m_tg t e) k (rw there at c) other talks
            start)
    ]

-- What passing the filter says.
record Earliest (h : TgHandler) (tg : ℕ) (c : Client) : Type 0 where
  ts : ℕ
  monitored : contains tg c.monitored_tgs ≡ true
  start : start_time_for_tg h tg ≡ some ts
  last : ((earliest_of h tg c.monitored_tgs (tg, ts)).0 == tg) ≡ true

earliest_monitor_talker-Earliest :
    (h : TgHandler) (tg : ℕ) (c : Client) → earliest_monitor_talker h tg c ≡ true → Earliest h tg c
unfolding earliest_monitor_talker
earliest_monitor_talker-Earliest h tg c p = elim (Bool-cases (contains tg c.monitored_tgs)) [
  | inr out ↦ absurd (ground (arith, rw out at p))
  | inl within ↦ elim (Option-cases (start_time_for_tg h tg)) [
    | inl e ↦ absurd (ground (arith, rw (earliest_monitor_talker, within, e) at p))
    | inr (t, e) ↦ record {
      ts = t;
      monitored = within;
      start = e;
      last = rw (earliest_monitor_talker, within, e) at p;
    }
  ]
]

-- A client that monitors two talk groups which both have a talker passes the filter of at most one
-- of them.
pub earliest_monitor_talker_unique :
    (h : TgHandler) (c : Client) (tg tg' : ℕ)
    → has_talker h tg ≡ true
    → has_talker h tg' ≡ true
    → earliest_monitor_talker h tg c ≡ true
    → earliest_monitor_talker h tg' c ≡ true
    → tg ≡ tg'
unfolding comes_before
earliest_monitor_talker_unique h c tg tg' t t' p p' = elim (Bool-cases (tg == tg')) [
  | inl same ↦ ground arith
  | inr apart ↦
      let a = earliest_monitor_talker-Earliest h tg c p in
      let b = earliest_monitor_talker-Earliest h tg' c p' in
      let not_later : comes_before tg' b.ts tg a.ts ≡ false =
        earliest_of-first h tg tg' b.ts c.monitored_tgs (tg, a.ts) a.last b.monitored (ground arith)
          t' b.start in
      let not_sooner : comes_before tg a.ts tg' b.ts ≡ false =
        earliest_of-first h tg' tg a.ts c.monitored_tgs (tg', b.ts) b.last a.monitored apart t
          a.start in
      absurd (ground (arith, not_later, not_sooner))
]
