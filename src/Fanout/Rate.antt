-- ===== src/Fanout/Rate.antt =====
-- Reflector.cpp, emitRxDebounced: how often the levels are passed on, and that the latest ones are.
use geu_reflector.Base.{
  ℕ, ◌+◌, ◌-◌, ◌*◌, ◌/◌, ◌≤◌, ◌≡◌, refl, true, false, List, [], ◌∷◌, Option, none, some, Bytes, leb,
  if◌then◌else◌, is_some, value_or, Bool-cases, Option-cases, inl, inr, arith,
}
use geu_reflector.Fanout.Debounce.{
  RxDebounce, peer_rx_debounce_ms, ns_per_ms, since_ms, emit_rx_debounced, rx_debounce_expired,
}

-- What happens to an entry, and when.
pub data RxEvent : Type 0 where
  rx_changed : ℕ → Bytes → RxEvent
  timer_fired : ℕ → RxEvent

abbrev pub time_of : RxEvent → ℕ
time_of (rx_changed now v) = now
time_of (timer_fired now) = now

abbrev rx_event : RxEvent → RxDebounce → RxDebounce
rx_event (rx_changed now v) e = emit_rx_debounced now v e
rx_event (timer_fired now) e = rx_debounce_expired now e

unfoldable pub rx_events : List RxEvent → RxDebounce → RxDebounce
rx_events [] e = e
rx_events (x ∷ xs) e = rx_events xs (rx_event x e)

-- The times of the events, from some time to another one, in order.
abbrev pub IsChronological : ℕ → List RxEvent → ℕ → Type 0
IsChronological from [] to = from ≤ to
IsChronological from (x ∷ xs) to = (from ≤ time_of x) × IsChronological (time_of x) xs to

-- What is passed on last.
abbrev pub latest : List (ℕ × Bytes) → Option Bytes
latest [] = none
latest ((t, v) ∷ es) = some v

-- The timer is due when a value may be passed on.
abbrev pub IsDue : RxDebounce → Type 0
IsDue e =
    e.last_emit + peer_rx_debounce_ms * ns_per_ms
    ≤ value_or e.pending (e.last_emit + peer_rx_debounce_ms * ns_per_ms)

-- The latest value is on its way: it was passed on, or it waits for a timer that is due when it may
-- be passed on.
pub record IsOnItsWay (now : ℕ) (v : Bytes) (e : RxDebounce) : Type 0 where
  pub sent_or_waits :
      (if is_some e.pending then some e.pending_value else latest e.emitted) ≡ some v
  pub due : IsDue e
  pub emitted_by : e.last_emit ≤ now

due_late :
    (now last : ℕ)
    → last ≤ now
    → leb peer_rx_debounce_ms ((now - last) / ns_per_ms) ≡ false
    → last + peer_rx_debounce_ms * ns_per_ms
      ≤ now + (peer_rx_debounce_ms - (now - last) / ns_per_ms) * ns_per_ms
due_late now last h b = ground arith

emit-IsOnItsWay :
    (now : ℕ) (v : Bytes) (e : RxDebounce)
    → e.last_emit ≤ now
    → IsDue e
    → IsOnItsWay now v (emit_rx_debounced now v e)
unfolding emit_rx_debounced
emit-IsOnItsWay now v e h d = elim (Bool-cases (leb peer_rx_debounce_ms (since_ms now e))) [
  | inl b ↦ rw b (record { sent_or_waits = refl; due = omega arith; emitted_by = omega arith })
  | inr b ↦ elim (Option-cases e.pending) [
    | inl p ↦
        rw (b, p)
          (record { sent_or_waits = refl; due = due_late now e.last_emit h b; emitted_by = h })
    | inr (t, p) ↦ rw (b, p) (record { sent_or_waits = refl; due = rw p at d; emitted_by = h })
  ]
]

earlier :
    (xs : List RxEvent) (to from from' : ℕ)
    → from' ≤ from
    → IsChronological from xs to
    → IsChronological from' xs to
earlier [] to from from' h c = omega arith
earlier (x ∷ xs) to from from' h (c, cs) = (omega arith, cs)

-- An event leaves the timer due, and the last emission before its time.
event-IsDue :
    (x : RxEvent) (e : RxDebounce)
    → e.last_emit ≤ time_of x
    → IsDue e
    → IsDue (rx_event x e) × ((rx_event x e).last_emit ≤ time_of x)
unfolding rx_debounce_expired
event-IsDue (rx_changed now v) e h d = let w = emit-IsOnItsWay now v e h d in (w.due, w.emitted_by)
event-IsDue (timer_fired now) e h d = elim (Bool-cases (is_some e.pending)) [
  | inl b ↦
      let w = emit-IsOnItsWay now e.pending_value (record e { pending = none }) h (omega arith) in
      rw b (w.due, w.emitted_by)
  | inr b ↦ rw b (d, h)
]

events-IsDue :
    (xs : List RxEvent) (to : ℕ) (e : RxDebounce)
    → IsChronological e.last_emit xs to
    → IsDue e
    → IsDue (rx_events xs e) × ((rx_events xs e).last_emit ≤ to)
unfolding rx_events
events-IsDue [] to e c d = (d, c)
events-IsDue (x ∷ xs) to e (c, cs) d =
    let (d', h) = event-IsDue x e c d in
    events-IsDue xs to (rx_event x e) (earlier xs to (time_of x) (rx_event x e).last_emit h cs) d'

late_enough :
    (t last due : ℕ)
    → last + peer_rx_debounce_ms * ns_per_ms ≤ due
    → due ≤ t
    → leb peer_rx_debounce_ms ((t - last) / ns_per_ms) ≡ true
late_enough t last due a b = ground arith

expired-latest :
    (t now : ℕ) (v : Bytes) (e : RxDebounce)
    → IsOnItsWay now v e
    → value_or e.pending t ≤ t
    → latest (rx_debounce_expired t e).emitted ≡ some v
unfolding rx_debounce_expired emit_rx_debounced
expired-latest t now v e w h = elim (Option-cases e.pending) [
  | inl p ↦ rw p (rw p at w.sent_or_waits)
  | inr (due, p) ↦
      let late : leb peer_rx_debounce_ms ((t - e.last_emit) / ns_per_ms) ≡ true =
        late_enough t e.last_emit due (rw p at w.due) (rw p at h) in
      rw (p, late) (rw p at w.sent_or_waits)
]

-- After any changes and expirations in the order of their times, from an entry whose timer is due
-- when a value may be passed on: a further change is passed on at once, or it is when the timer that
-- is then there fires, at its time or later.
pub rx_events-latest :
    (xs : List RxEvent) (now t : ℕ) (v : Bytes) (e : RxDebounce)
    → IsChronological e.last_emit xs now
    → IsDue e
    → value_or (emit_rx_debounced now v (rx_events xs e)).pending t ≤ t
    → latest (rx_debounce_expired t (emit_rx_debounced now v (rx_events xs e))).emitted ≡ some v
rx_events-latest xs now t v e c d h =
    let (d', early) = events-IsDue xs now e c d in
    expired-latest t now v (emit_rx_debounced now v (rx_events xs e))
      (emit-IsOnItsWay now v (rx_events xs e) early d') h

-- The times are as far apart as the debounce has it, up to a bound.
abbrev pub IsSpaced : ℕ → List (ℕ × Bytes) → Type 0
IsSpaced bound [] = Unit
IsSpaced bound ((t, v) ∷ es) = (t + peer_rx_debounce_ms * ns_per_ms ≤ bound) × IsSpaced t es

abbrev IsPacedFrom : ℕ → List (ℕ × Bytes) → Type 0
IsPacedFrom last [] = Unit
IsPacedFrom last ((t, v) ∷ es) = (t ≡ last) × IsSpaced t es

-- The newest emission is the one that the entry knows of, and the others are apart.
abbrev pub IsPaced : RxDebounce → Type 0
IsPaced e = IsPacedFrom e.last_emit e.emitted

apart :
    (now last t : ℕ)
    → leb peer_rx_debounce_ms ((now - last) / ns_per_ms) ≡ true
    → t ≡ last
    → t + peer_rx_debounce_ms * ns_per_ms ≤ now
apart now last t b a = ground arith

IsSpaced-next :
    (now last : ℕ) (es : List (ℕ × Bytes))
    → leb peer_rx_debounce_ms ((now - last) / ns_per_ms) ≡ true
    → IsPacedFrom last es
    → IsSpaced now es
IsSpaced-next now last [] b h = tt
IsSpaced-next now last ((t, v) ∷ es) b (a, h) = (apart now last t b a, h)

emit-IsPaced :
    (now : ℕ) (v : Bytes) (e : RxDebounce) → IsPaced e → IsPaced (emit_rx_debounced now v e)
unfolding emit_rx_debounced
emit-IsPaced now v e h = elim (Bool-cases (leb peer_rx_debounce_ms (since_ms now e))) [
  | inl b ↦ rw b (refl, IsSpaced-next now e.last_emit e.emitted b h)
  | inr b ↦ rw b h
]

event-IsPaced : (x : RxEvent) (e : RxDebounce) → IsPaced e → IsPaced (rx_event x e)
unfolding rx_debounce_expired
event-IsPaced (rx_changed now v) e h = emit-IsPaced now v e h
event-IsPaced (timer_fired now) e h = elim (Bool-cases (is_some e.pending)) [
  | inl b ↦ rw b (emit-IsPaced now e.pending_value (record e { pending = none }) h)
  | inr b ↦ rw b h
]

-- Whatever changes and expirations come, at whatever times: what is passed on of one client is at
-- least 500 milliseconds apart.
pub rx_events-IsPaced : (xs : List RxEvent) (e : RxDebounce) → IsPaced e → IsPaced (rx_events xs e)
unfolding rx_events
rx_events-IsPaced [] e h = h
rx_events-IsPaced (x ∷ xs) e h = rx_events-IsPaced xs (rx_event x e) (event-IsPaced x e h)
