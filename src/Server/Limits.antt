-- ===== src/Server/Limits.antt =====
-- Reflector.cpp: how many connections wait for their hello, over any sequence of events.
use geu_reflector.Base.{
  ℕ, ◌≡◌, ◌≤◌, refl, false, List, [], ◌∷◌, Bytes, Map, find, assign, erase, length,
  count_keys-assign, count_keys-erase, length-assign, length-erase, leb, ◌==◌, is_empty, get_elem?,
  Bool-cases, Option-cases, inl, inr, ◌⊎◌, arith,
}
use geu_reflector.Trunk.State.{Reflector, Hello}
use geu_reflector.Server.State.{TrunkServer}
use geu_reflector.Server.Pending.{
  ip_pending, trunk_client_connected, trunk_client_disconnected, hang_up, pending_hello, judge,
  Verdict, no_section, wrong_secret, wrong_prefixes, matched, on_verdict, hand_over, reject_pending,
  trunk_pending_frame_received, con_of_timer, trunk_pending_timeout,
}

pub data Event : Type 0 where
  connected : ℕ → ℕ → Event
  disconnected : ℕ → ℕ → Event
  frame : ℕ → Bytes → Event
  timeout : ℕ → Event

module _ (r : Reflector) (remote_host : ℕ → ℕ) where
  abbrev pub serve : Event → TrunkServer → TrunkServer
  serve (connected con timer) s = trunk_client_connected remote_host con timer s
  serve (disconnected now con) s = trunk_client_disconnected r now con s
  serve (frame con bytes) s = trunk_pending_frame_received r con bytes s
  serve (timeout t) s = trunk_pending_timeout t s

  abbrev pub serve_all : List Event → TrunkServer → TrunkServer
  serve_all [] s = s
  serve_all (e ∷ es) s = serve_all es (serve e s)

-- At most five connections wait, and at most two of one address.
pub record IsLimited (remote_host : ℕ → ℕ) (cons : Map ℕ) : Type 0 where
  pub total : length cons ≤ 5
  pub each : (ip : ℕ) → ip_pending remote_host ip cons ≤ 2

erase-IsLimited :
    (host : ℕ → ℕ) (con : ℕ) (m : Map ℕ) → IsLimited host m → IsLimited host (erase con m)
unfolding ip_pending
erase-IsLimited host con m h = record {
  total = omega (arith, length-erase con m, h.total);
  each = λ ip. omega (arith, count_keys-erase (λ c. host c == ip) con m, h.each ip);
}

assign-IsLimited :
    (host : ℕ → ℕ) (con timer : ℕ) (m : Map ℕ)
    → leb 2 (ip_pending host (host con) m) ≡ false
    → leb 5 (length m) ≡ false
    → IsLimited host m
    → IsLimited host (assign con timer m)
unfolding ip_pending
assign-IsLimited host con timer m few room h = record {
  total = ground (arith, length-assign con timer m);
  each = λ ip. elim (Bool-cases (host con == ip)) [
    | inr other ↦ ground (arith, count_keys-assign (λ c. host c == ip) con timer m, h.each ip)
    | inl same ↦
        let ip_same : host con ≡ ip = ground arith in
        rw⁻¹ ip_same (ground (arith, count_keys-assign (λ c. host c == host con) con timer m))
  ];
}

connected-IsLimited :
    (host : ℕ → ℕ) (con timer : ℕ) (s : TrunkServer)
    → IsLimited host s.pending
    → IsLimited host (trunk_client_connected host con timer s).pending
unfolding trunk_client_connected
connected-IsLimited host con timer s h =
    elim (Bool-cases (leb 2 (ip_pending host (host con) s.pending))) [
      | inl many ↦ rw many h
      | inr few ↦ elim (Bool-cases (leb 5 (length s.pending))) [
        | inl full ↦ rw (few, full) h
        | inr room ↦ rw (few, room) (assign-IsLimited host con timer s.pending few room h)
      ]
    ]

-- What a handler leaves of the pending connections: all of them, or all but one.
abbrev Fewer : Map ℕ → Map ℕ → Type 0
Fewer m m' = (m' ≡ m) ⊎ ((con : ℕ) × (m' ≡ erase con m))

Fewer-IsLimited : (host : ℕ → ℕ) (m m' : Map ℕ) → Fewer m m' → IsLimited host m → IsLimited host m'
Fewer-IsLimited host m m' (inl e) h = rw e h
Fewer-IsLimited host m m' (inr (con, e)) h = rw e (erase-IsLimited host con m h)

hang_up-pending :
    (r : Reflector) (now i con : ℕ) (s : TrunkServer) → (hang_up r now i con s).pending ≡ s.pending
unfolding hang_up
hang_up-pending r now i con s = elim (Option-cases (get_elem? s.links i)) [
  | inl e ↦ rw (hang_up, e) refl
  | inr (l, e) ↦ rw (hang_up, e) refl
]

disconnected-Fewer :
    (r : Reflector) (now con : ℕ) (s : TrunkServer)
    → Fewer s.pending (trunk_client_disconnected r now con s).pending
unfolding trunk_client_disconnected
disconnected-Fewer r now con s = elim (Option-cases (find con s.pending)) [
  | inr (timer, e) ↦ rw (trunk_client_disconnected, e) (inr (con, refl))
  | inl e ↦ elim (Option-cases (find con s.inbound_map)) [
    | inl n ↦ rw (trunk_client_disconnected, e, n) (inl refl)
    | inr (i, n) ↦ rw (trunk_client_disconnected, e, n) (inl (hang_up-pending r now i con s))
  ]
]

on_verdict-pending :
    (r : Reflector) (con timer : ℕ) (h : Hello) (v : Verdict) (s : TrunkServer)
    → (on_verdict r con timer h v s).pending ≡ erase con s.pending
unfolding on_verdict reject_pending hand_over
on_verdict-pending r con timer h no_section s = refl
on_verdict-pending r con timer h wrong_secret s = refl
on_verdict-pending r con timer h wrong_prefixes s = refl
on_verdict-pending r con timer h (matched i) s = refl

frame-Fewer :
    (r : Reflector) (con : ℕ) (bytes : Bytes) (s : TrunkServer)
    → Fewer s.pending (trunk_pending_frame_received r con bytes s).pending
unfolding trunk_pending_frame_received reject_pending
frame-Fewer r con bytes s = elim (Option-cases (find con s.pending)) [
  | inl e ↦ rw (trunk_pending_frame_received, e) (inl refl)
  | inr (timer, e) ↦ elim (Option-cases (pending_hello bytes)) [
    | inl n ↦ rw (trunk_pending_frame_received, e, n) (inr (con, refl))
    | inr (h, n) ↦ elim (Bool-cases (is_empty h.id)) [
      | inl x ↦ rw (trunk_pending_frame_received, e, n, x) (inr (con, refl))
      | inr x ↦
          rw (trunk_pending_frame_received, e, n, x)
            (inr (con, on_verdict-pending r con timer h (judge r h s.links 0) s))
    ]
  ]
]

timeout-Fewer : (t : ℕ) (s : TrunkServer) → Fewer s.pending (trunk_pending_timeout t s).pending
unfolding trunk_pending_timeout reject_pending
timeout-Fewer t s = elim (Option-cases (con_of_timer t s.pending)) [
  | inl e ↦ rw (trunk_pending_timeout, e) (inl refl)
  | inr (con, e) ↦ rw (trunk_pending_timeout, e) (inr (con, refl))
]

serve-IsLimited :
    (r : Reflector) (host : ℕ → ℕ) (e : Event) (s : TrunkServer)
    → IsLimited host s.pending
    → IsLimited host (serve r host e s).pending
serve-IsLimited r host (connected con timer) s h = connected-IsLimited host con timer s h
serve-IsLimited r host (disconnected now con) s h =
    Fewer-IsLimited host s.pending _ (disconnected-Fewer r now con s) h
serve-IsLimited r host (frame con bytes) s h =
    Fewer-IsLimited host s.pending _ (frame-Fewer r con bytes s) h
serve-IsLimited r host (timeout t) s h = Fewer-IsLimited host s.pending _ (timeout-Fewer t s) h

-- Over any sequence of connections, frames, disconnections and timeouts, at most five connections
-- wait for their hello, and at most two from one address, where that holds at the start.
pub serve_all-IsLimited :
    (r : Reflector) (host : ℕ → ℕ) (es : List Event) (s : TrunkServer)
    → IsLimited host s.pending
    → IsLimited host (serve_all r host es s).pending
serve_all-IsLimited r host [] s h = h
serve_all-IsLimited r host (e ∷ es) s h =
    serve_all-IsLimited r host es (serve r host e s) (serve-IsLimited r host e s h)
