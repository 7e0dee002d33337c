-- ===== src/Fanout/Debounce.antt =====
-- Reflector.cpp, emitRxDebounced: the levels of a client's receivers are passed on once in a while.
-- Times are those of the steady clock, in nanoseconds; a value is what goes to fanoutClientRx.
use geu_reflector.Base.{
  ℕ, ◌+◌, ◌-◌, ◌*◌, ◌/◌, List, [], ◌∷◌, Option, none, some, Bytes, leb, if◌then◌else◌, is_some,
}

-- PEER_RX_DEBOUNCE_MS
abbrev pub peer_rx_debounce_ms : ℕ
peer_rx_debounce_ms = 500

abbrev pub ns_per_ms : ℕ
ns_per_ms = 1000000

-- The entry of one callsign in m_rx_debounce: `pending` has the time at which the timer is due, and
-- `emitted` what was passed on, the newest first.
pub record RxDebounce : Type 0 where
  pub last_emit : ℕ
  pub pending : Option ℕ
  pub pending_value : Bytes
  pub emitted : List (ℕ × Bytes)

unfoldable pub new_rx_debounce : RxDebounce
new_rx_debounce = record { last_emit = 0; pending = none; pending_value = []; emitted = [] }

abbrev pub since_ms : ℕ → RxDebounce → ℕ
since_ms now e = (now - e.last_emit) / ns_per_ms

abbrev pub due_time : ℕ → RxDebounce → ℕ
due_time now e = now + (peer_rx_debounce_ms - since_ms now e) * ns_per_ms

unfoldable pub emit_rx_debounced : ℕ → Bytes → RxDebounce → RxDebounce
emit_rx_debounced now v e =
    if leb peer_rx_debounce_ms (since_ms now e)
    then record {
      last_emit = now;
      pending = none;
      pending_value = e.pending_value;
      emitted = (now, v) ∷ e.emitted;
    }
    else record e {
      pending_value = v;
      pending = if is_some e.pending then e.pending else some (due_time now e);
    }

-- The handler of the timer. The value that it moves out is not read again before it is set.
unfoldable pub rx_debounce_expired : ℕ → RxDebounce → RxDebounce
rx_debounce_expired now e =
    if is_some e.pending
    then emit_rx_debounced now e.pending_value (record e { pending = none })
    else e
