-- ===== src/Server/Pending.antt =====
-- Reflector.cpp: connections that wait for their hello, and their hand-over.
use geu_reflector.Base.{
  update_at, ℕ, suc, not, List, [], ◌∷◌, Option, none, some, Bytes, bytes_eq, Map, find, assign,
  erase, count_keys, leb, ◌==◌, if◌then◌else◌, is_empty, length, get_elem?,
}
use geu_reflector.Trunk.State.{Link, Reflector, Hello, verify}
use geu_reflector.Trunk.Prefixes.{split_prefixes}
use geu_reflector.Trunk.Connect.{accept_inbound_connection, on_inbound_disconnected}
use geu_reflector.Wire.Numbers.{u16}
use geu_reflector.Wire.Peers.{hello_codec}
use geu_reflector.Server.State.{
  TrunkServer, call, disconnect, set_max_frame_size, connect_frame_received, clear_frame_received,
  start_timer, delete_timer, trunk_max_pending_cons, max_pending_from_host,
  max_ssl_setup_frame_size, max_postauth_frame_size,
}
use geu_reflector.Server.Prefixes.{same_prefixes}

-- `remoteHost()` of a connection.
module _ (remote_host : ℕ → ℕ) where
  -- The loop that counts the pending connections of one address.
  unfoldable pub ip_pending : ℕ → Map ℕ → ℕ
  ip_pending ip cons = count_keys (λ con. remote_host con == ip) cons

  -- `timer` is the timer that is made for the connection.
  unfoldable pub trunk_client_connected : ℕ → ℕ → TrunkServer → TrunkServer
  trunk_client_connected con timer s =
      if leb max_pending_from_host (ip_pending (remote_host con) s.pending)
      then call (disconnect con) s
      else if leb trunk_max_pending_cons (length s.pending)
      then call (disconnect con) s
      else call (connect_frame_received con) (
          call (set_max_frame_size con max_ssl_setup_frame_size)
            (record (call (start_timer timer) s) { pending = assign con timer s.pending }))

unfoldable pub forget_inbound_trunk_connection : ℕ → TrunkServer → TrunkServer
forget_inbound_trunk_connection con s = record s { inbound_map = erase con s.inbound_map }

-- `tit->second->onInboundDisconnected(con, reason)` for the link at a place.
unfoldable pub hang_up : Reflector → ℕ → ℕ → ℕ → TrunkServer → TrunkServer
hang_up r now i con s = elim (get_elem? s.links i) [
  | none ↦ s
  | some l ↦
      let w = on_inbound_disconnected r now con (record { link = l; tgs = s.tgs }) in
      record s { links = update_at i (λ l'. w.link) s.links; tgs = w.tgs }
]

unfoldable pub trunk_client_disconnected : Reflector → ℕ → ℕ → TrunkServer → TrunkServer
trunk_client_disconnected r now con s = elim (find con s.pending) [
  | some timer ↦ record (call (delete_timer timer) s) { pending = erase con s.pending }
  | none ↦ elim (find con s.inbound_map) [
    | none ↦ s
    | some i ↦
        let s' = hang_up r now i con s in record s' { inbound_map = erase con s'.inbound_map }
  ]
]

-- What is read from the first frame: nothing where the header or the body does not unpack, or
-- where the type is not that of a hello.
unfoldable pub pending_hello : Bytes → Option Hello
pending_hello bytes = elim (u16.unpack bytes) [
  | none ↦ none
  | some (t, body) ↦
      if not (t == 115)
      then none
      else elim (hello_codec.unpack body) [ none ↦ none | some (h, rest) ↦ some h ]
]

-- The outcome of the loop over the links.
pub data Verdict : Type 0 where
  no_section : Verdict
  wrong_secret : Verdict
  wrong_prefixes : Verdict
  matched : ℕ → Verdict

unfoldable pub judge : Reflector → Hello → List Link → ℕ → Verdict
judge r h [] i = no_section
judge r h (l ∷ ls) i =
    let rest = judge r h ls (suc i) in
    if not (bytes_eq h.id l.section)
    then rest
    else if not (verify r h l.secret)
    then wrong_secret
    else if same_prefixes l.routes.remote_prefix (split_prefixes h.local_prefix)
    then matched i
    else wrong_prefixes

-- `rejectPending()`, for a connection with this timer.
unfoldable pub reject_pending : ℕ → ℕ → TrunkServer → TrunkServer
reject_pending con timer s =
    call (disconnect con) (record (call (delete_timer timer) s) { pending = erase con s.pending })

-- The connection becomes the link's.
unfoldable pub hand_over : Reflector → ℕ → ℕ → Hello → ℕ → TrunkServer → TrunkServer
hand_over r con timer h i s =
    let s' = call (set_max_frame_size con max_postauth_frame_size) (
      call (clear_frame_received con)
        (record (call (delete_timer timer) s) { pending = erase con s.pending })) in
    record s' {
      inbound_map = assign con i s'.inbound_map;
      links = update_at i (accept_inbound_connection r con h) s'.links;
    }

unfoldable pub on_verdict : Reflector → ℕ → ℕ → Hello → Verdict → TrunkServer → TrunkServer
on_verdict r con timer h no_section s = reject_pending con timer s
on_verdict r con timer h wrong_secret s = reject_pending con timer s
on_verdict r con timer h wrong_prefixes s = reject_pending con timer s
on_verdict r con timer h (matched i) s = hand_over r con timer h i s

unfoldable pub trunk_pending_frame_received : Reflector → ℕ → Bytes → TrunkServer → TrunkServer
trunk_pending_frame_received r con bytes s = elim (find con s.pending) [
  | none ↦ s
  | some timer ↦ elim (pending_hello bytes) [
    | none ↦ reject_pending con timer s
    | some h ↦
        if is_empty h.id
        then reject_pending con timer s
        else on_verdict r con timer h (judge r h s.links 0) s
  ]
]

-- The first pending connection that a timer belongs to.
unfoldable pub con_of_timer : ℕ → Map ℕ → Option ℕ
con_of_timer t [] = none
con_of_timer t ((con, timer) ∷ cons) =
    let rest = con_of_timer t cons in if timer == t then some con else rest

unfoldable pub trunk_pending_timeout : ℕ → TrunkServer → TrunkServer
trunk_pending_timeout t s = elim (con_of_timer t s.pending) [
  | none ↦ s
  | some con ↦ reject_pending con t s
]
