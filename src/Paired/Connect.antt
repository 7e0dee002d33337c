-- ===== src/Paired/Connect.antt =====
-- TrunkLink.cpp: connections to and from the hosts of the peer that come up and go down. The list
-- of the partner's nodes, which is only shown, is left out.
use geu_reflector.Base.{
  ℕ, zero, suc, ◌+◌, ◌-◌, ◌%◌, true, false, List, [], ◌∷◌, ◌++◌, Option, none, some, ◌==◌,
  if◌then◌else◌, length, is_empty, get_elem?, update_at,
}
use geu_reflector.Trunk.Ident.{sanitize_ident}
use geu_reflector.Trunk.State.{
  Reflector, Hello, heartbeat_tx_cnt_reset, heartbeat_rx_cnt_reset, interest_update,
}
use geu_reflector.Trunk.Send.{own_hello}
use geu_reflector.Paired.State.{
  PairedLink, PairedInboundState, emit_paired, send_msg_on_paired_outbound,
  send_msg_on_paired_inbound,
}

unfoldable pub paired_inbound_index : ℕ → ℕ → List PairedInboundState → Option ℕ
paired_inbound_index con i [] = none
paired_inbound_index con i (c ∷ cs) =
    let rest = paired_inbound_index con (suc i) cs in if c.con == con then some i else rest

unfoldable pub remove_at : {A : Type 0} → ℕ → List A → List A
remove_at i [] = []
remove_at zero (x ∷ xs) = xs
remove_at (suc i) (x ∷ xs) = x ∷ remove_at i xs

-- `m_peer_priority` and, the first time, `m_peer_id_received`
abbrev pub learn : Hello → PairedLink → PairedLink
learn h p = record p {
  shared = record p.shared {
    peer_priority = h.priority;
    peer_id_received =
        if is_empty p.shared.peer_id_received
        then sanitize_ident h.id 64
        else p.shared.peer_id_received;
  };
}

unfoldable pub accept_paired_inbound : Reflector → ℕ → Hello → PairedLink → PairedLink
accept_paired_inbound r con h p =
    let st : PairedInboundState = record {
      con = con;
      is_connected = true;
      hello_received = true;
      hb_tx_cnt = heartbeat_tx_cnt_reset;
      hb_rx_cnt = heartbeat_rx_cnt_reset;
    } in
    let p' = learn h (record p { ib = p.ib ++ st ∷ [] }) in
    let p'' = record p' { shared = record p'.shared { heartbeat_timer = true } } in
    let sent = send_msg_on_paired_inbound (length p''.ib - 1) (own_hello r p''.shared) p'' in
    emit_paired interest_update
      (record sent { shared = record sent.shared { tg_interest_timer = true } })

unfoldable pub on_paired_inbound_disconnected : ℕ → PairedLink → PairedLink
on_paired_inbound_disconnected con p = elim (paired_inbound_index con 0 p.ib) [
  | none ↦ p
  | some idx ↦ record p { ib = remove_at idx p.ib }
]

unfoldable pub on_paired_outbound_connected : Reflector → ℕ → PairedLink → PairedLink
on_paired_outbound_connected r idx p = elim (get_elem? p.ob idx) [
  | none ↦ p
  | some c ↦
      let p' = record p {
        ob =
            update_at idx
              (λ c'. record c' {
                is_connected = true;
                hello_received = false;
                hb_tx_cnt = heartbeat_tx_cnt_reset;
                hb_rx_cnt = heartbeat_rx_cnt_reset;
              })
              p.ob;
        shared = record p.shared { heartbeat_timer = true };
      } in
      send_msg_on_paired_outbound idx (own_hello r p'.shared) p'
]

unfoldable pub on_paired_outbound_disconnected : ℕ → PairedLink → PairedLink
on_paired_outbound_disconnected idx p = elim (get_elem? p.ob idx) [
  | none ↦ p
  | some c ↦ record p {
    ob =
        update_at idx
          (λ c'. record c' {
            is_connected = false;
            hello_received = false;
            hb_tx_cnt = 0;
            hb_rx_cnt = 0;
          })
          p.ob;
    sticky = if p.sticky == idx then (idx + 1) % length p.ob else p.sticky;
  }
]
