-- ===== src/Paired/State.antt =====
-- TrunkLink.{h,cpp}: the connections of a link with several hosts, and sending over them.
-- `shared` has the members that do not depend on a host; its own connections are not used. An
-- outbound client is its place in `m_ob_cons`, an inbound connection the number for its pointer.
use geu_reflector.Base.{
  ℕ, zero, suc, ◌+◌, ◌%◌, Bool, false, not, ◌&&◌, ◌||◌, List, [], ◌∷◌, Option, none, some,
  if◌then◌else◌, length, get_elem?, update_at,
}
use geu_reflector.TgHandler.State.{TgHandler}
use geu_reflector.Trunk.State.{
  Link, Msg, Effect, do_effect, paired_written, outbound, inbound, heartbeat_tx_cnt_reset,
}
use geu_reflector.Wire.Peers.{packs}

-- An element of `m_ob_states` with the client at the same place of `m_ob_cons`.
pub record PairedClientState : Type 0 where
  pub is_connected : Bool
  pub hello_received : Bool
  pub hb_tx_cnt : ℕ
  pub hb_rx_cnt : ℕ

-- An element of `m_ib_states` with the connection at the same place of `m_ib_cons`.
pub record PairedInboundState : Type 0 where
  pub con : ℕ
  pub is_connected : Bool
  pub hello_received : Bool
  pub hb_tx_cnt : ℕ
  pub hb_rx_cnt : ℕ

pub record PairedLink : Type 0 where
  pub shared : Link
  pub ob : List PairedClientState
  pub ib : List PairedInboundState
  pub sticky : ℕ

pub record PairedWorld : Type 0 where
  pub link : PairedLink
  pub tgs : TgHandler

abbrev pub emit_paired : Effect → PairedLink → PairedLink
emit_paired e p = record p { shared = do_effect e p.shared }

abbrev pub is_live : PairedClientState → Bool
is_live c = c.is_connected && c.hello_received

unfoldable pub any_live_host : List PairedClientState → Bool
any_live_host [] = false
any_live_host (c ∷ cs) = is_live c || any_live_host cs

unfoldable pub any_greeted : List PairedInboundState → Bool
any_greeted [] = false
any_greeted (c ∷ cs) = c.hello_received || any_greeted cs

unfoldable pub paired_outbound_ready : PairedLink → Bool
paired_outbound_ready p = any_live_host p.ob

unfoldable pub paired_inbound_ready : PairedLink → Bool
paired_inbound_ready p = any_greeted p.ib

unfoldable pub paired_active : PairedLink → Bool
paired_active p = paired_outbound_ready p || paired_inbound_ready p

unfoldable pub send_msg_on_paired_outbound : ℕ → Msg → PairedLink → PairedLink
send_msg_on_paired_outbound idx m p = elim (get_elem? p.ob idx) [
  | none ↦ p
  | some c ↦
      if not c.is_connected
      then p
      else if not (packs m)
      then p
      else emit_paired (paired_written outbound idx m) (record p {
        ob = update_at idx (λ c'. record c' { hb_tx_cnt = heartbeat_tx_cnt_reset }) p.ob;
      })
]

unfoldable pub send_msg_on_paired_inbound : ℕ → Msg → PairedLink → PairedLink
send_msg_on_paired_inbound idx m p = elim (get_elem? p.ib idx) [
  | none ↦ p
  | some c ↦
      if not c.is_connected
      then p
      else if not (packs m)
      then p
      else emit_paired (paired_written inbound c.con m) (record p {
        ib = update_at idx (λ c'. record c' { hb_tx_cnt = heartbeat_tx_cnt_reset }) p.ib;
      })
]

abbrev pub is_live_at : ℕ → List PairedClientState → Bool
is_live_at idx cs = elim (get_elem? cs idx) [ none ↦ false | some c ↦ is_live c ]

-- The loop over `tries`, with so many rounds left: the place that is live first.
unfoldable pub next_live : ℕ → ℕ → ℕ → List PairedClientState → Option ℕ
next_live zero tries sticky cs = none
next_live (suc left) tries sticky cs =
    let rest = next_live left (suc tries) sticky cs in
    let idx = (sticky + tries) % length cs in if is_live_at idx cs then some idx else rest

-- The loop over the inbound connections.
unfoldable pub first_inbound : ℕ → List PairedInboundState → Option ℕ
first_inbound i [] = none
first_inbound i (c ∷ cs) =
    let rest = first_inbound (suc i) cs in
    if c.is_connected && c.hello_received then some i else rest

unfoldable pub fall_back : Msg → PairedLink → PairedLink
fall_back m p = elim (first_inbound 0 p.ib) [ none ↦ p | some i ↦ send_msg_on_paired_inbound i m p ]

unfoldable pub send_msg_paired : Msg → PairedLink → PairedLink
send_msg_paired m p = elim (next_live (length p.ob) 0 p.sticky p.ob) [
  | some idx ↦ send_msg_on_paired_outbound idx m (record p { sticky = idx })
  | none ↦ fall_back m p
]
