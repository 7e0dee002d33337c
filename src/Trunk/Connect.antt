-- ===== src/Trunk/Connect.antt =====
-- TrunkLink.cpp: connections that come up and go down, with the peer's talkers and interest.
use geu_reflector.Base.{ℕ, true, false, not, List, [], ◌∷◌, none, some, if◌then◌else◌, is_some}
use geu_reflector.TgHandler.TrunkTalkers.{clear_trunk_talker_for_tg}
use geu_reflector.Trunk.Ident.{sanitize_ident}
use geu_reflector.Trunk.State.{
  Link, World, Reflector, Hello, heartbeat_tx_cnt_reset, heartbeat_rx_cnt_reset, do_effect, inbound,
  outbound, state_changed, external_stop, interest_update, rejected, alias_to_local, is_inbound_con,
}
use geu_reflector.Trunk.Send.{send_msg_on_outbound, send_msg_on_inbound, own_hello}

unfoldable pub accept_inbound_connection : Reflector → ℕ → Hello → Link → Link
accept_inbound_connection r con h l =
    if is_some l.inbound_con
    then do_effect (rejected con) l
    else let l' = record l {
      inbound_con = some con;
      inbound_connected = true;
      peer_priority = h.priority;
      ib_hello_received = true;
      ib_hb_tx_cnt = heartbeat_tx_cnt_reset;
      ib_hb_rx_cnt = heartbeat_rx_cnt_reset;
      heartbeat_timer = true;
      yielded_tgs = [];
      peer_id_received = sanitize_ident h.id 64;
    } in
      let sent = send_msg_on_inbound (own_hello r l') (do_effect (state_changed inbound true) l') in
      do_effect interest_update (record sent { tg_interest_timer = true })

-- The loop over `m_peer_active_tgs`.
unfoldable pub clear_active : Reflector → ℕ → List ℕ → World → World
clear_active r now [] w = w
clear_active r now (tg ∷ tgs) w =
    let deliver_tg = alias_to_local r tg in
    clear_active r now tgs (record {
      link = do_effect (external_stop deliver_tg) w.link;
      tgs = clear_trunk_talker_for_tg now deliver_tg w.tgs;
    })

unfoldable pub clear_peer_talker_state : Reflector → ℕ → World → World
clear_peer_talker_state r now w =
    let w' = clear_active r now w.link.peer_active_tgs w in
    record w' {
      link = record w'.link {
        peer_active_tgs = [];
        yielded_tgs = [];
        peer_interested_tgs = [];
        last_sent_tg_interest = [];
        tg_interest_timer = false;
        tg_interest_debounce = false;
      };
    }

-- Without the list of the partner's nodes, which is only shown.
unfoldable pub on_inbound_disconnected : Reflector → ℕ → ℕ → World → World
on_inbound_disconnected r now con w =
    if not (is_inbound_con w.link con)
    then w
    else let w' = clear_peer_talker_state r now (record w {
      link = record w.link {
        inbound_con = none;
        ib_hello_received = false;
        ib_hb_tx_cnt = 0;
        ib_hb_rx_cnt = 0;
      };
    }) in
      record w' {
        link = do_effect (state_changed inbound false) (record w'.link {
          heartbeat_timer = if not w'.link.con_connected then false else w'.link.heartbeat_timer;
        });
      }

unfoldable pub on_connected : Reflector → Link → Link
on_connected r l =
    let l' = record (do_effect (state_changed outbound true) l) {
      con_connected = true;
      ob_hello_received = false;
      ob_hb_tx_cnt = heartbeat_tx_cnt_reset;
      ob_hb_rx_cnt = heartbeat_rx_cnt_reset;
      heartbeat_timer = true;
    } in
    send_msg_on_outbound (own_hello r l') l'

unfoldable pub on_disconnected : Link → Link
on_disconnected l = do_effect (state_changed outbound false) (record l {
  con_connected = false;
  ob_hello_received = false;
  ob_hb_tx_cnt = 0;
  ob_hb_rx_cnt = 0;
  heartbeat_timer = if is_some l.inbound_con then l.heartbeat_timer else false;
})
