-- ===== src/Trunk/Send.antt =====
-- TrunkLink.cpp: sending a message. A message that does not pack is not written.
use geu_reflector.Base.{not, ◌&&◌, if◌then◌else◌, is_some}
use geu_reflector.Wire.Peers.{packs}
use geu_reflector.Trunk.Prefixes.{join_prefixes}
use geu_reflector.Trunk.State.{
  Link, Reflector, Msg, hello, written, inbound, outbound, do_effect, heartbeat_tx_cnt_reset,
  is_outbound_ready, is_inbound_ready, make_hello, role_peer,
}

unfoldable pub send_msg_on_outbound : Msg → Link → Link
send_msg_on_outbound m l =
    if not l.con_connected
    then l
    else if not (packs m)
    then l
    else do_effect (written outbound m) (record l { ob_hb_tx_cnt = heartbeat_tx_cnt_reset })

unfoldable pub send_msg_on_inbound : Msg → Link → Link
send_msg_on_inbound m l =
    if is_some l.inbound_con && l.inbound_connected
    then if not (packs m)
      then l
      else do_effect (written inbound m) (record l { ib_hb_tx_cnt = heartbeat_tx_cnt_reset })
    else l

unfoldable pub send_msg : Msg → Link → Link
send_msg m l =
    if is_outbound_ready l
    then send_msg_on_outbound m l
    else if is_inbound_ready l
    then send_msg_on_inbound m l
    else l

-- The hello that a link sends of itself.
unfoldable pub own_hello : Reflector → Link → Msg
own_hello r l = hello (
    make_hello r l.peer_id_config (join_prefixes l.routes.local_prefix) l.priority l.secret
      role_peer)
