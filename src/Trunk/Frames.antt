-- ===== src/Trunk/Frames.antt =====
-- TrunkLink.cpp: the dispatch of a received frame.
-- A frame is what its header and then its body unpack to; `odd_frame` is one of a type that a link
-- does not handle, and the node list, which Nodes has, is one of them here.
use geu_reflector.Base.{ℕ, Bool, true, false, not, ◌&&◌, List, [], ◌∷◌, if◌then◌else◌}
use geu_reflector.TgHandler.State.{seconds}
use geu_reflector.Trunk.State.{
  Link, World, Reflector, Msg, heartbeat, hello, talker_start, talker_stop, audio, flush,
  tg_interest, heartbeat_rx_cnt_reset, is_inbound_con,
}
use geu_reflector.Trunk.Peer.{
  handle_msg_peer_hello, handle_msg_peer_talker_start, handle_msg_peer_talker_stop,
  handle_msg_peer_audio, handle_msg_peer_flush,
}
use geu_reflector.Trunk.Interest.{handle_msg_peer_tg_interest}

pub data Frame : Type 0 where
  bad_header : Frame
  bad_body : Bool → Frame
  odd_frame : Frame
  message : Msg → Frame

-- Is the type of the message one of the two that are allowed before the hello? A body that does not
-- unpack says it by its flag.
unfoldable pub may_come_first : Frame → Bool
may_come_first bad_header = false
may_come_first (bad_body early) = early
may_come_first odd_frame = false
may_come_first (message heartbeat) = true
may_come_first (message (hello h)) = true
may_come_first (message (talker_start tg c)) = false
may_come_first (message (talker_stop tg)) = false
may_come_first (message (audio tg samples)) = false
may_come_first (message (flush tg)) = false
may_come_first (message (tg_interest id tgs)) = false

unfoldable pub dispatch : Reflector → ℕ → Bool → Frame → World → World
dispatch r now is_inbound bad_header w = w
dispatch r now is_inbound (bad_body early) w = w
dispatch r now is_inbound odd_frame w = w
dispatch r now is_inbound (message heartbeat) w = w
dispatch r now is_inbound (message (hello h)) w = record w {
  link = handle_msg_peer_hello r is_inbound h w.link;
}
dispatch r now is_inbound (message (talker_start tg c)) w =
    handle_msg_peer_talker_start r now tg c w
dispatch r now is_inbound (message (talker_stop tg)) w = handle_msg_peer_talker_stop r now tg w
dispatch r now is_inbound (message (audio tg samples)) w = handle_msg_peer_audio r now tg samples w
dispatch r now is_inbound (message (flush tg)) w = handle_msg_peer_flush r tg w
dispatch r now is_inbound (message (tg_interest id tgs)) w = record w {
  link = handle_msg_peer_tg_interest (seconds now) tgs w.link;
}

abbrev pub hello_done : Bool → Link → Bool
hello_done is_inbound l = if is_inbound then l.ib_hello_received else l.ob_hello_received

abbrev pub reset_rx : Bool → Link → Link
reset_rx is_inbound l =
    if is_inbound
    then record l { ib_hb_rx_cnt = heartbeat_rx_cnt_reset }
    else record l { ob_hb_rx_cnt = heartbeat_rx_cnt_reset }

unfoldable pub is_bad_header : Frame → Bool
is_bad_header bad_header = true
is_bad_header (bad_body early) = false
is_bad_header odd_frame = false
is_bad_header (message m) = false

unfoldable pub on_frame_received : Reflector → ℕ → ℕ → Frame → World → World
on_frame_received r now con f w =
    let is_inbound = is_inbound_con w.link con in
    if is_bad_header f
    then w
    else if not (hello_done is_inbound w.link) && not (may_come_first f)
    then w
    else dispatch r now is_inbound f (record w { link = reset_rx is_inbound w.link })

-- The frames of some connections, each with the time at which it comes.
unfoldable pub receive_all : Reflector → List (ℕ × ℕ × Frame) → World → World
receive_all r [] w = w
receive_all r ((now, con, f) ∷ fs) w = receive_all r fs (on_frame_received r now con f w)
