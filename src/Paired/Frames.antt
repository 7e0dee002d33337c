-- ===== src/Paired/Frames.antt =====
-- TrunkLink.cpp: the dispatch of a frame of one of the hosts. The messages of talkers are handled
-- as on a link with one host.
use geu_reflector.Base.{
  ℕ, true, false, not, ◌&&◌, ◌||◌, none, some, if◌then◌else◌, is_empty, get_elem?, update_at,
}
use geu_reflector.Trunk.State.{
  World, Reflector, Hello, hello, heartbeat_rx_cnt_reset, interest_update, paired_disconnected,
  outbound, verify,
}
use geu_reflector.Trunk.Frames.{Frame, message, may_come_first, is_bad_header, dispatch}
use geu_reflector.Paired.State.{PairedLink, PairedWorld, emit_paired}
use geu_reflector.Paired.Connect.{paired_inbound_index, learn}

-- A handler of the members that the hosts share.
abbrev pub on_shared : (World → World) → PairedWorld → PairedWorld
on_shared f w =
    let w' = f (record { link = w.link.shared; tgs = w.tgs }) in
    record { link = record w.link { shared = w'.link }; tgs = w'.tgs }

unfoldable pub paired_hello : Reflector → ℕ → Hello → PairedLink → PairedLink
paired_hello r idx h p =
    if is_empty h.id || not (verify r h p.shared.secret)
    then emit_paired (paired_disconnected outbound idx)
        (record p { ob = update_at idx (λ c. record c { is_connected = false }) p.ob })
    else let p' =
        learn h (record p { ob = update_at idx (λ c. record c { hello_received = true }) p.ob }) in
      emit_paired interest_update
        (record p' { shared = record p'.shared { tg_interest_timer = true } })

unfoldable pub paired_outbound_dispatch : Reflector → ℕ → ℕ → Frame → PairedWorld → PairedWorld
paired_outbound_dispatch r now idx (message (hello h)) w = record w {
  link = paired_hello r idx h w.link;
}
paired_outbound_dispatch r now idx f w = on_shared (dispatch r now false f) w

unfoldable pub on_paired_outbound_frame : Reflector → ℕ → ℕ → Frame → PairedWorld → PairedWorld
on_paired_outbound_frame r now idx f w = elim (get_elem? w.link.ob idx) [
  | none ↦ w
  | some c ↦
      let w' = record w {
        link = record w.link {
          ob = update_at idx (λ c'. record c' { hb_rx_cnt = heartbeat_rx_cnt_reset }) w.link.ob;
        };
      } in
      if is_bad_header f
      then w'
      else if not c.hello_received && not (may_come_first f)
      then w'
      else paired_outbound_dispatch r now idx f w'
]

-- A hello on an inbound connection was handled before; another one is not looked at.
unfoldable pub paired_inbound_dispatch : Reflector → ℕ → Frame → PairedWorld → PairedWorld
paired_inbound_dispatch r now (message (hello h)) w = w
paired_inbound_dispatch r now f w = on_shared (dispatch r now true f) w

unfoldable pub on_paired_inbound_frame : Reflector → ℕ → ℕ → Frame → PairedWorld → PairedWorld
on_paired_inbound_frame r now con f w = elim (paired_inbound_index con 0 w.link.ib) [
  | none ↦ w
  | some idx ↦
      let w' = record w {
        link = record w.link {
          ib = update_at idx (λ c'. record c' { hb_rx_cnt = heartbeat_rx_cnt_reset }) w.link.ib;
        };
      } in
      if is_bad_header f then w' else paired_inbound_dispatch r now f w'
]
