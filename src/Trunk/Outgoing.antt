-- ===== src/Trunk/Outgoing.antt =====
-- What the functions of TrunkLink.cpp write to the peer.
use geu_reflector.Wire.Peers.{packs}
use geu_reflector.Base.{
  ◌&&◌, ℕ, ◌≡◌, refl, true, false, not, ◌||◌, ◌∷◌, Bytes, if◌then◌else◌, arith,
}
use geu_reflector.Trunk.State.{
  Link, Reflector, Msg, written, inbound, outbound, is_active, is_outbound_ready, is_inbound_ready,
  alias_to_route, is_blacklisted, is_allowed,
}
use geu_reflector.Trunk.Send.{send_msg, send_msg_on_outbound, send_msg_on_inbound}
use geu_reflector.Trunk.Local.{
  is_carried, on_local_talker_start, on_local_talker_stop, on_local_audio, on_local_flush,
}

-- A message that packs is written once, on the outbound connection where it is ready and else on the
-- inbound one; only where the link is not active, or the message does not pack, is it dropped.
pub send_msg-out :
    (m : Msg) (l : Link)
    → (send_msg m l).out ≡ (
        if is_active l && packs m
        then written (if is_outbound_ready l then outbound else inbound) m ∷ l.out
        else l.out)
unfolding send_msg send_msg_on_outbound send_msg_on_inbound is_active is_outbound_ready
    is_inbound_ready
send_msg-out m l = ground arith

refused :
    (r : Reflector) (now rtg : ℕ) (l : Link)
    → (is_blacklisted l rtg || not (is_allowed l rtg)) ≡ true
    → is_carried r now l rtg ≡ false
unfolding is_carried
refused r now rtg l h = rw h refl

-- Nothing is written for a talk group that the blacklist matches or that the allow list leaves out,
-- whatever route it has: the link stays as it was.
pub refused_tg_silent :
    (r : Reflector) (now tg : ℕ) (callsign samples : Bytes) (l : Link)
    → (is_blacklisted l (alias_to_route r tg) || not (is_allowed l (alias_to_route r tg))) ≡ true
    → (on_local_talker_start r now tg callsign l ≡ l)
      × (on_local_talker_stop r now tg l ≡ l)
      × (on_local_audio r now tg samples l ≡ l)
      × (on_local_flush r now tg l ≡ l)
unfolding on_local_talker_start on_local_talker_stop on_local_audio on_local_flush
refused_tg_silent r now tg callsign samples l h =
    rw (refused r now (alias_to_route r tg) l h)
      (ground arith, ground arith, ground arith, ground arith)
