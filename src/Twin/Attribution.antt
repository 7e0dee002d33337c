-- ===== src/Twin/Attribution.antt =====
-- TwinLink.cpp: the end of a talker that the twin has heard of from another peer.
use geu_reflector.Base.{
  ℕ, ◌≡◌, refl, ◌∙◌, ap, ◌&&◌, [], none, Bytes, find, bytes_eq, ◌==◌, if◌then◌else◌, Bool-cases,
  inl, inr, arith,
}
use geu_reflector.TgHandler.State.{TgHandler}
use geu_reflector.TgHandler.TrunkTalkers.{
  set_trunk_talker_for_tg_via_peer, clear_trunk_talker_for_tg, peer_id_for_tg,
}
use geu_reflector.TgHandler.Peers.{IsSound, clear_trunk_talker_for_tg-Clears}
use geu_reflector.Satellite.State.{Parent}
use geu_reflector.Satellite.Talkers.{tgs-with_handler}
use geu_reflector.Twin.Frames.{twin_ext_stop}

via_peer-nobody :
    (now tg : ℕ) (id : Bytes) (s : TgHandler)
    → set_trunk_talker_for_tg_via_peer now tg [] id s ≡ clear_trunk_talker_for_tg now tg s
unfolding set_trunk_talker_for_tg_via_peer clear_trunk_talker_for_tg
via_peer-nobody now tg id s = refl

ext_stop-tgs :
    (now tg : ℕ) (id : Bytes) (p : Parent)
    → (twin_ext_stop now tg id p).hub.tgs ≡ (
        if bytes_eq (peer_id_for_tg tg p.hub.tgs) id
        then clear_trunk_talker_for_tg now tg p.hub.tgs
        else p.hub.tgs)
unfolding twin_ext_stop
ext_stop-tgs now tg id p = elim (Bool-cases (bytes_eq (peer_id_for_tg tg p.hub.tgs) id)) [
  | inl e ↦ rw e (
      tgs-with_handler (set_trunk_talker_for_tg_via_peer now tg [] id) p
      ∙ via_peer-nobody now tg id p.hub.tgs)
  | inr e ↦ rw e refl
]

-- When the twin reports the end of a talker of a peer, exactly the trunk talker of that talk group
-- is taken away, and only if that peer is the one that holds the talk group, where the trunk talkers
-- are sound.
pub twin_ext_stop_lem :
    (now tg t : ℕ) (id : Bytes) (p : Parent)
    → IsSound p.hub.tgs
    → find t (twin_ext_stop now tg id p).hub.tgs.trunk_talkers ≡ (
        if t == tg && bytes_eq (peer_id_for_tg tg p.hub.tgs) id
        then none
        else find t p.hub.tgs.trunk_talkers)
twin_ext_stop_lem now tg t id p v =
    let c = clear_trunk_talker_for_tg-Clears now tg p.hub.tgs v in
    ap (λ s. find t s.trunk_talkers) (ext_stop-tgs now tg id p) ∙ ground (arith, c.talkers t)
