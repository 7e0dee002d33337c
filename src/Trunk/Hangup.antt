-- ===== src/Trunk/Hangup.antt =====
-- The loss of the inbound connection in TrunkLink.cpp, and what it leaves of the peer's talkers.
use geu_reflector.Base.{
  ℕ, ◌≡◌, refl, ◌∙◌, Bool, true, false, ◌||◌, List, [], ◌∷◌, none, find, ◌==◌, if◌then◌else◌, arith,
}
use geu_reflector.TgHandler.Peers.{IsSound, clear_trunk_talker_for_tg-Clears}
use geu_reflector.Trunk.State.{World, Reflector, alias_to_local, is_inbound_con, is_inbound_ready}
use geu_reflector.Trunk.Connect.{clear_active, clear_peer_talker_state, on_inbound_disconnected}

-- Is the talk group delivered for one of these?
pub delivered_for : Reflector → ℕ → List ℕ → Bool
delivered_for r t [] = false
delivered_for r t (tg ∷ tgs) = t == alias_to_local r tg || delivered_for r t tgs

clear_active-talkers :
    (r : Reflector) (now t : ℕ) (tgs : List ℕ) (w : World)
    → IsSound w.tgs
    → find t (clear_active r now tgs w).tgs.trunk_talkers
      ≡ (if delivered_for r t tgs then none else find t w.tgs.trunk_talkers)
unfolding clear_active delivered_for
clear_active-talkers r now t [] w v = refl
clear_active-talkers r now t (tg ∷ tgs) w v =
    let c = clear_trunk_talker_for_tg-Clears now (alias_to_local r tg) w.tgs v in
    clear_active-talkers r now t tgs _ c.sound ∙ ground (arith, c.talkers t)

clear_active-inbound_con :
    (r : Reflector) (now : ℕ) (tgs : List ℕ) (w : World)
    → (clear_active r now tgs w).link.inbound_con ≡ w.link.inbound_con
unfolding clear_active
clear_active-inbound_con r now [] w = refl
clear_active-inbound_con r now (tg ∷ tgs) w = clear_active-inbound_con r now tgs _

-- When the link loses its inbound connection while the handler's trunk talkers are sound, exactly
-- the talk groups that this peer held, as they are delivered here, lose their trunk talker; the
-- link then holds no talk group for the peer and is not ready inbound.
on_inbound_disconnected_lem :
    (r : Reflector) (now con t : ℕ) (w : World)
    → IsSound w.tgs
    → is_inbound_con w.link con ≡ true
    → (find t (on_inbound_disconnected r now con w).tgs.trunk_talkers
        ≡ (if delivered_for r t w.link.peer_active_tgs then none else find t w.tgs.trunk_talkers))
      × ((on_inbound_disconnected r now con w).link.peer_active_tgs ≡ [])
      × (is_inbound_ready (on_inbound_disconnected r now con w).link ≡ false)
unfolding on_inbound_disconnected clear_peer_talker_state is_inbound_ready
on_inbound_disconnected_lem r now con t w v h = rw h (
  clear_active-talkers r now t w.link.peer_active_tgs _ v,
  refl,
  rw (clear_active-inbound_con r now w.link.peer_active_tgs _) refl,
)
