-- ===== src/Satellite/Talkers.antt =====
-- Reflector.cpp and SatelliteLink.cpp: what becomes of the talkers of a satellite.
use geu_reflector.Base.{
  ℕ, zero, suc, ◌-◌, ◌^◌, ◌<◌, ◌≡◌, refl, sym, ◌∙◌, ap, subst, true, false, not, ◌&&◌, List, [],
  ◌∷◌, ◌++◌, none, some, NatSet, contains, Bytes, find, find-erase, ltb, ◌==◌, ==_self, is_empty,
  length, Bool-cases, inl, inr, arith,
}
use geu_reflector.TgHandler.State.{
  TgHandler, Signal, talker_updated, request_auto_qsy, set_block, trunk_talker_updated,
}
use geu_reflector.TgHandler.TrunkTalkers.{has_trunk_talker, clear_trunk_talker_for_tg, clear_tgs}
use geu_reflector.TgHandler.Peers.{IsSound, clear_tgs-Clears, mem}
use geu_reflector.Trunk.State.{dec32}
use geu_reflector.Audio.Broadcast.{broadcast}
use geu_reflector.Satellite.State.{
  SatelliteLink, Parent, disconnect_satellite, call_parent, at_satellite, send_to_satellite,
}
use geu_reflector.Satellite.Events.{
  trunk_talker_gone, trunk_talker_here, on_trunk_talker_updated, run_signal, with_handler,
}
use geu_reflector.Satellite.Frames.{on_satellite_link_failed}
use geu_reflector.Satellite.Life.{
  tick_satellite_tx, tick_satellite_rx, satellite_heartbeat_tick, clear_talkers, delete_satellite,
  clean_up, process_satellite_cleanup,
}
use geu_reflector.Satellite.Tables.{find-update_self}

tgs-updated :
    (tg : ℕ) (old new : Bytes) (p : Parent)
    → (on_trunk_talker_updated tg old new p).hub.tgs ≡ p.hub.tgs
unfolding on_trunk_talker_updated trunk_talker_gone trunk_talker_here broadcast
tgs-updated tg old new p = ground arith

tgs-run_signal : (log : List Signal) (p : Parent) → (run_signal log p).hub.tgs ≡ p.hub.tgs
unfolding run_signal
tgs-run_signal [] p = refl
tgs-run_signal (trunk_talker_updated tg old new id ∷ log) p = tgs-updated tg old new p
tgs-run_signal (talker_updated tg old new ∷ log) p = refl
tgs-run_signal (request_auto_qsy tg ∷ log) p = refl
tgs-run_signal (set_block c t ∷ log) p = refl

-- The handlers of the signals leave the talk groups alone.
pub tgs-with_handler :
    (f : TgHandler → TgHandler) (p : Parent) → (with_handler f p).hub.tgs ≡ f p.hub.tgs
unfolding with_handler
tgs-with_handler f p =
    let h = f p.hub.tgs in
    let p' = record p { hub = record p.hub { tgs = h } } in
    elim (Bool-cases (ltb (length p.hub.tgs.log) (length h.log))) [
      | inl e ↦ rw e (tgs-run_signal h.log p')
      | inr e ↦ rw e refl
    ]

tgs-clear_talkers :
    (now : ℕ) (tgs : NatSet) (p : Parent)
    → (clear_talkers now tgs p).hub.tgs ≡ clear_tgs now tgs p.hub.tgs
unfolding clear_talkers clear_tgs
tgs-clear_talkers now [] p = refl
tgs-clear_talkers now (tg ∷ tgs) p =
    tgs-clear_talkers now tgs (with_handler (clear_trunk_talker_for_tg now tg) p)
    ∙ ap (clear_tgs now tgs) (tgs-with_handler (clear_trunk_talker_for_tg now tg) p)

mem-contains : (tg : ℕ) (tgs : NatSet) → mem tg tgs ≡ contains tg tgs
unfolding mem contains
mem-contains tg [] = refl
mem-contains tg (t ∷ tgs) = ground (arith, mem-contains tg tgs)

-- A satellite that is deleted: its link is gone, and so are its talkers.
pub record IsGone (con : ℕ) (active : NatSet) (p : Parent) : Type 0 where
  pub link : find con p.sats ≡ none
  pub silent : (tg : ℕ) → contains tg active ≡ true → has_trunk_talker tg p.hub.tgs ≡ false

tgs-delete_satellite :
    (now con : ℕ) (l : SatelliteLink) (p : Parent)
    → (delete_satellite now con l p).hub.tgs ≡ clear_tgs now l.sat_active_tgs p.hub.tgs
unfolding delete_satellite
tgs-delete_satellite now con l p =
    elim (Bool-cases (not (is_empty l.partner_nodes) && not (is_empty l.satellite_id))) [
      | inl e ↦ rw e (tgs-clear_talkers now l.sat_active_tgs p)
      | inr e ↦ rw e (tgs-clear_talkers now l.sat_active_tgs p)
    ]

delete_satellite-IsGone :
    (now con : ℕ) (l : SatelliteLink) (p : Parent)
    → IsSound p.hub.tgs
    → IsGone con l.sat_active_tgs (delete_satellite now con l p)
unfolding delete_satellite has_trunk_talker
delete_satellite-IsGone now con l p v =
    let c = clear_tgs-Clears now l.sat_active_tgs p.hub.tgs v in
    let gone : (tg : ℕ)
        → contains tg l.sat_active_tgs ≡ true
        → has_trunk_talker tg (clear_tgs now l.sat_active_tgs p.hub.tgs) ≡ false =
      λ tg h. rw (has_trunk_talker, c.talkers tg, mem-contains tg l.sat_active_tgs, h) refl in
    record {
      link = find-erase con con _ ∙ rw (==_self con) refl;
      silent =
          λ tg h. ap (λ t. has_trunk_talker tg t) (tgs-delete_satellite now con l p) ∙ gone tg h;
    }

-- What a tick leaves of a link.
record Ticked (l l' : SatelliteLink) : Type 0 where
  pub active : l'.sat_active_tgs ≡ l.sat_active_tgs
  pub count : l'.hb_rx_cnt ≡ dec32 l.hb_rx_cnt

ticked : (l : SatelliteLink) → Ticked l (tick_satellite_rx (tick_satellite_tx l))
unfolding tick_satellite_rx tick_satellite_tx send_to_satellite
ticked l = record { active = ground arith; count = ground arith }

clean_up_one :
    (now con : ℕ) (k : SatelliteLink) (p : Parent)
    → find con p.sats ≡ some k
    → clean_up now (con ∷ []) p
      ≡ call_parent (disconnect_satellite con) (delete_satellite now con k p)
unfolding clean_up
clean_up_one now con k p e = rw (clean_up, e) refl

process_one :
    (now con : ℕ) (k : SatelliteLink) (p : Parent)
    → IsSound p.hub.tgs
    → p.cleanup_pending ≡ con ∷ []
    → find con p.sats ≡ some k
    → IsGone con k.sat_active_tgs (process_satellite_cleanup now p)
unfolding process_satellite_cleanup
process_one now con k p v c e =
    let q = record p { cleanup_pending = []; cleanup_timer = false } in
    let gone = delete_satellite-IsGone now con k q v in
    let step : process_satellite_cleanup now p
        ≡ call_parent (disconnect_satellite con) (delete_satellite now con k q) =
      ap (λ cons. clean_up now cons q) c ∙ clean_up_one now con k q e in
    subst (IsGone con k.sat_active_tgs) (sym step)
      (record { link = gone.link; silent = gone.silent })

last_tick :
    (con : ℕ) (l : SatelliteLink) (p : Parent)
    → find con p.sats ≡ some l
    → dec32 l.hb_rx_cnt ≡ 0
    → satellite_heartbeat_tick con p
      ≡ on_satellite_link_failed con
          (at_satellite con (λ l'. tick_satellite_rx (tick_satellite_tx l')) p)
unfolding satellite_heartbeat_tick
last_tick con l p e z = rw (satellite_heartbeat_tick, e, z) refl

other_tick :
    (con n : ℕ) (l : SatelliteLink) (p : Parent)
    → find con p.sats ≡ some l
    → dec32 l.hb_rx_cnt ≡ suc n
    → satellite_heartbeat_tick con p
      ≡ at_satellite con (λ l'. tick_satellite_rx (tick_satellite_tx l')) p
unfolding satellite_heartbeat_tick
other_tick con n l p e z =
    let on : (dec32 l.hb_rx_cnt == 0) ≡ false = rw z (ground arith) in
    rw (satellite_heartbeat_tick, e, on) refl

-- The last tick of a silent satellite, and the cleanup.
timed_out :
    (now con : ℕ) (l : SatelliteLink) (p : Parent)
    → IsSound p.hub.tgs
    → find con p.sats ≡ some l
    → p.cleanup_pending ≡ []
    → dec32 l.hb_rx_cnt ≡ 0
    → IsGone con l.sat_active_tgs (process_satellite_cleanup now (satellite_heartbeat_tick con p))
unfolding on_satellite_link_failed
timed_out now con l p v e c z =
    let f : SatelliteLink → SatelliteLink = λ l'. tick_satellite_rx (tick_satellite_tx l') in
    let q = on_satellite_link_failed con (at_satellite con f p) in
    let there = find-update_self con f l p.sats e in
    let gone = process_one now con (f l) q v (ap (λ t. t ++ con ∷ []) c) there in
    let gone' =
      subst (λ t. IsGone con t (process_satellite_cleanup now q)) (ticked l).active gone in
    subst (λ t. IsGone con l.sat_active_tgs (process_satellite_cleanup now t))
      (sym (last_tick con l p e z)) gone'

-- Ticks of a link, with no frame between them.
unfoldable pub ticks : ℕ → ℕ → Parent → Parent
ticks zero con p = p
ticks (suc n) con p = ticks n con (satellite_heartbeat_tick con p)

-- A satellite that says nothing for as many ticks as its counter has: after the ticks and the
-- cleanup its link is gone, and no talk group that it had a talker in has a trunk talker, where no
-- other link has failed, the trunk talkers are sound and the counter is positive and has 32 bits.
pub ticks-IsGone :
    (n now con : ℕ) (l : SatelliteLink) (p : Parent)
    → IsSound p.hub.tgs
    → find con p.sats ≡ some l
    → p.cleanup_pending ≡ []
    → l.hb_rx_cnt ≡ suc n
    → n < 2 ^ 32 - 1
    → IsGone con l.sat_active_tgs (process_satellite_cleanup now (ticks (suc n) con p))
unfolding ticks
ticks-IsGone zero now con l p v e c z b = timed_out now con l p v e c (rw z refl)
ticks-IsGone (suc n) now con l p v e c z b =
    let f : SatelliteLink → SatelliteLink = λ l'. tick_satellite_rx (tick_satellite_tx l') in
    let there = find-update_self con f l p.sats e in
    let t = ticked l in
    let left : dec32 l.hb_rx_cnt ≡ suc n = rw z (omega arith) in
    let rest =
      ticks-IsGone n now con (f l) (at_satellite con f p) v there c (t.count ∙ left)
        (omega arith) in
    let rest' =
      subst
        (λ a.
          IsGone con a (process_satellite_cleanup now (ticks (suc n) con (at_satellite con f p))))
        t.active rest in
    subst (λ q. IsGone con l.sat_active_tgs (process_satellite_cleanup now (ticks (suc n) con q)))
      (sym (other_tick con n l p e left)) rest'
