-- ===== src/Satellite/Echo.antt =====
-- SatelliteLink.cpp and Reflector.cpp: what of a satellite comes back to it.
use geu_reflector.Base.{
  ℕ, suc, ◌≡◌, refl, ◌∙◌, ap, true, false, not, ◌&&◌, List, [], ◌∷◌, Option, none, some, Bytes,
  insert, find, ltb, leb, length, bytes_eq, assign, find-assign, ==_self, Bool-cases, Option-cases,
  inl, inr, arith,
}
use geu_reflector.TgHandler.State.{TgHandler, trunk_talker_updated, max_trunk_talkers}
use geu_reflector.TgHandler.TrunkTalkers.{
  set_trunk_talker_for_tg_via_peer, set_trunk_talker_for_tg, peer_id_for_tg, trunk_talker_for_tg,
}
use geu_reflector.Trunk.State.{
  Reflector, heartbeat, hello, talker_start, talker_stop, audio, flush, tg_interest,
}
use geu_reflector.Wire.Links.{LinkMsg, peer, node_list, peer_filter, packs_link}
use geu_reflector.Nodes.Json.{Json}
use geu_reflector.Satellite.State.{
  SatelliteLink, Parent, at_satellite, every_satellite, filter_passes_tg, send_to_satellite,
  on_parent_talker_start, satellite_rx_cnt_reset,
}
use geu_reflector.Satellite.Events.{
  on_trunk_talker_updated, run_signal, with_handler, on_satellite_talker_start,
}
use geu_reflector.Satellite.Frames.{
  SatFrame, bad_header, bad_body, odd_frame, message, has_bad_header, is_first, satellite_filter,
  satellite_nodes, handle_satellite_msg, dispatch_satellite, satellite_frame_received,
}
use geu_reflector.Satellite.Tables.{find-update_self, find-every}
use geu_reflector.Satellite.Unauthenticated.{receive_frames}
use geu_reflector.Satellite.Quiet.{
  sounds_to, SameSounds, update-quiet, talker_start-quiet, talker_stop-quiet, audio-quiet,
  flush-quiet, hello-quiet,
}

module _ (write : Json → Bytes) (parse_json : Bytes → Option Json) (r : Reflector) where
  msg-quiet :
      (now con : ℕ) (l : SatelliteLink) (m : LinkMsg) (p : Parent)
      → SameSounds con p (handle_satellite_msg write parse_json r now con l m p)
  unfolding handle_satellite_msg satellite_nodes satellite_filter
  msg-quiet now con l (peer heartbeat) p = refl
  msg-quiet now con l (peer (hello h)) p = hello-quiet write parse_json r now con h p
  msg-quiet now con l (peer (talker_start tg cs)) p =
      talker_start-quiet write parse_json r now con l.satellite_id tg cs p
  msg-quiet now con l (peer (talker_stop tg)) p = talker_stop-quiet write parse_json r now con tg p
  msg-quiet now con l (peer (audio tg samples)) p =
      audio-quiet write parse_json r now con l.sat_active_tgs tg samples p
  msg-quiet now con l (peer (flush tg)) p = flush-quiet write parse_json r now con tg p
  msg-quiet now con l (peer (tg_interest id tgs)) p = refl
  msg-quiet now con l (node_list c) p = update-quiet con con _ p.sats (λ k. refl)
  msg-quiet now con l (peer_filter text) p = update-quiet con con _ p.sats (λ k. refl)
  msg-quiet now con l m p = refl

  dispatch-quiet :
      (now con : ℕ) (l : SatelliteLink) (f : SatFrame) (p : Parent)
      → SameSounds con p (dispatch_satellite write parse_json r now con l f p)
  unfolding dispatch_satellite
  dispatch-quiet now con l bad_header p = refl
  dispatch-quiet now con l (bad_body first) p = refl
  dispatch-quiet now con l odd_frame p = refl
  dispatch-quiet now con l (message m) p = msg-quiet now con l m p

  frame-quiet :
      (now con : ℕ) (f : SatFrame) (p : Parent)
      → SameSounds con p (satellite_frame_received write parse_json r now con f p)
  unfolding satellite_frame_received
  frame-quiet now con f p = elim (Option-cases (find con p.sats)) [
    | inl e ↦
        let step : satellite_frame_received write parse_json r now con f p ≡ p =
          rw (satellite_frame_received, e) refl in
        ap (λ q. sounds_to (find con q.sats)) step
    | inr (l, e) ↦
        let g : SatelliteLink → SatelliteLink =
          λ l'. record l' { hb_rx_cnt = satellite_rx_cnt_reset } in
        elim (Bool-cases (has_bad_header f)) [
          | inl a ↦
              let step : satellite_frame_received write parse_json r now con f p ≡ p =
                rw (satellite_frame_received, e, a) refl in
              ap (λ q. sounds_to (find con q.sats)) step
          | inr a ↦ elim (Bool-cases (not l.hello_received && not (is_first f))) [
            | inl b ↦
                let step : satellite_frame_received write parse_json r now con f p ≡ p =
                  rw (satellite_frame_received, e, a, b) refl in
                ap (λ q. sounds_to (find con q.sats)) step
            | inr b ↦
                let step : satellite_frame_received write parse_json r now con f p
                    ≡ dispatch_satellite write parse_json r now con l f (at_satellite con g p) =
                  rw (satellite_frame_received, e, a, b) refl in
                ap (λ q. sounds_to (find con q.sats)) step
                ∙ (dispatch-quiet now con l f (at_satellite con g p)
                    ∙ update-quiet con con g p.sats (λ k. refl))
          ]
        ]
  ]

  -- Whatever frames come from a satellite, the audio and the ends of audio that it is sent are those
  -- that it was sent before: nothing of its own audio goes back to it.
  pub receive_frames-SameSounds :
      (con : ℕ) (fs : List (ℕ × SatFrame)) (p : Parent)
      → sounds_to (find con (receive_frames write parse_json r con fs p).sats)
        ≡ sounds_to (find con p.sats)
  unfolding receive_frames
  receive_frames-SameSounds con [] p = refl
  receive_frames-SameSounds con ((now, f) ∷ fs) p =
      receive_frames-SameSounds con fs (satellite_frame_received write parse_json r now con f p)
      ∙ frame-quiet now con f p

set-logged :
    (now tg : ℕ) (c : ℕ) (callsign : Bytes) (s : TgHandler)
    → find tg s.trunk_talkers ≡ none
    → leb max_trunk_talkers (length s.trunk_talkers) ≡ false
    → (set_trunk_talker_for_tg now tg (c ∷ callsign) s).log
      ≡ trunk_talker_updated tg [] (c ∷ callsign) (peer_id_for_tg tg s) ∷ s.log
unfolding set_trunk_talker_for_tg trunk_talker_for_tg bytes_eq
set-logged now tg c callsign s b d = rw (b, d) refl

talker-logged :
    (now tg c : ℕ) (callsign id : Bytes) (s : TgHandler)
    → find tg s.trunk_talkers ≡ none
    → leb max_trunk_talkers (length s.trunk_talkers) ≡ false
    → (set_trunk_talker_for_tg_via_peer now tg (c ∷ callsign) id s).log
      ≡ trunk_talker_updated tg [] (c ∷ callsign) id ∷ s.log
unfolding set_trunk_talker_for_tg_via_peer peer_id_for_tg
talker-logged now tg c callsign id s b d =
    set-logged now tg c callsign
      (record s { trunk_talker_peer_ids = assign tg id s.trunk_talker_peer_ids }) b d
    ∙ rw (find-assign tg tg id s.trunk_talker_peer_ids, ==_self tg) refl

started :
    (now tg c : ℕ) (callsign id : Bytes) (p : Parent)
    → find tg p.hub.tgs.trunk_talkers ≡ none
    → leb max_trunk_talkers (length p.hub.tgs.trunk_talkers) ≡ false
    → (with_handler (set_trunk_talker_for_tg_via_peer now tg (c ∷ callsign) id) p).sats
      ≡ every_satellite (on_parent_talker_start tg (c ∷ callsign)) p.sats
unfolding with_handler run_signal on_trunk_talker_updated
started now tg c callsign id p b d =
    let logged = talker-logged now tg c callsign id p.hub.tgs b d in
    let grown : ltb (length p.hub.tgs.log) (suc (length p.hub.tgs.log)) ≡ true = ground arith in
    rw (with_handler, logged, grown) refl

-- A talker that a satellite announces on a talk group that has no trunk talker and that its filter
-- passes, where the table of trunk talkers is not full, is announced back to the satellite.
on_satellite_talker_start-echo :
    (r : Reflector) (now con tg c : ℕ) (callsign id : Bytes) (l : SatelliteLink) (p : Parent)
    → find con p.sats ≡ some l
    → l.hello_received ≡ true
    → l.is_open ≡ true
    → filter_passes_tg l tg ≡ true
    → packs_link (peer (talker_start tg (c ∷ callsign))) ≡ true
    → find tg p.hub.tgs.trunk_talkers ≡ none
    → leb max_trunk_talkers (length p.hub.tgs.trunk_talkers) ≡ false
    → (l' : SatelliteLink) × (find con
          (on_satellite_talker_start r now con id tg (c ∷ callsign) p).sats
        ≡ some l')
      × (l'.out ≡ peer (talker_start tg (c ∷ callsign)) ∷ l.out)
unfolding on_satellite_talker_start on_parent_talker_start send_to_satellite filter_passes_tg
on_satellite_talker_start-echo r now con tg c callsign id l p e greeted up pass packs b d =
    let g : SatelliteLink → SatelliteLink =
      λ k. record k { sat_active_tgs = insert tg k.sat_active_tgs } in
    let here = find-update_self con g l p.sats e in
    let f = on_parent_talker_start tg (c ∷ callsign) in
    let all = started now tg c callsign id (at_satellite con g p) b d in
    (f (g l), ap (find con) all ∙ find-every f con (g l) _ here, rw (greeted, up, pass, packs) refl)
