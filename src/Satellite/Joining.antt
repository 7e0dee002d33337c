-- ===== src/Satellite/Joining.antt =====
-- SatelliteClient.cpp: a satellite that takes the hello of its parent.
use geu_reflector.Base.{
  ℕ, ◌≡◌, refl, ◌∙◌, ap, true, false, not, ◌&&◌, ◌∷◌, Option, none, some, Bytes, is_empty,
  if◌then◌else◌, arith,
}
use geu_reflector.Trunk.State.{Reflector, Hello, hello, verify}
use geu_reflector.Trunk.Ident.{sanitize_ident}
use geu_reflector.Wire.Links.{peer, peer_filter, packs_link}
use geu_reflector.Nodes.Json.{Json}
use geu_reflector.Satellite.State.{satellite_rx_cnt_reset, satellite_tx_cnt_reset}
use geu_reflector.Satellite.Frames.{message, may_begin, is_first, has_bad_header}
use geu_reflector.Satellite.Client.{
  SatelliteClient, Child, call_client, then_client, with_client, parent_disconnect, sent,
  roster_update, client_send, send_filter, client_hello_received, handle_client_msg,
  dispatch_client, parent_frame_received,
}

-- The satellite that has taken the parent's hello and sent its filter.
abbrev joined : Hello → SatelliteClient → SatelliteClient
joined h c = call_client roster_update (
    call_client (sent (peer_filter c.filter_str)) (record c {
      hello_received = true;
      parent_id = sanitize_ident h.id 64;
      hb_tx_cnt = satellite_tx_cnt_reset;
    }))

sends_filter :
    (c : SatelliteClient)
    → c.con_connected ≡ true
    → is_empty c.filter_str ≡ false
    → packs_link (peer_filter c.filter_str) ≡ true
    → send_filter c
      ≡ some (
          call_client
            (sent (peer_filter c.filter_str))
            (record c { hb_tx_cnt = satellite_tx_cnt_reset }))
unfolding send_filter client_send
sends_filter c up has packs =
    ap
      (λ b.
        if b
        then some c
        else if not (packs_link (peer_filter c.filter_str))
        then some c
        else if not c.con_connected
        then none
        else some (
            call_client (sent (peer_filter c.filter_str))
              (record c { hb_tx_cnt = satellite_tx_cnt_reset })))
      has
    ∙ (ap
          (λ b.
            if not b
            then some c
            else if not c.con_connected
            then none
            else some (
                call_client (sent (peer_filter c.filter_str))
                  (record c { hb_tx_cnt = satellite_tx_cnt_reset })))
          packs
        ∙ ap
            (λ b.
              if not b
              then none
              else some (
                  call_client (sent (peer_filter c.filter_str))
                    (record c { hb_tx_cnt = satellite_tx_cnt_reset })))
            up)

client_takes :
    (rc : Reflector) (h : Hello) (c : SatelliteClient)
    → verify rc h c.secret ≡ true
    → c.con_connected ≡ true
    → is_empty c.filter_str ≡ false
    → packs_link (peer_filter c.filter_str) ≡ true
    → client_hello_received rc h c ≡ some (joined h c)
unfolding client_hello_received
client_takes rc h c good up has packs =
    let d = record c { hello_received = true; parent_id = sanitize_ident h.id 64 } in
    ap
      (λ b.
        if not b
        then some (call_client parent_disconnect (record c { con_connected = false }))
        else then_client (call_client roster_update) (send_filter d))
      good
    ∙ ap (then_client (call_client roster_update)) (sends_filter d up has packs)

module _ (write : Json → Bytes) (parse_json : Bytes → Option Json) where
  pub child_takes :
      (rc : Reflector) (now : ℕ) (h : Hello) (w : Child)
      → verify rc h w.client.secret ≡ true
      → w.client.con_connected ≡ true
      → is_empty w.client.filter_str ≡ false
      → packs_link (peer_filter w.client.filter_str) ≡ true
      → (w' : Child) × (parent_frame_received write parse_json rc now (message (peer (hello h))) w
          ≡ some w')
        × (w'.client.out ≡ roster_update ∷ sent (peer_filter w.client.filter_str) ∷ w.client.out)
        × (w'.client.hello_received ≡ true)
        × (w'.client.filter ≡ w.client.filter)
  unfolding parent_frame_received has_bad_header is_first may_begin dispatch_client
      handle_client_msg
  child_takes rc now h w good up has packs =
      let gate : (not w.client.hello_received && false) ≡ false = ground arith in
      let c = record w.client { hb_rx_cnt = satellite_rx_cnt_reset } in
      let w0 = record w { client = c } in
      let step : parent_frame_received write parse_json rc now (message (peer (hello h))) w
          ≡ with_client (client_hello_received rc h c) w0 =
        ap (λ b. if b then some w else with_client (client_hello_received rc h c) w0) gate in
      (
        record w { client = joined h c },
        step ∙ ap (λ o. with_client o w0) (client_takes rc h c good up has packs),
        refl,
        refl,
        refl,
      )
