-- ===== src/Satellite/Agreement.antt =====
-- SatelliteClient.cpp and SatelliteLink.cpp: a satellite and its parent, from the connection to the
-- filter that both of them apply.
use geu_reflector.Base.{
  ℕ, ◌==◌, ◌≡◌, refl, sym, ◌∙◌, ap, true, false, not, ◌&&◌, [], ◌∷◌, Option, some, Bytes, find,
  is_empty, if◌then◌else◌, arith,
}
use geu_reflector.TgFilter.Entry.{parse, matches}
use geu_reflector.Trunk.State.{
  Reflector, Hello, hello, verify, make_hello, role_peer, role_satellite,
}
use geu_reflector.Wire.Links.{LinkMsg, peer, peer_filter, packs_link}
use geu_reflector.Nodes.Json.{Json}
use geu_reflector.Server.Handshake.{IsSigned, verify-make_hello, make_hello-id}
use geu_reflector.Twin.Handshake.{hello-role}
use geu_reflector.Satellite.State.{
  SatelliteLink, Parent, at_satellite, filter_passes_tg, send_to_satellite,
  resolve_satellite_secret, satellite_rx_cnt_reset,
}
use geu_reflector.Satellite.Frames.{
  message, may_begin, is_first, has_bad_header, parent_name, parent_hello, admit_satellite,
  satellite_hello, satellite_filter, handle_satellite_msg, dispatch_satellite,
  satellite_frame_received,
}
use geu_reflector.Satellite.Tables.{find-update_self}
use geu_reflector.Satellite.Client.{
  SatelliteClient, Child, sent, roster_update, client_passes_tg, client_hello,
  parent_frame_received,
}
use geu_reflector.Satellite.Joining.{child_takes}

-- The parent knows the satellite: it has a name, by which the parent finds its secret, and each side
-- makes digests with the secret that the other makes too.
pub record Known (rc rp : Reflector) (c : SatelliteClient) (p : Parent) : Type 0 where
  pub named : is_empty c.satellite_id ≡ false
  pub resolved : resolve_satellite_secret p c.satellite_id ≡ some c.secret
  pub nonce : Bytes
  pub digest : Bytes
  pub signed : IsSigned rc rp c.secret nonce digest
  pub parent_nonce : Bytes
  pub parent_digest : Bytes
  pub parent_signed : IsSigned rp rc c.secret parent_nonce parent_digest

abbrev child_hello : Reflector → SatelliteClient → Hello
child_hello rc c = make_hello rc c.satellite_id [] c.priority c.secret role_satellite

-- A hello that passes the checks of the parent.
hello_admits :
    (rp : Reflector) (con : ℕ) (h : Hello) (secret : Bytes) (l : SatelliteLink) (p : Parent)
    → is_empty h.id ≡ false
    → (h.role == role_satellite) ≡ true
    → resolve_satellite_secret p h.id ≡ some secret
    → verify rp h secret ≡ true
    → find con p.sats ≡ some l
    → find con (satellite_hello rp con h p).sats ≡ some (admit_satellite rp h secret l)
unfolding satellite_hello
hello_admits rp con h secret l p a b e v there =
    let m = find-update_self con (admit_satellite rp h secret) l p.sats there in rw (a, b, e, v) m

module _ (write : Json → Bytes) (parse_json : Bytes → Option Json) where
  -- A frame that may come first.
  first_frame :
      (rp : Reflector) (now con : ℕ) (m : LinkMsg) (l : SatelliteLink) (p : Parent)
      → may_begin m ≡ true
      → find con p.sats ≡ some l
      → satellite_frame_received write parse_json rp now con (message m) p
        ≡ handle_satellite_msg write parse_json rp now con l m
            (at_satellite con (λ l'. record l' { hb_rx_cnt = satellite_rx_cnt_reset }) p)
  unfolding satellite_frame_received has_bad_header is_first dispatch_satellite
  first_frame rp now con m l p f there =
      let gate : (not l.hello_received && not (may_begin m)) ≡ false = ground arith in
      rw (satellite_frame_received, there, gate) refl

  parent_admits :
      (rp : Reflector) (now con : ℕ) (h : Hello) (secret : Bytes) (l : SatelliteLink) (p : Parent)
      → is_empty h.id ≡ false
      → (h.role == role_satellite) ≡ true
      → resolve_satellite_secret p h.id ≡ some secret
      → verify rp h secret ≡ true
      → find con p.sats ≡ some l
      → find con
          (satellite_frame_received write parse_json rp now con (message (peer (hello h))) p).sats
        ≡ some (admit_satellite rp h secret (record l { hb_rx_cnt = satellite_rx_cnt_reset }))
  unfolding handle_satellite_msg may_begin resolve_satellite_secret
  parent_admits rp now con h secret l p a b e v there =
      let g : SatelliteLink → SatelliteLink =
        λ l'. record l' { hb_rx_cnt = satellite_rx_cnt_reset } in
      ap (λ q. find con q.sats) (first_frame rp now con (peer (hello h)) l p refl there)
      ∙ hello_admits rp con h secret (g l) (at_satellite con g p) a b e v
          (find-update_self con g l p.sats there)

  parent_filters :
      (rp : Reflector) (now con : ℕ) (text : Bytes) (l : SatelliteLink) (p : Parent)
      → find con p.sats ≡ some l
      → l.hello_received ≡ true
      → find con
          (satellite_frame_received write parse_json rp now con (message (peer_filter text)) p).sats
        ≡ some (record l {
          hb_rx_cnt = satellite_rx_cnt_reset;
          tg_filter = if is_empty text then [] else parse text;
        })
  unfolding satellite_frame_received has_bad_header dispatch_satellite handle_satellite_msg
      satellite_filter
  parent_filters rp now con text l p there greeted =
      let g : SatelliteLink → SatelliteLink =
        λ l'. record l' { hb_rx_cnt = satellite_rx_cnt_reset } in
      let f : SatelliteLink → SatelliteLink =
        λ l'. record l' { tg_filter = if is_empty text then [] else parse text } in
      let gate : (not l.hello_received && not (is_first (message (peer_filter text)))) ≡ false =
        ground (arith, greeted) in
      let step : satellite_frame_received write parse_json rp now con (message (peer_filter text)) p
          ≡ satellite_filter con text (at_satellite con g p) =
        rw (satellite_frame_received, there, gate) refl in
      ap (λ q. find con q.sats) step
      ∙ find-update_self con f (g l) (at_satellite con g p).sats
          (find-update_self con g l p.sats there)

  -- Both sides are authenticated and apply one filter; what the parent has written is its hello.
  pub record Agreed (rp : Reflector) (con : ℕ) (l : SatelliteLink) (secret : Bytes) (p : Parent)
      (w : Child) : Type 0 where
    pub link : SatelliteLink
    pub there : find con p.sats ≡ some link
    pub admitted : link.hello_received ≡ true
    pub answered : link.out ≡ parent_hello rp secret ∷ l.out
    pub authenticated : w.client.hello_received ≡ true
    pub filters : (tg : ℕ) → filter_passes_tg link tg ≡ client_passes_tg w.client tg

  admitted_link :
      (rp : Reflector) (h : Hello) (secret : Bytes) (l : SatelliteLink)
      → l.is_open ≡ true
      → packs_link (parent_hello rp secret) ≡ true
      → ((admit_satellite rp h secret l).hello_received ≡ true)
        × ((admit_satellite rp h secret l).out ≡ parent_hello rp secret ∷ l.out)
  unfolding admit_satellite send_to_satellite
  admitted_link rp h secret l up packs = (rw (up, packs) refl, rw (up, packs) refl)

  -- A satellite that the parent knows and that has connected: with its hello the parent admits it
  -- and answers; with the answer the satellite takes the parent as authenticated and sends its
  -- filter; and with that message both apply one filter to each talk group. The satellite has a
  -- filter, which is what it parsed of its text, both connections are open, and what they write is
  -- packed.
  pub satellite_joins :
      (rc rp : Reflector) (now con : ℕ) (l : SatelliteLink) (p : Parent) (w : Child)
      → Known rc rp w.client p
      → find con p.sats ≡ some l
      → l.is_open ≡ true
      → packs_link (parent_hello rp w.client.secret) ≡ true
      → w.client.con_connected ≡ true
      → is_empty w.client.filter_str ≡ false
      → w.client.filter ≡ parse w.client.filter_str
      → packs_link (peer_filter w.client.filter_str) ≡ true
      → (w' : Child) × (parent_frame_received write parse_json rc now
            (message (parent_hello rp w.client.secret))
            w
          ≡ some w')
        × (w'.client.out ≡ roster_update ∷ sent (peer_filter w.client.filter_str) ∷ w.client.out)
        × Agreed rp con l w.client.secret
            (satellite_frame_received write parse_json rp now con
              (message (peer_filter w.client.filter_str))
              (satellite_frame_received write parse_json rp now con
                (message (client_hello rc w.client))
                p))
            w'
  unfolding client_hello parent_hello filter_passes_tg client_passes_tg
  satellite_joins rc rp now con l p w k there up packs con_up has parsed sends =
      let c = w.client in
      let h = child_hello rc c in
      let id : h.id ≡ c.satellite_id =
        make_hello-id rc c.satellite_id [] c.priority c.secret role_satellite in
      let l0 = record l { hb_rx_cnt = satellite_rx_cnt_reset } in
      let l1 = admit_satellite rp h c.secret l0 in
      let p1 = satellite_frame_received write parse_json rp now con (message (peer (hello h))) p in
      let (greeted, out) = admitted_link rp h c.secret l0 up packs in
      let there1 =
        parent_admits rp now con h c.secret l p (ap is_empty id ∙ k.named)
          (ap (λ n. n == role_satellite)
            (hello-role rc c.satellite_id [] c.priority c.secret role_satellite))
          (ap (resolve_satellite_secret p) id ∙ k.resolved)
          (verify-make_hello rc c.satellite_id [] c.priority c.secret role_satellite rp k.nonce
            k.digest k.signed)
          there in
      let there2 = parent_filters rp now con c.filter_str l1 p1 there1 greeted in
      let answer = make_hello rp parent_name [] 0 c.secret role_peer in
      let (w', e, out', auth, same) =
        child_takes write parse_json rc now answer w
          (verify-make_hello rp parent_name [] 0 c.secret role_peer rc k.parent_nonce
            k.parent_digest k.parent_signed)
          con_up has sends in
      let one : (if is_empty c.filter_str then [] else parse c.filter_str) ≡ w'.client.filter =
        ap (λ b. if b then [] else parse c.filter_str) has ∙ (sym parsed ∙ sym same) in
      (
        w',
        e,
        out',
        record {
          link = _;
          there = there2;
          admitted = greeted;
          answered = out;
          authenticated = auth;
          filters = λ tg. ap (λ f. if is_empty f then true else matches tg f) one;
        },
      )
