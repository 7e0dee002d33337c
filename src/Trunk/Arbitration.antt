-- ===== src/Trunk/Arbitration.antt =====
-- The tie-break of `handleMsgPeerTalkerStart` in TrunkLink.cpp.
use geu_reflector.Base.{
  ℕ, ◌<◌, ◌≤◌, ◌≡◌, refl, ◌∙◌, true, false, none, some, Bytes, contains, insert, contains-insert,
  find, leb, if◌then◌else◌, is_some, Bool-cases, inl, inr, arith,
}
use geu_reflector.TgHandler.State.{TgHandler, talker_for_tg}
use geu_reflector.TgHandler.Talkers.{set_talker_for_tg}
use geu_reflector.TgHandler.Retains.{find-set_talker_for_tg}
use geu_reflector.TgHandler.TrunkTalkers.{set_trunk_talker_for_tg_via_peer, set_trunk_talker_for_tg}
use geu_reflector.Trunk.State.{World, Link, Reflector, map_tg_in, alias_to_local}
use geu_reflector.Trunk.Peer.{is_accepted, tie_break, accept_claim, handle_msg_peer_talker_start}
use geu_reflector.Trunk.Local.{on_local_talker_stop, on_local_audio}

-- The talk group under which a link delivers what its peer says on a number.
abbrev pub delivered : Reflector → Link → ℕ → ℕ
delivered r l wire_tg = alias_to_local r (map_tg_in l wire_tg)

talker-set_trunk :
    (now tg t : ℕ) (c p : Bytes) (s : TgHandler)
    → talker_for_tg t (set_trunk_talker_for_tg_via_peer now tg c p s) ≡ talker_for_tg t s
unfolding talker_for_tg set_trunk_talker_for_tg_via_peer set_trunk_talker_for_tg
talker-set_trunk now tg t c p s = ground arith

talker-clear :
    (now tg : ℕ) (s : TgHandler) → talker_for_tg tg (set_talker_for_tg now tg none s) ≡ none
unfolding talker_for_tg
talker-clear now tg s =
    rw (talker_for_tg, find-set_talker_for_tg now tg tg none s)
      (elim (find tg s.id_map) [ none ↦ ground arith | some i ↦ ground arith ])

talker-accept_claim :
    (r : Reflector) (now l d t : ℕ) (c : Bytes) (w : World)
    → talker_for_tg t (accept_claim r now l d c w).tgs ≡ talker_for_tg t w.tgs
unfolding accept_claim
talker-accept_claim r now l d t c w = talker-set_trunk now d t c _ w.tgs

-- The three outcomes of the tie-break.
unopposed :
    (r : Reflector) (now wire_tg : ℕ) (callsign : Bytes) (w : World)
    → is_accepted r w.link wire_tg ≡ true
    → is_some (talker_for_tg (delivered r w.link wire_tg) w.tgs) ≡ false
    → handle_msg_peer_talker_start r now wire_tg callsign w
      ≡ accept_claim r now (map_tg_in w.link wire_tg) (delivered r w.link wire_tg) callsign w
unfolding handle_msg_peer_talker_start tie_break
unopposed r now wire_tg callsign w h e = rw (h, e) refl

-- A claim that loses changes nothing.
pub kept :
    (r : Reflector) (now wire_tg : ℕ) (callsign : Bytes) (w : World)
    → is_accepted r w.link wire_tg ≡ true
    → is_some (talker_for_tg (delivered r w.link wire_tg) w.tgs) ≡ true
    → w.link.priority ≤ w.link.peer_priority
    → handle_msg_peer_talker_start r now wire_tg callsign w ≡ w
unfolding handle_msg_peer_talker_start tie_break
kept r now wire_tg callsign w h e p =
    let q : leb w.link.priority w.link.peer_priority ≡ true = ground arith in rw (h, e, q) refl

-- The world in which the local talker has been put off its talk group.
abbrev pub yielding : ℕ → ℕ → World → World
yielding now tg w = record {
  link = record w.link { yielded_tgs = insert tg w.link.yielded_tgs };
  tgs = set_talker_for_tg now tg none w.tgs;
}

pub yielded :
    (r : Reflector) (now wire_tg : ℕ) (callsign : Bytes) (w : World)
    → is_accepted r w.link wire_tg ≡ true
    → is_some (talker_for_tg (delivered r w.link wire_tg) w.tgs) ≡ true
    → w.link.peer_priority < w.link.priority
    → handle_msg_peer_talker_start r now wire_tg callsign w
      ≡ accept_claim r now
          (map_tg_in w.link wire_tg)
          (delivered r w.link wire_tg)
          callsign
          (yielding now (delivered r w.link wire_tg) w)
unfolding handle_msg_peer_talker_start tie_break
yielded r now wire_tg callsign w h e p =
    let q : leb w.link.priority w.link.peer_priority ≡ false = ground arith in rw (h, e, q) refl

-- A claim that the link accepts takes the local talker off the talk group exactly where the link's
-- own priority value is above the peer's; else the talk group keeps its talker.
handle_msg_peer_talker_start-talker :
    (r : Reflector) (now wire_tg : ℕ) (callsign : Bytes) (w : World)
    → is_accepted r w.link wire_tg ≡ true
    → talker_for_tg
        (delivered r w.link wire_tg)
        (handle_msg_peer_talker_start r now wire_tg callsign w).tgs
      ≡ (if leb w.link.priority w.link.peer_priority
          then talker_for_tg (delivered r w.link wire_tg) w.tgs
          else none)
handle_msg_peer_talker_start-talker r now wire_tg callsign w h =
    let d = delivered r w.link wire_tg in
    let l = map_tg_in w.link wire_tg in
    elim (Bool-cases (is_some (talker_for_tg d w.tgs))) [
      | inr e ↦
          rw (unopposed r now wire_tg callsign w h e, talker-accept_claim r now l d d callsign w)
            (ground arith)
      | inl e ↦ elim (Bool-cases (leb w.link.priority w.link.peer_priority)) [
        | inl q ↦ rw (kept r now wire_tg callsign w h e (ground arith), q) refl
        | inr q ↦
            rw
              (
                yielded r now wire_tg callsign w h e (ground arith),
                talker-accept_claim r now l d d callsign (yielding now d w),
                q,
              )
              (talker-clear now d w.tgs)
      ]
    ]

-- Two reflectors with a local talker on the talk group under which each delivers the other's
-- claim, whose links accept the claims and know each other's priority: the one with the lower
-- priority value changes nothing, and the other one loses its talker.
pub one_side_yields :
    (ra rb : Reflector) (now tga tgb : ℕ) (ca cb : Bytes) (a b : World)
    → is_accepted ra a.link tgb ≡ true
    → is_accepted rb b.link tga ≡ true
    → is_some (talker_for_tg (delivered ra a.link tgb) a.tgs) ≡ true
    → is_some (talker_for_tg (delivered rb b.link tga) b.tgs) ≡ true
    → a.link.peer_priority ≡ b.link.priority
    → b.link.peer_priority ≡ a.link.priority
    → a.link.priority < b.link.priority
    → (handle_msg_peer_talker_start ra now tgb cb a ≡ a)
      × (talker_for_tg (delivered rb b.link tga) (handle_msg_peer_talker_start rb now tga ca b).tgs
          ≡ none)
one_side_yields ra rb now tga tgb ca cb a b ha hb ta tb pa pb lt =
    let q : leb b.link.priority b.link.peer_priority ≡ false = ground arith in
    (
      kept ra now tgb cb a ha ta (omega arith),
      handle_msg_peer_talker_start-talker rb now tga ca b hb ∙ rw q refl,
    )

accept_claim-yielded :
    (r : Reflector) (now l d : ℕ) (c : Bytes) (w : World)
    → (accept_claim r now l d c w).link.yielded_tgs ≡ w.link.yielded_tgs
unfolding accept_claim
accept_claim-yielded r now l d c w = ground arith

silent_stop :
    (r : Reflector) (now tg : ℕ) (l : Link)
    → contains tg l.yielded_tgs ≡ true
    → on_local_talker_stop r now tg l ≡ l
unfolding on_local_talker_stop
silent_stop r now tg l h = rw h (ground arith)

silent_audio :
    (r : Reflector) (now tg : ℕ) (samples : Bytes) (l : Link)
    → contains tg l.yielded_tgs ≡ true
    → on_local_audio r now tg samples l ≡ l
unfolding on_local_audio
silent_audio r now tg samples l h = rw h (ground arith)

-- After an accepted claim of a peer with a lower priority value has put off the local talker, the
-- link reports neither the end of that talker nor any more audio of the talk group to the peer.
pub yielded_silent :
    (r : Reflector) (now later wire_tg : ℕ) (callsign samples : Bytes) (w : World)
    → is_accepted r w.link wire_tg ≡ true
    → is_some (talker_for_tg (delivered r w.link wire_tg) w.tgs) ≡ true
    → w.link.peer_priority < w.link.priority
    → (on_local_talker_stop r later
          (delivered r w.link wire_tg)
          (handle_msg_peer_talker_start r now wire_tg callsign w).link
        ≡ (handle_msg_peer_talker_start r now wire_tg callsign w).link)
      × (on_local_audio r later
            (delivered r w.link wire_tg)
            samples
            (handle_msg_peer_talker_start r now wire_tg callsign w).link
          ≡ (handle_msg_peer_talker_start r now wire_tg callsign w).link)
yielded_silent r now later wire_tg callsign samples w h e p =
    let d = delivered r w.link wire_tg in
    let l = map_tg_in w.link wire_tg in
    let y = yielding now d w in
    let in_set : contains d (accept_claim r now l d callsign y).link.yielded_tgs ≡ true =
      rw (accept_claim-yielded r now l d callsign y, contains-insert d d w.link.yielded_tgs)
        (ground arith) in
    rw (yielded r now wire_tg callsign w h e p)
      (silent_stop r later d _ in_set, silent_audio r later d samples _ in_set)
