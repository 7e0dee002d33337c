-- ===== src/Trunk/Claims.antt =====
-- The claims of a peer and its audio, over any number of frames that TrunkLink.cpp receives.
use geu_reflector.Base.{
  ℕ, ◌≡◌, ◌≢◌, ap, Bool, true, false, not, ◌&&◌, ◌||◌, List, [], ◌∷◌, Option, none, some, Bytes,
  contains, contains-insert, contains-remove, is_some, leb, ◌==◌, Bool-cases, Option-cases, some_eq,
  subst, inl, inr, arith,
}
use geu_reflector.TgHandler.State.{talker_for_tg, seconds}
use geu_reflector.Trunk.State.{
  World, Link, Reflector, Effect, external_start, broadcast_audio, Hello, heartbeat, hello,
  talker_start, talker_stop, audio, flush, tg_interest, alias_to_local, map_tg_in, is_inbound_con,
}
use geu_reflector.Trunk.Peer.{
  is_accepted, handle_msg_peer_hello, tie_break, accept_claim, handle_msg_peer_talker_start,
  handle_msg_peer_talker_stop, handle_msg_peer_audio, handle_msg_peer_flush,
}
use geu_reflector.Trunk.Interest.{note_interest, handle_msg_peer_tg_interest}
use geu_reflector.Trunk.Frames.{
  Frame, bad_header, bad_body, odd_frame, message, dispatch, hello_done, reset_rx, may_come_first,
  is_bad_header, on_frame_received, receive_all,
}

-- Is the event the announcement of a talker on this talk group?
abbrev announces : ℕ → Effect → Bool
announces t e = elim e [ external_start d c ↦ t == d | _ ↦ false ]

pub announced : ℕ → List Effect → Bool
announced t [] = false
announced t (e ∷ es) = announces t e || announced t es

-- The talk group to whose clients the event sends audio.
abbrev audio_of : Effect → Option ℕ
audio_of e = elim e [ broadcast_audio d samples ↦ some d | _ ↦ none ]

-- All audio was sent after a talker was announced on its talk group, the newest event first.
pub justified : List Effect → Bool
justified [] = true
justified (e ∷ es) =
    let rest = justified es in elim (audio_of e) [ none ↦ rest | some d ↦ announced d es && rest ]

no_some : (w : World) → none ≢ some w
no_some w e = ground (arith, e)

record Claimed (r : Reflector) (l : Link) : Type 0 where
  claims :
      (tg : ℕ) → contains tg l.peer_active_tgs ≡ true → announced (alias_to_local r tg) l.out ≡ true
  sound : justified l.out ≡ true

hello-Claimed :
    (r : Reflector) (i : Bool) (h : Hello) (l : Link)
    → Claimed r l
    → Claimed r (handle_msg_peer_hello r i h l)
unfolding handle_msg_peer_hello announced justified
hello-Claimed r i h l c = record {
  claims = λ tg e. ground (arith, c.claims tg);
  sound = ground (arith, c.sound);
}

accept_claim-Claimed :
    (r : Reflector) (now l : ℕ) (cs : Bytes) (w : World)
    → Claimed r w.link
    → Claimed r (accept_claim r now l (alias_to_local r l) cs w).link
unfolding accept_claim announced justified
accept_claim-Claimed r now l cs w c = record {
  claims = λ tg e. elim (Bool-cases (tg == l)) [
    | inl q ↦
        let al : alias_to_local r tg ≡ alias_to_local r l = ap (alias_to_local r) (ground arith) in
        ground (arith, al)
    | inr q ↦ ground (arith, c.claims tg, contains-insert l tg w.link.peer_active_tgs)
  ];
  sound = ground (arith, c.sound);
}

stop-Claimed :
    (r : Reflector) (now tg : ℕ) (w : World)
    → Claimed r w.link
    → Claimed r (handle_msg_peer_talker_stop r now tg w).link
unfolding handle_msg_peer_talker_stop announced justified
stop-Claimed r now tg w c = record {
  claims = λ t e.
      ground (arith, c.claims t, contains-remove (map_tg_in w.link tg) t w.link.peer_active_tgs);
  sound = ground (arith, c.sound);
}

audio-Claimed :
    (r : Reflector) (now tg : ℕ) (samples : Bytes) (w : World)
    → Claimed r w.link
    → Claimed r (handle_msg_peer_audio r now tg samples w).link
unfolding handle_msg_peer_audio announced justified
audio-Claimed r now tg samples w c = record {
  claims = λ t e. ground (arith, c.claims t);
  sound = ground (arith, c.sound, c.claims (map_tg_in w.link tg));
}

flush-Claimed :
    (r : Reflector) (tg : ℕ) (w : World)
    → Claimed r w.link
    → Claimed r (handle_msg_peer_flush r tg w).link
unfolding handle_msg_peer_flush announced justified
flush-Claimed r tg w c = record {
  claims = λ t e. ground (arith, c.claims t);
  sound = ground (arith, c.sound);
}

tie_break-Claimed :
    (r : Reflector) (now d : ℕ) (w w' : World)
    → Claimed r w.link
    → tie_break now d w ≡ some w'
    → Claimed r w'.link
unfolding tie_break
tie_break-Claimed r now d w w' c e = elim (Bool-cases (is_some (talker_for_tg d w.tgs))) [
  | inr n ↦ subst (λ v. Claimed r v.link) (some_eq (rw n at e)) c
  | inl n ↦ elim (Bool-cases (leb w.link.priority w.link.peer_priority)) [
    | inl q ↦ absurd (no_some w' (rw (n, q) at e))
    | inr q ↦
        subst (λ v. Claimed r v.link) (some_eq (rw (n, q) at e))
          (record { claims = c.claims; sound = c.sound })
  ]
]

start-Claimed :
    (r : Reflector) (now tg : ℕ) (cs : Bytes) (w : World)
    → Claimed r w.link
    → Claimed r (handle_msg_peer_talker_start r now tg cs w).link
unfolding handle_msg_peer_talker_start
start-Claimed r now tg cs w c =
    let l = map_tg_in w.link tg in
    elim (Bool-cases (is_accepted r w.link tg)) [
      | inr n ↦ rw n c
      | inl n ↦ elim (Option-cases (tie_break now (alias_to_local r l) w)) [
        | inl e ↦ rw (n, e) c
        | inr (w', e) ↦
            rw (n, e)
              (accept_claim-Claimed r now l cs w'
                (tie_break-Claimed r now (alias_to_local r l) w w' c e))
      ]
    ]

interest-Claimed :
    (r : Reflector) (now : ℕ) (tgs : List ℕ) (l : Link)
    → Claimed r l
    → Claimed r (note_interest now tgs l)
unfolding note_interest
interest-Claimed r now [] l c = c
interest-Claimed r now (tg ∷ tgs) l c = elim (Bool-cases (map_tg_in l tg == 0)) [
  | inl e ↦ rw e (interest-Claimed r now tgs l c)
  | inr e ↦ rw e (interest-Claimed r now tgs _ (record { claims = c.claims; sound = c.sound }))
]

noted-Claimed :
    (r : Reflector) (now : ℕ) (tgs : List ℕ) (l : Link)
    → Claimed r l
    → Claimed r (handle_msg_peer_tg_interest now tgs l)
unfolding handle_msg_peer_tg_interest announced justified
noted-Claimed r now tgs l c =
    let d = interest-Claimed r now tgs l c in
    record { claims = λ t e. d.claims t e; sound = d.sound }

dispatch-Claimed :
    (r : Reflector) (now : ℕ) (i : Bool) (f : Frame) (w : World)
    → Claimed r w.link
    → Claimed r (dispatch r now i f w).link
unfolding dispatch
dispatch-Claimed r now i bad_header w c = c
dispatch-Claimed r now i (bad_body x) w c = c
dispatch-Claimed r now i odd_frame w c = c
dispatch-Claimed r now i (message heartbeat) w c = c
dispatch-Claimed r now i (message (hello h)) w c = hello-Claimed r i h w.link c
dispatch-Claimed r now i (message (talker_start tg cs)) w c = start-Claimed r now tg cs w c
dispatch-Claimed r now i (message (talker_stop tg)) w c = stop-Claimed r now tg w c
dispatch-Claimed r now i (message (audio tg samples)) w c = audio-Claimed r now tg samples w c
dispatch-Claimed r now i (message (flush tg)) w c = flush-Claimed r tg w c
dispatch-Claimed r now i (message (tg_interest id tgs)) w c =
    noted-Claimed r (seconds now) tgs w.link c

reset-Claimed : (r : Reflector) (i : Bool) (l : Link) → Claimed r l → Claimed r (reset_rx i l)
reset-Claimed r true l c = record { claims = c.claims; sound = c.sound }
reset-Claimed r false l c = record { claims = c.claims; sound = c.sound }

on_frame_received-Claimed :
    (r : Reflector) (now con : ℕ) (f : Frame) (w : World)
    → Claimed r w.link
    → Claimed r (on_frame_received r now con f w).link
unfolding on_frame_received
on_frame_received-Claimed r now con f w c =
    let i = is_inbound_con w.link con in
    elim (Bool-cases (is_bad_header f)) [
      | inl e ↦ rw e c
      | inr e ↦ elim (Bool-cases (not (hello_done i w.link) && not (may_come_first f))) [
        | inl g ↦ rw (e, g) c
        | inr g ↦
            rw (e, g)
              (dispatch-Claimed r now i f (record w { link = reset_rx i w.link })
                (reset-Claimed r i w.link c))
      ]
    ]

receive_all-Claimed :
    (r : Reflector) (fs : List (ℕ × ℕ × Frame)) (w : World)
    → Claimed r w.link
    → Claimed r (receive_all r fs w).link
unfolding receive_all
receive_all-Claimed r [] w c = c
receive_all-Claimed r ((now, con, f) ∷ fs) w c =
    receive_all-Claimed r fs (on_frame_received r now con f w)
      (on_frame_received-Claimed r now con f w c)

-- Whatever frames come: where the link starts with no talk group held by the peer and with no event,
-- every audio that is sent to the clients of a talk group follows an accepted talker start on it.
pub receive_all-justified :
    (r : Reflector) (fs : List (ℕ × ℕ × Frame)) (w : World)
    → w.link.peer_active_tgs ≡ []
    → w.link.out ≡ []
    → justified (receive_all r fs w).link.out ≡ true
unfolding justified contains
receive_all-justified r fs w a o =
    (receive_all-Claimed r fs w
      (record { claims = λ tg e. absurd (ground (arith, a)); sound = ground (arith, o) })).sound
