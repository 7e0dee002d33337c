-- ===== src/Trunk/Guarded.antt =====
-- A peer that is not authenticated, over any number of frames that TrunkLink.cpp receives.
use geu_reflector.Base.{
  ℕ, ◌≡◌, refl, sym, ap, subst, ◌∙◌, Bytes, Bool, true, false, List, [], ◌∷◌, Bool-cases, inl, inr,
  arith,
}
use geu_reflector.Trunk.State.{
  verify, World, Reflector, Hello, heartbeat, hello, talker_start, talker_stop, audio, flush,
  tg_interest, is_inbound_con, is_active, is_outbound_ready, is_inbound_ready,
}
use geu_reflector.Trunk.Peer.{handle_msg_peer_hello}
use geu_reflector.Trunk.Frames.{
  Frame, bad_header, bad_body, odd_frame, message, may_come_first, dispatch, hello_done, reset_rx,
  is_bad_header, on_frame_received, receive_all,
}

-- Is the frame a hello that passes the check of the secret?
abbrev pub proves : Reflector → Bytes → Frame → Bool
proves r secret bad_header = false
proves r secret (bad_body x) = false
proves r secret odd_frame = false
proves r secret (message (hello h)) = verify r h secret
proves r secret (message heartbeat) = false
proves r secret (message (talker_start tg c)) = false
proves r secret (message (talker_stop tg)) = false
proves r secret (message (audio tg c)) = false
proves r secret (message (flush tg)) = false
proves r secret (message (tg_interest c tgs)) = false

-- Nothing has come of what the peer sent: the talk groups and the secret are as they were, and
-- neither connection has had its hello.
record Greeted (w w' : World) : Type 0 where
  tgs : w'.tgs ≡ w.tgs
  secret : w'.link.secret ≡ w.link.secret
  ob : w'.link.ob_hello_received ≡ false
  ib : w'.link.ib_hello_received ≡ false

handle_hello-Greeted :
    (r : Reflector) (i : Bool) (h : Hello) (w : World)
    → verify r h w.link.secret ≡ false
    → w.link.ob_hello_received ≡ false
    → w.link.ib_hello_received ≡ false
    → Greeted w (record w { link = handle_msg_peer_hello r i h w.link })
unfolding handle_msg_peer_hello
handle_hello-Greeted r i h w v o b = record {
  tgs = refl;
  secret = ground arith;
  ob = ground arith;
  ib = ground arith;
}

dispatch-Greeted :
    (r : Reflector) (now : ℕ) (i : Bool) (f : Frame) (w : World)
    → may_come_first f ≡ true
    → proves r w.link.secret f ≡ false
    → w.link.ob_hello_received ≡ false
    → w.link.ib_hello_received ≡ false
    → Greeted w (dispatch r now i f w)
unfolding dispatch may_come_first
dispatch-Greeted r now i bad_header w e v o b = record { tgs = refl; secret = refl; ob = o; ib = b }
dispatch-Greeted r now i (bad_body x) w e v o b = record {
  tgs = refl;
  secret = refl;
  ob = o;
  ib = b;
}
dispatch-Greeted r now i odd_frame w e v o b = record { tgs = refl; secret = refl; ob = o; ib = b }
dispatch-Greeted r now i (message heartbeat) w e v o b = record {
  tgs = refl;
  secret = refl;
  ob = o;
  ib = b;
}
dispatch-Greeted r now i (message (hello h)) w e v o b = handle_hello-Greeted r i h w v o b
dispatch-Greeted r now i (message (talker_start tg c)) w e v o b = absurd (ground arith)
dispatch-Greeted r now i (message (talker_stop tg)) w e v o b = absurd (ground arith)
dispatch-Greeted r now i (message (audio tg c)) w e v o b = absurd (ground arith)
dispatch-Greeted r now i (message (flush tg)) w e v o b = absurd (ground arith)
dispatch-Greeted r now i (message (tg_interest c tgs)) w e v o b = absurd (ground arith)

reset-Greeted :
    (i : Bool) (w : World)
    → w.link.ob_hello_received ≡ false
    → w.link.ib_hello_received ≡ false
    → Greeted w (record w { link = reset_rx i w.link })
reset-Greeted true w o b = record { tgs = refl; secret = refl; ob = o; ib = b }
reset-Greeted false w o b = record { tgs = refl; secret = refl; ob = o; ib = b }

on_frame_received-Greeted :
    (r : Reflector) (now con : ℕ) (f : Frame) (w : World)
    → proves r w.link.secret f ≡ false
    → w.link.ob_hello_received ≡ false
    → w.link.ib_hello_received ≡ false
    → Greeted w (on_frame_received r now con f w)
unfolding on_frame_received
on_frame_received-Greeted r now con f w v o b =
    let i = is_inbound_con w.link con in
    let nothing : Greeted w w = record { tgs = refl; secret = refl; ob = o; ib = b } in
    let early : hello_done i w.link ≡ false = ground arith in
    elim (Bool-cases (is_bad_header f)) [
      | inl e ↦ rw e nothing
      | inr e ↦ elim (Bool-cases (may_come_first f)) [
        | inr m ↦ rw (e, early, m) nothing
        | inl m ↦
            let a = reset-Greeted i w o b in
            let c =
              dispatch-Greeted r now i f (record w { link = reset_rx i w.link }) m
                (ap (λ k. proves r k f) a.secret ∙ v) a.ob a.ib in
            rw (e, early, m)
              (record { tgs = c.tgs ∙ a.tgs; secret = c.secret ∙ a.secret; ob = c.ob; ib = c.ib })
      ]
    ]

-- None of these frames is a hello that passes the check of the secret.
abbrev pub NoneProves : Reflector → Bytes → List (ℕ × ℕ × Frame) → Type 0
NoneProves r secret [] = Unit
NoneProves r secret ((now, con, f) ∷ fs) = (proves r secret f ≡ false) × NoneProves r secret fs

receive_all-Greeted :
    (r : Reflector) (fs : List (ℕ × ℕ × Frame)) (w : World)
    → NoneProves r w.link.secret fs
    → w.link.ob_hello_received ≡ false
    → w.link.ib_hello_received ≡ false
    → Greeted w (receive_all r fs w)
unfolding receive_all
receive_all-Greeted r [] w v o b = record { tgs = refl; secret = refl; ob = o; ib = b }
receive_all-Greeted r ((now, con, f) ∷ fs) w v o b =
    let a = on_frame_received-Greeted r now con f w v.0 o b in
    let c =
      receive_all-Greeted r fs (on_frame_received r now con f w)
        (subst (λ k. NoneProves r k fs) (sym a.secret) v.1) a.ob a.ib in
    record { tgs = c.tgs ∙ a.tgs; secret = c.secret ∙ a.secret; ob = c.ob; ib = c.ib }

-- Whatever frames come, on whatever connections, before a hello has been taken on any of them: if
-- none of these frames is a hello that passes the check of the secret, no talk group changes, and
-- the link does not become active.
pub receive_all-unauthenticated :
    (r : Reflector) (fs : List (ℕ × ℕ × Frame)) (w : World)
    → NoneProves r w.link.secret fs
    → w.link.ob_hello_received ≡ false
    → w.link.ib_hello_received ≡ false
    → ((receive_all r fs w).tgs ≡ w.tgs) × (is_active (receive_all r fs w).link ≡ false)
unfolding is_active is_outbound_ready is_inbound_ready
receive_all-unauthenticated r fs w v o b =
    let c = receive_all-Greeted r fs w v o b in (c.tgs, ground (arith, c.ob, c.ib))
