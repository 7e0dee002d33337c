-- ===== src/Twin/Strangers.antt =====
-- TwinLink.cpp and the twin server: connections on which no hello of a twin comes.
use geu_reflector.Base.{
  ℕ, ◌==◌, ◌≡◌, refl, ◌∙◌, Bool, true, false, not, ◌&&◌, List, [], ◌∷◌, Option, none, Bytes,
  bytes_eq, Bool-cases, inl, inr, arith,
}
use geu_reflector.Trunk.State.{Reflector, Hello, heartbeat, hello, verify, role_twin}
use geu_reflector.Wire.Links.{LinkMsg, peer}
use geu_reflector.Nodes.Json.{Json}
use geu_reflector.Satellite.Frames.{
  SatFrame, bad_header, bad_body, odd_frame, message, may_begin, is_first, has_bad_header,
}
use geu_reflector.Twin.State.{TwinLink, TwinWorld}
use geu_reflector.Twin.Frames.{
  refuse_twin, twin_hello_received, twin_rx_reset, at_twin, handle_twin_msg, dispatch_twin,
  twin_frame_received,
}
use geu_reflector.Twin.Server.{is_twin_hello}

abbrev pub proves_msg : Reflector → TwinLink → LinkMsg → Bool
proves_msg r l (peer (hello h)) = is_twin_hello r l h
proves_msg r l m = false

-- Is the frame the hello of a twin that has the secret and the prefix of the link?
abbrev pub proves_twin : Reflector → TwinLink → SatFrame → Bool
proves_twin r l bad_header = false
proves_twin r l (bad_body first) = false
proves_twin r l odd_frame = false
proves_twin r l (message m) = proves_msg r l m

-- None of these frames is.
abbrev pub NoneProves : Reflector → TwinLink → List (ℕ × SatFrame) → Type 0
NoneProves r l [] = Unit
NoneProves r l ((now, f) ∷ fs) = (proves_twin r l f ≡ false) × NoneProves r l fs

-- Nothing has come of the frames: the reflector is as it was, and the link has no greeting on its
-- outbound connection, and its inbound connection and its list of clients as before.
pub record Unheard (w w' : TwinWorld) : Type 0 where
  pub parent : w'.parent ≡ w.parent
  pub waiting : w'.link.ob_hello_received ≡ false
  pub secret : w'.link.secret ≡ w.link.secret
  pub prefix : w'.link.local_prefix ≡ w.link.local_prefix
  pub inbound : w'.link.inbound_con ≡ w.link.inbound_con
  pub roster : w'.link.partner_nodes ≡ w.link.partner_nodes

unheard : (w : TwinWorld) → w.link.ob_hello_received ≡ false → Unheard w w
unheard w h = record {
  parent = refl;
  waiting = h;
  secret = refl;
  prefix = refl;
  inbound = refl;
  roster = refl;
}

Unheard-then : (u v w : TwinWorld) → Unheard u v → Unheard v w → Unheard u w
Unheard-then u v w a b = record {
  parent = b.parent ∙ a.parent;
  waiting = b.waiting;
  secret = b.secret ∙ a.secret;
  prefix = b.prefix ∙ a.prefix;
  inbound = b.inbound ∙ a.inbound;
  roster = b.roster ∙ a.roster;
}

Unheard-refused :
    (w : TwinWorld) → w.link.ob_hello_received ≡ false → Unheard w (at_twin refuse_twin w)
unfolding refuse_twin
Unheard-refused w o = record {
  parent = refl;
  waiting = o;
  secret = refl;
  prefix = refl;
  inbound = refl;
  roster = refl;
}

refused-Unheard :
    (r : Reflector) (h : Hello) (w : TwinWorld)
    → is_twin_hello r w.link h ≡ false
    → w.link.ob_hello_received ≡ false
    → Unheard w (at_twin (twin_hello_received r false h) w)
unfolding twin_hello_received refuse_twin is_twin_hello
refused-Unheard r h w bad o = elim (Bool-cases (h.role == role_twin)) [
  | inr a ↦ rw a (Unheard-refused w o)
  | inl a ↦ elim (Bool-cases (verify r h w.link.secret)) [
    | inr b ↦ rw (a, b) (Unheard-refused w o)
    | inl b ↦
        let c : bytes_eq h.local_prefix w.link.local_prefix ≡ false = rw (a, b) at bad in
        rw (a, b, c) (Unheard-refused w o)
  ]
]

module _ (write : Json → Bytes) (parse_json : Bytes → Option Json) (r : Reflector) where
  first-Unheard :
      (now : ℕ) (m : LinkMsg) (w : TwinWorld)
      → may_begin m ≡ true
      → proves_msg r w.link m ≡ false
      → w.link.ob_hello_received ≡ false
      → Unheard w (handle_twin_msg write parse_json r now false m w)
  unfolding may_begin handle_twin_msg
  first-Unheard now (peer heartbeat) w f v o = unheard w o
  first-Unheard now (peer (hello h)) w f v o = refused-Unheard r h w v o
  first-Unheard now m w f v o = absurd (ground arith)

  dispatch-Unheard :
      (now : ℕ) (f : SatFrame) (w : TwinWorld)
      → is_first f ≡ true
      → proves_twin r w.link f ≡ false
      → w.link.ob_hello_received ≡ false
      → Unheard w (dispatch_twin write parse_json r now false f w)
  unfolding dispatch_twin is_first
  dispatch-Unheard now bad_header w f v o = unheard w o
  dispatch-Unheard now (bad_body first) w f v o = unheard w o
  dispatch-Unheard now odd_frame w f v o = unheard w o
  dispatch-Unheard now (message m) w f v o = first-Unheard now m w f v o

  reset-Unheard :
      (w : TwinWorld)
      → w.link.ob_hello_received ≡ false
      → Unheard w (at_twin (twin_rx_reset false) w)
  unfolding twin_rx_reset
  reset-Unheard w o = record {
    parent = refl;
    waiting = o;
    secret = refl;
    prefix = refl;
    inbound = refl;
    roster = refl;
  }

  is_twin_hello_same :
      (u v : TwinWorld) (h : Hello)
      → Unheard u v
      → is_twin_hello r v.link h ≡ is_twin_hello r u.link h
  unfolding is_twin_hello
  is_twin_hello_same u v h s = rw (s.secret, s.prefix) refl

  proves_msg_same :
      (u v : TwinWorld) (m : LinkMsg) → Unheard u v → proves_msg r v.link m ≡ proves_msg r u.link m
  proves_msg_same u v (peer (hello h)) s = is_twin_hello_same u v h s
  proves_msg_same u v m s = refl

  proves_same :
      (u v : TwinWorld) (f : SatFrame)
      → Unheard u v
      → proves_twin r v.link f ≡ proves_twin r u.link f
  proves_same u v (message m) s = proves_msg_same u v m s
  proves_same u v f s = refl

  NoneProves-same :
      (u v : TwinWorld) (fs : List (ℕ × SatFrame))
      → Unheard u v
      → NoneProves r u.link fs
      → NoneProves r v.link fs
  NoneProves-same u v [] s n = tt
  NoneProves-same u v ((now, f) ∷ fs) s n =
      (proves_same u v f s ∙ n.0, NoneProves-same u v fs s n.1)

  frame-Unheard :
      (now : ℕ) (f : SatFrame) (w : TwinWorld)
      → proves_twin r w.link f ≡ false
      → w.link.ob_hello_received ≡ false
      → Unheard w (twin_frame_received write parse_json r now none f w)
  unfolding twin_frame_received
  frame-Unheard now f w v o = elim (Bool-cases (has_bad_header f)) [
    | inl a ↦ rw (twin_frame_received, a) (unheard w o)
    | inr a ↦ elim (Bool-cases (is_first f)) [
      | inr b ↦
          let shut : (not w.link.ob_hello_received && not (is_first f)) ≡ true = ground arith in
          rw (twin_frame_received, a, shut) (unheard w o)
      | inl b ↦
          let u = at_twin (twin_rx_reset false) w in
          let s = reset-Unheard w o in
          let pass : (not w.link.ob_hello_received && not (is_first f)) ≡ false = ground arith in
          rw (twin_frame_received, a, pass)
            (Unheard-then w u (dispatch_twin write parse_json r now false f u) s
              (dispatch-Unheard now f u b (proves_same w u f s ∙ v) s.waiting))
    ]
  ]

  -- The frames of the outbound connection, each with the time at which it comes.
  unfoldable pub receive_twin : List (ℕ × SatFrame) → TwinWorld → TwinWorld
  receive_twin [] w = w
  receive_twin ((now, f) ∷ fs) w =
      receive_twin fs (twin_frame_received write parse_json r now none f w)

  -- Whatever frames come on the outbound connection before its hello: if none of these frames is the
  -- hello of a twin that has the secret and the prefix of the link, the clients, the talk groups,
  -- the trunks and the satellites are as before, and so are the link's inbound connection and its
  -- list of clients, and the hello is still to come.
  pub receive_twin-Unheard :
      (fs : List (ℕ × SatFrame)) (w : TwinWorld)
      → NoneProves r w.link fs
      → w.link.ob_hello_received ≡ false
      → Unheard w (receive_twin fs w)
  unfolding receive_twin
  receive_twin-Unheard [] w v o = unheard w o
  receive_twin-Unheard ((now, f) ∷ fs) w v o =
      let u = twin_frame_received write parse_json r now none f w in
      let s = frame-Unheard now f w v.0 o in
      Unheard-then w u (receive_twin fs u) s
        (receive_twin-Unheard fs u (NoneProves-same w u fs s v.1) s.waiting)
