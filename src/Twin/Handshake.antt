-- ===== src/Twin/Handshake.antt =====
-- TwinLink.cpp and the twin server: two reflectors that connect as twins.
use geu_reflector.Base.{
  ℕ, ◌==◌, ◌≡◌, refl, ◌∙◌, ap, subst, true, false, not, ◌&&◌, ◌∷◌, Option, none, Bytes, find,
  bytes_eq, bytes_eq_self, is_some, Option-cases, inl, inr, arith,
}
use geu_reflector.Trunk.State.{Reflector, Hello, verify, role_twin, make_hello}
use geu_reflector.Wire.Links.{packs_link}
use geu_reflector.Nodes.Json.{Json}
use geu_reflector.Server.Handshake.{IsSigned, verify-make_hello, make_hello-local_prefix}
use geu_reflector.Satellite.Frames.{message, may_begin, is_first, has_bad_header}
use geu_reflector.Twin.State.{
  TwinLink, TwinWorld, sent_outbound, sent_inbound, is_twin_active, is_inbound_open, twin_hello,
  send_on_twin_outbound, send_on_twin_inbound,
}
use geu_reflector.Twin.Connect.{twin_connected, accept_twin_inbound}
use geu_reflector.Twin.Frames.{
  twin_hello_received, handle_twin_msg, dispatch_twin, twin_frame_received, twin_rx_reset,
}
use geu_reflector.Twin.Server.{TwinServer, is_twin_hello, twin_pending_frame_received}

pub hello-role :
    (r : Reflector) (id prefix : Bytes) (priority : ℕ) (secret : Bytes) (role : ℕ)
    → (make_hello r id prefix priority secret role).role ≡ role
unfolding make_hello
hello-role r id prefix priority secret role = elim (Option-cases r.random) [
  | inl e ↦ rw (make_hello, e) refl
  | inr (n, e) ↦ rw (make_hello, e) refl
]

abbrev pub twin_greeting : Reflector → TwinLink → Hello
twin_greeting r l = make_hello r l.peer_id_config l.local_prefix l.priority l.secret role_twin

-- Two links that are twins of each other: they have one secret, of which each makes a digest that
-- the other makes too, and one prefix, and their hellos are packed.
pub record AreTwins (ra rb : Reflector) (a b : TwinLink) : Type 0 where
  pub secret : a.secret ≡ b.secret
  pub prefix : a.local_prefix ≡ b.local_prefix
  pub nonce : Bytes
  pub digest : Bytes
  pub signed : IsSigned ra rb a.secret nonce digest
  pub packed : packs_link (twin_hello ra a) ≡ true

checks-passed :
    (r : Reflector) (l : TwinLink) (h : Hello)
    → (h.role == role_twin) ≡ true
    → verify r h l.secret ≡ true
    → bytes_eq h.local_prefix l.local_prefix ≡ true
    → is_twin_hello r l h ≡ true
unfolding is_twin_hello
checks-passed r l h a b c = ground arith

-- The hello of a twin passes the check of the other.
greeting-passes :
    (ra rb : Reflector) (a b : TwinLink)
    → AreTwins ra rb a b
    → is_twin_hello rb b (twin_greeting ra a) ≡ true
greeting-passes ra rb a b t =
    let role = hello-role ra a.peer_id_config a.local_prefix a.priority a.secret role_twin in
    let prefix =
      make_hello-local_prefix ra a.peer_id_config a.local_prefix a.priority a.secret role_twin in
    checks-passed rb b (twin_greeting ra a) (ap (λ n. n == role_twin) role)
      (subst (λ k. verify rb (twin_greeting ra a) k ≡ true) t.secret
        (verify-make_hello ra a.peer_id_config a.local_prefix a.priority a.secret role_twin rb
          t.nonce t.digest t.signed))
      (ap (λ k. bytes_eq k b.local_prefix) (prefix ∙ t.prefix) ∙ bytes_eq_self b.local_prefix)

-- A hello that passes the check is taken.
hello_taken :
    (r : Reflector) (h : Hello) (l : TwinLink)
    → is_twin_hello r l h ≡ true
    → l.con_connected ≡ true
    → is_twin_active (twin_hello_received r false h l) ≡ true
unfolding is_twin_hello twin_hello_received is_twin_active
hello_taken r h l good up = ground arith

-- The listening twin takes the connection and answers.
accepts :
    (ra rb : Reflector) (con : ℕ) (a : TwinLink) (s : TwinServer)
    → AreTwins ra rb a s.world.link
    → packs_link (twin_hello rb s.world.link) ≡ true
    → is_some (find con s.twin_pending) ≡ true
    → is_inbound_open s.world.link ≡ false
    → (is_twin_active (twin_pending_frame_received rb con (message (twin_hello ra a)) s).world.link
        ≡ true)
      × ((twin_pending_frame_received rb con (message (twin_hello ra a)) s).world.link.out
          ≡ sent_inbound (twin_hello rb s.world.link) ∷ s.world.link.out)
unfolding twin_pending_frame_received twin_hello accept_twin_inbound send_on_twin_inbound
    is_twin_active
accepts ra rb con a s t p there free =
    let good = greeting-passes ra rb a s.world.link t in
    (rw (there, good, free, p) (ground arith), rw (there, good, free, p) refl)

same_check :
    (r : Reflector) (h : Hello) (l : TwinLink)
    → is_twin_hello r (record l { ob_hb_rx_cnt = 0 }) h ≡ is_twin_hello r l h
unfolding is_twin_hello
same_check r h l = refl

-- The link that has connected: it waits for a hello that passes the same check.
connected :
    (r : Reflector) (l : TwinLink) (h : Hello)
    → ((twin_connected r l).con_connected ≡ true)
      × (is_twin_hello r (twin_connected r l) h ≡ is_twin_hello r l h)
unfolding twin_connected send_on_twin_outbound is_twin_hello
connected r l h = (ground arith, ground arith)

module _ (write : Json → Bytes) (parse_json : Bytes → Option Json) where
  -- The connecting twin takes the answer.
  answered :
      (ra rb : Reflector) (now : ℕ) (b : TwinLink) (w : TwinWorld)
      → is_twin_hello ra w.link (twin_greeting rb b) ≡ true
      → w.link.con_connected ≡ true
      → is_twin_active
          (twin_frame_received write parse_json ra now none (message (twin_hello rb b)) w).link
        ≡ true
  unfolding twin_hello twin_frame_received has_bad_header is_first may_begin dispatch_twin
      handle_twin_msg twin_rx_reset
  answered ra rb now b w good up =
      let gate : (not w.link.ob_hello_received && false) ≡ false = ground arith in
      let l = record w.link { ob_hb_rx_cnt = 0 } in
      let step : (twin_frame_received write parse_json ra now none (message (twin_hello rb b))
            w).link
          ≡ twin_hello_received ra false (twin_greeting rb b) l =
        rw gate refl in
      ap is_twin_active step
      ∙ hello_taken ra (twin_greeting rb b) l (same_check ra (twin_greeting rb b) w.link ∙ good) up

  -- The two hellos of a connection between twins: the one that connects writes its hello; with that
  -- hello the other, on whose server the connection is pending and that has no open inbound
  -- connection, is active and writes its own; and with that one the first is active.
  pub twin_handshake :
      (ra rb : Reflector) (now con : ℕ) (a : TwinWorld) (s : TwinServer)
      → AreTwins ra rb a.link s.world.link
      → AreTwins rb ra s.world.link a.link
      → is_some (find con s.twin_pending) ≡ true
      → is_inbound_open s.world.link ≡ false
      → ((twin_connected ra a.link).out ≡ sent_outbound (twin_hello ra a.link) ∷ a.link.out)
        × (is_twin_active
              (twin_pending_frame_received rb con (message (twin_hello ra a.link)) s).world.link
            ≡ true)
        × ((twin_pending_frame_received rb con (message (twin_hello ra a.link)) s).world.link.out
            ≡ sent_inbound (twin_hello rb s.world.link) ∷ s.world.link.out)
        × (is_twin_active
              (twin_frame_received write parse_json ra now none
                (message (twin_hello rb s.world.link))
                (record a { link = twin_connected ra a.link })).link
            ≡ true)
  unfolding twin_connected send_on_twin_outbound twin_hello
  twin_handshake ra rb now con a s t u there free =
      let (x, y) = accepts ra rb con a.link s t u.packed there free in
      let w = record a { link = twin_connected ra a.link } in
      let (up, same) = connected ra a.link (twin_greeting rb s.world.link) in
      (
        rw (t.packed) refl,
        x,
        y,
        answered ra rb now s.world.link w (same ∙ greeting-passes rb ra s.world.link a.link u) up,
      )
