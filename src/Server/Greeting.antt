-- ===== src/Server/Greeting.antt =====
-- Reflector.cpp and TrunkLink.cpp: the two hellos of a connection, from the bytes that one side
-- writes to the state of the other side's link.
use geu_reflector.Base.{
  update_at-there, ℕ, ◌≡◌, refl, sym, ap, subst, ◌∙◌, true, false, not, ◌&&◌, some, Bytes, bytes_eq,
  bytes_eq_self, find, find-assign, is_empty, is_some, get_elem?, take, All, ==_self, arith,
}
use geu_reflector.Trunk.State.{
  Link, World, Reflector, Hello, hello, verify, make_hello, role_peer, is_outbound_ready,
  is_inbound_con,
}
use geu_reflector.Trunk.Prefixes.{split_prefixes, join_prefixes}
use geu_reflector.Trunk.Send.{own_hello}
use geu_reflector.Trunk.Connect.{accept_inbound_connection}
use geu_reflector.Trunk.Peer.{handle_msg_peer_hello}
use geu_reflector.Trunk.Frames.{message, on_frame_received, dispatch, may_come_first, is_bad_header}
use geu_reflector.Wire.Peers.{pack_msg, packs, is_msg}
use geu_reflector.Wire.Frames.{frame_of-pack_msg, on_frame_bytes}
use geu_reflector.Server.State.{TrunkServer}
use geu_reflector.Server.Prefixes.{same_prefixes}
use geu_reflector.Server.Pending.{
  pending_hello, judge, matched, on_verdict, hand_over, trunk_pending_frame_received,
}
use geu_reflector.Server.Admission.{Passes, judge-first}
use geu_reflector.Server.Handshake.{
  IsSigned, verify-make_hello, make_hello-id, make_hello-local_prefix, make_hello-priority,
  pending_hello-pack_msg, Greets, accept_inbound_connection-Greets,
}

-- The two ends of a link are configured for each other.
pub record AreEnds (connecting listening : Link) : Type 0 where
  pub section : connecting.peer_id_config ≡ listening.section
  pub named : is_empty listening.section ≡ false
  pub secret : connecting.secret ≡ listening.secret
  pub prefixes :
      same_prefixes listening.routes.remote_prefix
        (split_prefixes (join_prefixes connecting.routes.local_prefix))
      ≡ true

-- A hello that passes the check makes the outbound connection ready.
on_hello-ready :
    (r : Reflector) (now con : ℕ) (w : World) (h : Hello)
    → verify r h w.link.secret ≡ true
    → is_empty h.id ≡ false
    → w.link.con_connected ≡ true
    → is_inbound_con w.link con ≡ false
    → (is_outbound_ready (on_frame_received r now con (message (hello h)) w).link ≡ true)
      × ((on_frame_received r now con (message (hello h)) w).link.peer_priority ≡ h.priority)
unfolding on_frame_received dispatch is_bad_header may_come_first handle_msg_peer_hello
    is_outbound_ready
on_hello-ready r now con w h good named up out =
    let passed : (not w.link.ob_hello_received && false) ≡ false = ground arith in
    rw (out, named, good, up, passed) (refl, refl)

-- The connection is that of the link at place `i`, which was `l`.
pub record Joined (r : Reflector) (con i priority : ℕ) (l : Link) (s : TrunkServer) : Type 0 where
  pub link : Link
  pub there : get_elem? s.links i ≡ some link
  pub greets : Greets r priority l link
  pub mapped : find con s.inbound_map ≡ some i

module _ (ra rb : Reflector) (la lb : Link) (nonce digest : Bytes) where
  abbrev pub sent : Hello
  sent =
      make_hello ra la.peer_id_config (join_prefixes la.routes.local_prefix) la.priority la.secret
        role_peer

  sent-Passes : AreEnds la lb → IsSigned ra rb la.secret nonce digest → Passes rb sent lb
  sent-Passes ends g = record {
    section =
        subst (λ x. bytes_eq x lb.section ≡ true)
          (sym
            (make_hello-id ra la.peer_id_config _ la.priority la.secret role_peer ∙ ends.section))
          (bytes_eq_self lb.section);
    secret =
        subst (λ k. verify rb sent k ≡ true) ends.secret
          (verify-make_hello ra la.peer_id_config _ la.priority la.secret role_peer rb nonce digest
            g);
    prefixes =
        subst (λ p. same_prefixes lb.routes.remote_prefix (split_prefixes p) ≡ true)
          (sym (make_hello-local_prefix ra la.peer_id_config _ la.priority la.secret role_peer))
          ends.prefixes;
  }

  -- The server's state after the first frame, for a hello that unpacks and has a place.
  handed_over :
      (con timer i : ℕ) (bytes : Bytes) (h : Hello) (s : TrunkServer)
      → find con s.pending ≡ some timer
      → pending_hello bytes ≡ some h
      → is_empty h.id ≡ false
      → judge rb h s.links 0 ≡ matched i
      → trunk_pending_frame_received rb con bytes s ≡ hand_over rb con timer h i s
  unfolding trunk_pending_frame_received on_verdict
  handed_over con timer i bytes h s e u n j = rw (trunk_pending_frame_received, e, u, n, j) refl

  hand_over-Greets :
      (con timer i : ℕ) (h : Hello) (s : TrunkServer)
      → get_elem? s.links i ≡ some lb
      → is_some lb.inbound_con ≡ false
      → packs (own_hello rb lb) ≡ true
      → Joined rb con i h.priority lb (hand_over rb con timer h i s)
  unfolding hand_over
  hand_over-Greets con timer i h s e free ok = record {
    link = accept_inbound_connection rb con h lb;
    there = update_at-there i (accept_inbound_connection rb con h) s.links lb e;
    greets = accept_inbound_connection-Greets rb con h lb free ok;
    mapped = rw (find-assign con con i s.inbound_map, ==_self con) refl;
  }

  -- The hello that a connecting link writes makes the connection that of the first link with its
  -- section: that link is ready on it, knows the priority and writes its own hello, where the two
  -- ends are configured for each other, the nonce and the digest can be made, both hellos pack and
  -- the link has no inbound connection.
  pub trunk_pending_frame_received-Greets :
      (con timer i : ℕ) (s : TrunkServer)
      → AreEnds la lb
      → IsSigned ra rb la.secret nonce digest
      → is_msg (own_hello ra la) ≡ true
      → packs (own_hello ra la) ≡ true
      → packs (own_hello rb lb) ≡ true
      → is_some lb.inbound_con ≡ false
      → find con s.pending ≡ some timer
      → get_elem? s.links i ≡ some lb
      → All (λ l. bytes_eq la.peer_id_config l.section ≡ false) (take i s.links)
      → Joined rb con i la.priority lb
          (trunk_pending_frame_received rb con (pack_msg (own_hello ra la)).0 s)
  unfolding own_hello
  trunk_pending_frame_received-Greets con timer i s ends g v ok ok' free e there first =
      let id_sent =
        make_hello-id ra la.peer_id_config (join_prefixes la.routes.local_prefix) la.priority
          la.secret role_peer in
      let named : is_empty sent.id ≡ false = rw (id_sent, ends.section) ends.named in
      let j : judge rb sent s.links 0 ≡ matched i =
        judge-first rb sent s.links 0 i lb there
          (subst (λ x. All (λ l. bytes_eq x l.section ≡ false) (take i s.links)) (sym id_sent)
            first)
          (sent-Passes ends g)
        ∙ ap matched (omega arith) in
      let arrived : trunk_pending_frame_received rb con (pack_msg (hello sent)).0 s
          ≡ hand_over rb con timer sent i s =
        handed_over con timer i (pack_msg (hello sent)).0 sent s e
          (pending_hello-pack_msg sent v ok) named j in
      subst
        (λ n.
          Joined rb con i n lb (trunk_pending_frame_received rb con (pack_msg (hello sent)).0 s))
        (make_hello-priority ra la.peer_id_config (join_prefixes la.routes.local_prefix) la.priority
          la.secret role_peer)
        (subst (Joined rb con i sent.priority lb) (sym arrived)
          (hand_over-Greets con timer i sent s there free ok'))

-- The answer: a hello of the other end makes the connection of the link ready, where the other end
-- has its secret and a name, and gives the link the other end's priority.
on_frame_bytes-ready :
    (ra rb : Reflector) (now con : ℕ) (w : World) (lb : Link) (nonce digest : Bytes)
    → IsSigned rb ra lb.secret nonce digest
    → lb.secret ≡ w.link.secret
    → is_empty lb.peer_id_config ≡ false
    → is_msg (own_hello rb lb) ≡ true
    → packs (own_hello rb lb) ≡ true
    → w.link.con_connected ≡ true
    → is_inbound_con w.link con ≡ false
    → (is_outbound_ready (on_frame_bytes ra now con (pack_msg (own_hello rb lb)).0 w).link ≡ true)
      × ((on_frame_bytes ra now con (pack_msg (own_hello rb lb)).0 w).link.peer_priority
          ≡ lb.priority)
unfolding on_frame_bytes own_hello packs
on_frame_bytes-ready ra rb now con w lb nonce digest g key named v ok up out =
    let h =
      make_hello rb lb.peer_id_config (join_prefixes lb.routes.local_prefix) lb.priority lb.secret
        role_peer in
    let id_h =
      make_hello-id rb lb.peer_id_config (join_prefixes lb.routes.local_prefix) lb.priority
        lb.secret role_peer in
    let good : verify ra h w.link.secret ≡ true =
      subst (λ k. verify ra h k ≡ true) key
        (verify-make_hello rb lb.peer_id_config (join_prefixes lb.routes.local_prefix) lb.priority
          lb.secret role_peer ra nonce digest g) in
    rw (frame_of-pack_msg (hello h) v ok) (
      subst
        (λ n.
          (is_outbound_ready (on_frame_received ra now con (message (hello h)) w).link ≡ true)
          × ((on_frame_received ra now con (message (hello h)) w).link.peer_priority ≡ n))
        (make_hello-priority rb lb.peer_id_config (join_prefixes lb.routes.local_prefix) lb.priority
          lb.secret role_peer)
        (on_hello-ready ra now con w h good (rw id_h named) up out))
