-- ===== src/Server/Handshake.antt =====
-- Reflector.cpp and TrunkLink.cpp: two reflectors that connect. The hello of the one that connects
-- is a frame of the other's trunk server, and the answer is a frame of the link that connected.
use geu_reflector.Base.{
  ℕ, ◌≡◌, refl, sym, subst, true, false, some, Bytes, bytes_eq_self, is_empty, is_some, length,
  Elem, ==_self, Option-cases, inl, inr, arith,
}
use geu_reflector.Trunk.State.{
  Link, Reflector, Hello, Msg, hello, written, inbound, verify, make_hello, nonce_len,
  is_inbound_ready,
}
use geu_reflector.Trunk.Send.{own_hello, send_msg_on_inbound}
use geu_reflector.Trunk.Connect.{accept_inbound_connection}
use geu_reflector.Wire.Codec.{and_then_ok, and_then_bytes, unpack-pack}
use geu_reflector.Wire.Numbers.{u16, u16_value, u16_packs}
use geu_reflector.Wire.Peers.{hello_codec, type_of, pack_members, pack_msg, packs, is_msg}
use geu_reflector.Server.Pending.{pending_hello}

-- What the sides share: the secret gives a digest of the nonce that one of them makes.
pub record IsSigned (maker checker : Reflector) (secret nonce digest : Bytes) : Type 0 where
  pub drawn : maker.random ≡ some nonce
  pub long : length nonce ≡ nonce_len
  pub digested : maker.hmac secret nonce ≡ some digest
  pub full : is_empty digest ≡ false
  pub checked : checker.hmac secret nonce ≡ some digest

module _ (maker : Reflector) (id local_prefix : Bytes) (priority : ℕ) (secret : Bytes)
    (role : ℕ) where
  make_hello-signed :
      (nonce digest : Bytes)
      → maker.random ≡ some nonce
      → maker.hmac secret nonce ≡ some digest
      → make_hello maker id local_prefix priority secret role ≡ record {
        id = id;
        local_prefix = local_prefix;
        priority = priority;
        nonce = nonce;
        digest = digest;
        role = role;
      }
  unfolding make_hello
  make_hello-signed nonce digest e d = rw (e, d) refl

  -- A hello made with a secret passes the check with that secret.
  pub verify-make_hello :
      (checker : Reflector) (nonce digest : Bytes)
      → IsSigned maker checker secret nonce digest
      → verify checker (make_hello maker id local_prefix priority secret role) secret ≡ true
  unfolding verify
  verify-make_hello checker nonce digest g =
      subst (λ h. verify checker h secret ≡ true)
        (sym (make_hello-signed nonce digest g.drawn g.digested))
        (rw (g.long, g.full, g.checked, ==_self (length digest), bytes_eq_self digest) refl)

  -- The other members are the arguments.
  pub make_hello-id : (make_hello maker id local_prefix priority secret role).id ≡ id
  unfolding make_hello
  make_hello-id = elim (Option-cases maker.random) [
    | inl e ↦ rw (make_hello, e) refl
    | inr (n, e) ↦ rw (make_hello, e) refl
  ]

  pub make_hello-local_prefix :
      (make_hello maker id local_prefix priority secret role).local_prefix ≡ local_prefix
  unfolding make_hello
  make_hello-local_prefix = elim (Option-cases maker.random) [
    | inl e ↦ rw (make_hello, e) refl
    | inr (n, e) ↦ rw (make_hello, e) refl
  ]

  pub make_hello-priority :
      (make_hello maker id local_prefix priority secret role).priority ≡ priority
  unfolding make_hello
  make_hello-priority = elim (Option-cases maker.random) [
    | inl e ↦ rw (make_hello, e) refl
    | inr (n, e) ↦ rw (make_hello, e) refl
  ]

-- The first frame is read as the hello that was sent.
pub pending_hello-pack_msg :
    (h : Hello)
    → is_msg (hello h) ≡ true
    → packs (hello h) ≡ true
    → pending_hello (pack_msg (hello h)).0 ≡ some h
unfolding pending_hello packs pack_msg pack_members is_msg type_of
pending_hello-pack_msg h v ok =
    let oks = and_then_ok (u16.pack 115) (hello_codec.pack h) ok in
    rw
      (
        and_then_bytes (u16.pack 115) (hello_codec.pack h) (u16_packs 115),
        pending_hello,
        unpack-pack u16 115 (hello_codec.pack h).0 (u16_value 115 (omega arith)) (u16_packs 115),
        hello_codec.round h v oks.1,
      )
      refl

send_msg_on_inbound-written :
    (m : Msg) (l : Link)
    → is_some l.inbound_con ≡ true
    → l.inbound_connected ≡ true
    → packs m ≡ true
    → Elem (written inbound m) (send_msg_on_inbound m l).out
unfolding send_msg_on_inbound
send_msg_on_inbound-written m l c i ok = rw (send_msg_on_inbound, c, i, ok) (inl refl)

send_msg_on_inbound-ready :
    (m : Msg) (l : Link) → is_inbound_ready (send_msg_on_inbound m l) ≡ is_inbound_ready l
unfolding send_msg_on_inbound is_inbound_ready
send_msg_on_inbound-ready m l = ground arith

send_msg_on_inbound-peer_priority :
    (m : Msg) (l : Link) → (send_msg_on_inbound m l).peer_priority ≡ l.peer_priority
unfolding send_msg_on_inbound
send_msg_on_inbound-peer_priority m l = ground arith

-- A link that takes a connection: ready on it, with the peer's priority, and its own hello written.
pub record Greets (r : Reflector) (priority : ℕ) (l l' : Link) : Type 0 where
  pub ready : is_inbound_ready l' ≡ true
  pub peer_priority : l'.peer_priority ≡ priority
  pub answer : Elem (written inbound (own_hello r l)) l'.out

pub accept_inbound_connection-Greets :
    (r : Reflector) (con : ℕ) (h : Hello) (l : Link)
    → is_some l.inbound_con ≡ false
    → packs (own_hello r l) ≡ true
    → Greets r h.priority l (accept_inbound_connection r con h l)
unfolding accept_inbound_connection own_hello is_inbound_ready
accept_inbound_connection-Greets r con h l free ok = rw free (record {
  ready = send_msg_on_inbound-ready _ _;
  peer_priority = send_msg_on_inbound-peer_priority _ _;
  answer = inr (send_msg_on_inbound-written _ _ refl refl ok);
})
