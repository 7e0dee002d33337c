-- ===== src/Server/Admission.antt =====
-- Reflector.cpp: which connections become a link's, and what a refused one leaves.
use geu_reflector.Base.{
  update_at, ℕ, zero, suc, ◌+◌, ◌≡◌, ◌⊎◌, refl, ap, ◌∙◌, true, false, List, [], ◌∷◌, some, Bytes,
  bytes_eq, find, assign, is_empty, get_elem?, take, All, Bool-cases, Option-cases, inl, inr, arith,
}
use geu_reflector.Trunk.State.{Link, Reflector, Hello, verify}
use geu_reflector.Trunk.Prefixes.{split_prefixes}
use geu_reflector.Trunk.Connect.{accept_inbound_connection}
use geu_reflector.Server.State.{TrunkServer}
use geu_reflector.Server.Prefixes.{same_prefixes}
use geu_reflector.Server.Pending.{
  pending_hello, judge, Verdict, no_section, wrong_secret, wrong_prefixes, matched, on_verdict,
  hand_over, reject_pending, trunk_pending_frame_received,
}

-- The three checks of a hello against a link.
pub record Passes (r : Reflector) (h : Hello) (l : Link) : Type 0 where
  pub section : bytes_eq h.id l.section ≡ true
  pub secret : verify r h l.secret ≡ true
  pub prefixes : same_prefixes l.routes.remote_prefix (split_prefixes h.local_prefix) ≡ true

-- The link that stands some places behind `i` passes.
record PassesAt (r : Reflector) (h : Hello) (ls : List Link) (i j : ℕ) : Type 0 where
  place : ℕ
  link : Link
  offset : j ≡ i + place
  there : get_elem? ls place ≡ some link
  passes : Passes r h link

judge-matched :
    (r : Reflector) (h : Hello) (ls : List Link) (i j : ℕ)
    → judge r h ls i ≡ matched j
    → PassesAt r h ls i j
unfolding judge
judge-matched r h [] i j e = absurd (ground (arith, e))
judge-matched r h (l ∷ ls) i j e = elim (Bool-cases (bytes_eq h.id l.section)) [
  | inr other ↦
      let p = judge-matched r h ls (suc i) j (rw other at e) in
      record {
        place = suc p.place;
        link = p.link;
        offset = omega (arith, p.offset);
        there = p.there;
        passes = p.passes;
      }
  | inl same ↦ elim (Bool-cases (verify r h l.secret)) [
    | inr bad ↦ absurd (ground (arith, rw (same, bad) at e))
    | inl ok ↦
        elim (Bool-cases (same_prefixes l.routes.remote_prefix (split_prefixes h.local_prefix))) [
          | inr apart ↦ absurd (ground (arith, rw (same, ok, apart) at e))
          | inl alike ↦
              let here : matched i ≡ matched j = rw (same, ok, alike) at e in
              record {
                place = 0;
                link = l;
                offset = ground (arith, here);
                there = refl;
                passes = record { section = same; secret = ok; prefixes = alike };
              }
        ]
  ]
]

-- The first link with the section of the hello decides.
pub judge-first :
    (r : Reflector) (h : Hello) (ls : List Link) (i k : ℕ) (l : Link)
    → get_elem? ls k ≡ some l
    → All (λ l'. bytes_eq h.id l'.section ≡ false) (take k ls)
    → Passes r h l
    → judge r h ls i ≡ matched (i + k)
unfolding judge
judge-first r h [] i k l e a p = absurd (ground (arith, e))
judge-first r h (x ∷ ls) i zero l e a p =
    let same : x ≡ l = ground (arith, e) in
    rw (same, p.section, p.secret, p.prefixes) (ap matched (omega arith))
judge-first r h (x ∷ ls) i (suc k) l e a p =
    rw a.0 (judge-first r h ls (suc i) k l e a.1 p ∙ ap matched (omega arith))

-- The connection is the link's at place `i`, whose section, secret and prefixes the hello has.
pub record Admitted (r : Reflector) (con : ℕ) (bytes : Bytes) (s s' : TrunkServer) : Type 0 where
  pub sent : Hello
  pub place : ℕ
  pub link : Link
  pub unpacks : pending_hello bytes ≡ some sent
  pub there : get_elem? s.links place ≡ some link
  pub passes : Passes r sent link
  pub links : s'.links ≡ update_at place (accept_inbound_connection r con sent) s.links
  pub inbound_map : s'.inbound_map ≡ assign con place s.inbound_map

-- The links, the talk groups and the connections that were handed over are as they were.
pub record Refused (s s' : TrunkServer) : Type 0 where
  pub links : s'.links ≡ s.links
  pub tgs : s'.tgs ≡ s.tgs
  pub inbound_map : s'.inbound_map ≡ s.inbound_map

reject-Refused : (con timer : ℕ) (s : TrunkServer) → Refused s (reject_pending con timer s)
unfolding reject_pending
reject-Refused con timer s = record { links = refl; tgs = refl; inbound_map = refl }

verdict-outcome :
    (r : Reflector) (con timer : ℕ) (bytes : Bytes) (h : Hello) (s : TrunkServer) (v : Verdict)
    → pending_hello bytes ≡ some h
    → judge r h s.links 0 ≡ v
    → Admitted r con bytes s (on_verdict r con timer h v s)
      ⊎ Refused s (on_verdict r con timer h v s)
unfolding on_verdict hand_over
verdict-outcome r con timer bytes h s no_section u e = inr (reject-Refused con timer s)
verdict-outcome r con timer bytes h s wrong_secret u e = inr (reject-Refused con timer s)
verdict-outcome r con timer bytes h s wrong_prefixes u e = inr (reject-Refused con timer s)
verdict-outcome r con timer bytes h s (matched i) u e =
    let p = judge-matched r h s.links 0 i e in
    let same : p.place ≡ i = omega (arith, p.offset) in
    inl (record {
      sent = h;
      place = i;
      link = p.link;
      unpacks = u;
      there = rw⁻¹ same p.there;
      passes = p.passes;
      links = refl;
      inbound_map = refl;
    })

-- A frame on a connection that waits for its hello either makes the connection that of the link
-- whose section, secret and prefixes the hello has, or leaves all links, all talk groups and the
-- connections that were handed over as they were.
pub trunk_pending_frame_received-outcome :
    (r : Reflector) (con : ℕ) (bytes : Bytes) (s : TrunkServer)
    → Admitted r con bytes s (trunk_pending_frame_received r con bytes s)
      ⊎ Refused s (trunk_pending_frame_received r con bytes s)
unfolding trunk_pending_frame_received
trunk_pending_frame_received-outcome r con bytes s = elim (Option-cases (find con s.pending)) [
  | inl e ↦
      rw (trunk_pending_frame_received, e)
        (inr (record { links = refl; tgs = refl; inbound_map = refl }))
  | inr (timer, e) ↦ elim (Option-cases (pending_hello bytes)) [
    | inl n ↦ rw (trunk_pending_frame_received, e, n) (inr (reject-Refused con timer s))
    | inr (h, n) ↦ elim (Bool-cases (is_empty h.id)) [
      | inl x ↦ rw (trunk_pending_frame_received, e, n, x) (inr (reject-Refused con timer s))
      | inr x ↦
          rw (trunk_pending_frame_received, e, n, x)
            (verdict-outcome r con timer bytes h s (judge r h s.links 0) n refl)
    ]
  ]
]
