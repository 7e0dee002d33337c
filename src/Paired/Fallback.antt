-- ===== src/Paired/Fallback.antt =====
-- TrunkLink.cpp: messages while no outbound connection is live.
use geu_reflector.Base.{
  ℕ, zero, suc, ◌+◌, ◌<◌, ◌≡◌, ◌⊎◌, refl, subst, Bool, true, false, ◌&&◌, List, [], ◌∷◌, none, some,
  length, get_elem?, All, Bool-cases, Option-cases, and_true, inl, inr, arith,
}
use geu_reflector.Trunk.State.{Msg, do_effect, paired_written, inbound}
use geu_reflector.Wire.Peers.{packs}
use geu_reflector.Paired.State.{
  PairedLink, PairedInboundState, first_inbound, fall_back, send_msg_paired,
  send_msg_on_paired_inbound, paired_outbound_ready,
}
use geu_reflector.Paired.Cyclic.{next_live-nowhere}

abbrev is_open : PairedInboundState → Bool
is_open c = c.is_connected && c.hello_received

-- The first open connection, `place` behind `i`.
record FirstOpen (i idx : ℕ) (cs : List PairedInboundState) : Type 0 where
  place : ℕ
  con : PairedInboundState
  offset : idx ≡ i + place
  there : get_elem? cs place ≡ some con
  opened : is_open con ≡ true
  earlier :
      (j : ℕ) (c : PairedInboundState) → j < place → get_elem? cs j ≡ some c → is_open c ≡ false

first_inbound-FirstOpen :
    (i idx : ℕ) (cs : List PairedInboundState) → first_inbound i cs ≡ some idx → FirstOpen i idx cs
unfolding first_inbound
first_inbound-FirstOpen i idx [] e = absurd (ground (arith, e))
first_inbound-FirstOpen i idx (c ∷ cs) e = elim (Bool-cases (is_open c)) [
  | inl up ↦ record {
    place = 0;
    con = c;
    offset = ground (arith, rw up at e);
    there = refl;
    opened = up;
    earlier = λ j c' b. absurd (omega arith);
  }
  | inr down ↦
      let f = first_inbound-FirstOpen (suc i) idx cs (rw down at e) in
      record {
        place = suc f.place;
        con = f.con;
        offset = omega (arith, f.offset);
        there = f.there;
        opened = f.opened;
        earlier = none_open c cs f.place f.earlier down;
      }
]
  where
    none_open :
        (d : PairedInboundState) (ds : List PairedInboundState) (k : ℕ)
        → ((j : ℕ) (c : PairedInboundState) → j < k → get_elem? ds j ≡ some c → is_open c ≡ false)
        → is_open d ≡ false
        → (j : ℕ) (c : PairedInboundState) → j < suc k
        → get_elem? (d ∷ ds) j ≡ some c
        → is_open c ≡ false
    none_open d ds k h down zero c b e =
        let same : d ≡ c = ground (arith, e) in subst (λ x. is_open x ≡ false) same down
    none_open d ds k h down (suc j) c b e = h j c (omega arith) e

first_inbound-none :
    (i : ℕ) (cs : List PairedInboundState)
    → first_inbound i cs ≡ none
    → All (λ c. is_open c ≡ false) cs
unfolding first_inbound
first_inbound-none i [] e = tt
first_inbound-none i (c ∷ cs) e = elim (Bool-cases (is_open c)) [
  | inl up ↦ absurd (ground (arith, rw up at e))
  | inr down ↦ (down, first_inbound-none (suc i) cs (rw down at e))
]

-- The message is written once, on the first inbound connection that is open.
record WrittenBack (m : Msg) (p p' : PairedLink) : Type 0 where
  place : ℕ
  con : PairedInboundState
  there : get_elem? p.ib place ≡ some con
  opened : is_open con ≡ true
  earlier :
      (j : ℕ) (c : PairedInboundState) → j < place → get_elem? p.ib j ≡ some c → is_open c ≡ false
  shared : p'.shared ≡ do_effect (paired_written inbound con.con m) p.shared
  sticky : p'.sticky ≡ p.sticky

send_on_inbound-shared :
    (idx : ℕ) (c : PairedInboundState) (m : Msg) (p : PairedLink)
    → get_elem? p.ib idx ≡ some c
    → c.is_connected ≡ true
    → packs m ≡ true
    → ((send_msg_on_paired_inbound idx m p).shared
        ≡ do_effect (paired_written inbound c.con m) p.shared)
      × ((send_msg_on_paired_inbound idx m p).sticky ≡ p.sticky)
unfolding send_msg_on_paired_inbound
send_on_inbound-shared idx c m p e up ok = rw (send_msg_on_paired_inbound, e, up, ok) (refl, refl)

fall_back-outcome :
    (m : Msg) (p : PairedLink)
    → packs m ≡ true
    → WrittenBack m p (fall_back m p) ⊎ (All (λ c. is_open c ≡ false) p.ib × (fall_back m p ≡ p))
unfolding fall_back
fall_back-outcome m p ok = elim (Option-cases (first_inbound 0 p.ib)) [
  | inl e ↦ inr (first_inbound-none 0 p.ib e, rw (fall_back, e) refl)
  | inr (idx, e) ↦
      let f = first_inbound-FirstOpen 0 idx p.ib e in
      let same : f.place ≡ idx = omega (arith, f.offset) in
      let up = (and_true f.con.is_connected f.con.hello_received f.opened).0 in
      let sent =
        send_on_inbound-shared idx f.con m p
          (subst (λ i. get_elem? p.ib i ≡ some f.con) same f.there) up ok in
      rw (fall_back, e)
        (inl (record {
          place = f.place;
          con = f.con;
          there = f.there;
          opened = f.opened;
          earlier = f.earlier;
          shared = sent.0;
          sticky = sent.1;
        }))
]

-- Where no host's outbound connection is live, a message that packs is written once, on the first
-- inbound connection that is open; where none is open either, the link stays as it is.
send_msg_paired-fall_back :
    (m : Msg) (p : PairedLink)
    → packs m ≡ true
    → paired_outbound_ready p ≡ false
    → WrittenBack m p (send_msg_paired m p)
      ⊎ (All (λ c. is_open c ≡ false) p.ib × (send_msg_paired m p ≡ p))
unfolding send_msg_paired paired_outbound_ready
send_msg_paired-fall_back m p ok dead =
    rw (send_msg_paired, next_live-nowhere (length p.ob) 0 p.sticky p.ob dead)
      (fall_back-outcome m p ok)
