-- ===== src/Trunk/Expiry.antt =====
-- The interest of the peer, its time to live, and what is advertised, in TrunkLink.cpp.
use geu_reflector.Base.{
  ℕ, ◌-◌, ◌≡◌, refl, sym, ap, subst, ◌∙◌, Bool, true, false, not, ◌&&◌, ◌||◌, List, [], ◌∷◌, none,
  some, Map, NatSet, IsKeyed, find, contains, insert, contains-insert, ltb, leb, ◌==◌,
  if◌then◌else◌, Bool-cases, inl, inr, arith,
}
use geu_reflector.Trunk.Prefixes.{is_shared_tg}
use geu_reflector.Trunk.State.{Link, is_peer_interested_tg, peer_interest_timeout_s}
use geu_reflector.Trunk.Heartbeat.{prune}
use geu_reflector.Trunk.Interest.{
  include, include_all, aggregate_one, aggregate_peer_interests_for_link,
  build_outgoing_tg_interest,
}

-- An entry of the peer's interest that has not expired.
abbrev pub live_interest : ℕ → ℕ → Map ℕ → Bool
live_interest now tg m = elim (find tg m) [
  | none ↦ false
  | some t ↦ ltb (now - t) peer_interest_timeout_s
]

live-prune :
    (now tg : ℕ) (m : Map ℕ)
    → IsKeyed m
    → live_interest now tg (prune now m) ≡ live_interest now tg m
unfolding find prune
live-prune now tg [] h = refl
live-prune now tg ((j, t) ∷ m) h = ground (arith, live-prune now tg m h.1)

-- Erasing the expired entries, in a table without a key twice, changes no answer of
-- `isPeerInterestedTG` at that time.
pub is_peer_interested_tg-prune :
    (now tg : ℕ) (l : Link)
    → IsKeyed l.peer_interested_tgs
    → is_peer_interested_tg now
        (record l { peer_interested_tgs = prune now l.peer_interested_tgs })
        tg
      ≡ is_peer_interested_tg now l tg
unfolding is_peer_interested_tg
is_peer_interested_tg-prune now tg l h = live-prune now tg l.peer_interested_tgs h

include_step :
    (l : Link) (tg t : ℕ) (a b : Bool)
    → include l t ≡ false
    → (a || (include l tg && b)) ≡ (a || (include l tg && ((tg == t) || b)))
include_step l tg t a b h = elim (Bool-cases (tg == t)) [
  | inr e ↦ rw e refl
  | inl e ↦
      rw (e, let x : include l tg ≡ false = subst (λ u. include l u ≡ false) (ground arith) h in x)
        refl
]

include_step' :
    (l : Link) (tg t : ℕ) (a b : Bool)
    → include l t ≡ true
    → (((tg == t) || a) || (include l tg && b)) ≡ (a || (include l tg && ((tg == t) || b)))
include_step' l tg t a b h = elim (Bool-cases (tg == t)) [
  | inr e ↦ rw e refl
  | inl e ↦
      rw (e, let x : include l tg ≡ true = subst (λ u. include l u ≡ true) (ground arith) h in x)
        (ground arith)
]

contains-include_all :
    (l : Link) (tg : ℕ) (tgs : List ℕ) (out : NatSet)
    → contains tg (include_all l tgs out) ≡ (contains tg out || (include l tg && contains tg tgs))
unfolding include_all contains
contains-include_all l tg [] out = ground arith
contains-include_all l tg (t ∷ tgs) out =
    contains-include_all l tg tgs (if include l t then insert t out else out)
    ∙ elim (Bool-cases (include l t)) [
      | inr no_t ↦ rw no_t (include_step l tg t (contains tg out) (contains tg tgs) no_t)
      | inl yes_t ↦
          rw (yes_t, contains-insert t tg out)
            (include_step' l tg t (contains tg out) (contains tg tgs) yes_t)
    ]

abbrev pub AllKeyed : List Link → Type 0
AllKeyed [] = Unit
AllKeyed (k ∷ ks) = IsKeyed k.peer_interested_tgs × AllKeyed ks

-- Has one of the links a live entry for the talk group?
pub any_live : ℕ → ℕ → List Link → Bool
any_live now tg [] = false
any_live now tg (k ∷ ks) = live_interest now tg k.peer_interested_tgs || any_live now tg ks

contains-admit :
    (now tg : ℕ) (dest : Link) (j t : ℕ) (out : NatSet)
    → contains tg (
        if leb peer_interest_timeout_s (now - t)
        then out
        else if not (is_shared_tg dest.routes j)
        then out
        else insert j out)
      ≡ (contains tg out
          || ((tg == j) && (is_shared_tg dest.routes j && ltb (now - t) peer_interest_timeout_s)))
contains-admit now tg dest j t out = ground (arith, contains-insert j tg out)

live-none : (now tg : ℕ) (m : Map ℕ) → find tg m ≡ none → live_interest now tg m ≡ false
live-none now tg m h = rw (live_interest, h) refl

live-cons :
    (now tg j t : ℕ) (m : Map ℕ)
    → live_interest now tg ((j, t) ∷ m)
      ≡ (if tg == j then ltb (now - t) peer_interest_timeout_s else live_interest now tg m)
unfolding find
live-cons now tg j t m = ground arith

admit_one :
    (c sj st live : Bool)
    → sj ≡ st
    → ((c || (true && (sj && live))) || (st && false)) ≡ (c || (st && live))
admit_one c sj st live e = ground arith

admit_other : (c b d : Bool) → ((c || (false && b)) || d) ≡ (c || d)
admit_other c b d = ground arith

contains-aggregate_one :
    (now tg : ℕ) (dest : Link) (m : Map ℕ) (out : NatSet)
    → IsKeyed m
    → contains tg (aggregate_one now dest m out)
      ≡ (contains tg out || (is_shared_tg dest.routes tg && live_interest now tg m))
unfolding aggregate_one
contains-aggregate_one now tg dest [] out h =
    rw (live-none now tg [] (unfold find in refl)) (ground arith)
contains-aggregate_one now tg dest ((j, t) ∷ m) out h =
    contains-aggregate_one now tg dest m _ h.1
    ∙ rw (contains-admit now tg dest j t out, live-cons now tg j t m)
        (elim (Bool-cases (tg == j)) [
          | inr e ↦ rw e (
              admit_other (contains tg out)
                (is_shared_tg dest.routes j && ltb (now - t) peer_interest_timeout_s)
                (is_shared_tg dest.routes tg && live_interest now tg m))
          | inl e ↦
              let tj : tg ≡ j = ground arith in
              let s : is_shared_tg dest.routes j ≡ is_shared_tg dest.routes tg =
                ap (λ u. is_shared_tg dest.routes u) (sym tj) in
              let gone : find tg m ≡ none = subst (λ u. find u m ≡ none) (sym tj) h.0 in
              rw (e, live-none now tg m gone)
                (admit_one (contains tg out) (is_shared_tg dest.routes j)
                  (is_shared_tg dest.routes tg) (ltb (now - t) peer_interest_timeout_s) s)
        ])

contains-aggregate :
    (now tg : ℕ) (dest : Link) (others : List Link) (out : NatSet)
    → AllKeyed others
    → contains tg (aggregate_peer_interests_for_link now dest others out)
      ≡ (contains tg out || (is_shared_tg dest.routes tg && any_live now tg others))
unfolding aggregate_peer_interests_for_link any_live
contains-aggregate now tg dest [] out h = ground arith
contains-aggregate now tg dest (k ∷ others) out h =
    contains-aggregate now tg dest others _ h.1
    ∙ rw (contains-aggregate_one now tg dest k.peer_interested_tgs out h.0) (ground arith)

-- A talk group is advertised exactly where it is one that may be advertised on this link, and a
-- local client or another peer, with an entry that has not expired, is interested in it; the
-- tables of the other links have no key twice.
pub contains-build_outgoing_tg_interest :
    (now tg : ℕ) (others : List Link) (l : Link)
    → AllKeyed others
    → contains tg (build_outgoing_tg_interest now others l)
      ≡ (include l tg && (contains tg l.local_tg_interest || any_live now tg others))
unfolding build_outgoing_tg_interest include contains
contains-build_outgoing_tg_interest now tg others l h =
    rw
      (
        contains-include_all l tg (aggregate_peer_interests_for_link now l others [])
            (include_all l l.local_tg_interest []),
        contains-include_all l tg l.local_tg_interest [],
        contains-aggregate now tg l others [] h,
      )
      (ground arith)
