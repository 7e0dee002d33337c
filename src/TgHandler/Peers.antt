-- ===== src/TgHandler/Peers.antt =====
-- What the trunk-talker operations of TGHandler.cpp achieve.
use geu_reflector.Base.{
  ℕ, ◌<◌, ◌≤◌, ◌≡◌, refl, ◌∙◌, inl, inr, Bool, true, false, List, [], ◌∷◌, none, some, Map, find,
  assign, find-assign, find-erase, length, length-assign, length-erase, Bytes, IsKeyed,
  erase-IsKeyed, ◌≢◌, ◌⊎◌, bytes_eq, bytes_eq→eq, bytes_eq_self, is_empty, is_some, value_or,
  Bool-cases, if◌then◌else◌, ◌==◌, ◌||◌, ◌&&◌, arith,
}
use geu_reflector.TgHandler.State.{TgHandler, max_trunk_talkers}
use geu_reflector.TgHandler.TrunkTalkers.{
  trunk_talker_for_tg, has_trunk_talker, peer_id_for_tg, set_trunk_talker_for_tg,
  clear_trunk_talker_for_tg, clear_tgs, talker_keys, tgs_of_peer, clear_all_trunk_talkers,
  set_trunk_talker_for_tg_via_peer, clear_trunk_talkers_for_peer,
}

-- A recorded callsign is not empty, the table keeps to its limit, and each talk group has at most
-- one peer.
pub record IsSound (s : TgHandler) : Type 0 where
  pub named : (tg : ℕ) → is_empty (value_or (find tg s.trunk_talkers) (0 ∷ [])) ≡ false
  pub limited : length s.trunk_talkers ≤ max_trunk_talkers
  pub keyed : IsKeyed s.trunk_talker_peer_ids

peer_ids-set_trunk_talker_for_tg :
    (now tg : ℕ) (callsign : Bytes) (s : TgHandler)
    → (set_trunk_talker_for_tg now tg callsign s).trunk_talker_peer_ids ≡ s.trunk_talker_peer_ids
unfolding set_trunk_talker_for_tg
peer_ids-set_trunk_talker_for_tg now tg callsign s = ground arith

-- `setTrunkTalkerForTG` keeps the table of trunk talkers sound.
pub set_trunk_talker_for_tg-IsSound :
    (now tg : ℕ) (callsign : Bytes) (s : TgHandler)
    → IsSound s
    → IsSound (set_trunk_talker_for_tg now tg callsign s)
unfolding set_trunk_talker_for_tg
set_trunk_talker_for_tg-IsSound now tg callsign s v = record {
  named = λ t. ground (
    arith,
    v.named t,
    find-assign tg t callsign s.trunk_talkers,
    find-erase tg t s.trunk_talkers,
  );
  limited = ground (
    arith,
    v.limited,
    length-assign tg callsign s.trunk_talkers,
    length-erase tg s.trunk_talkers,
  );
  keyed = rw (peer_ids-set_trunk_talker_for_tg now tg callsign s) v.keyed;
}

set_trunk_talker_none :
    (now tg t : ℕ) (s : TgHandler)
    → IsSound s
    → find t (set_trunk_talker_for_tg now tg [] s).trunk_talkers
      ≡ (if t == tg then none else find t s.trunk_talkers)
unfolding set_trunk_talker_for_tg
set_trunk_talker_none now tg t s v = ground (
  arith,
  v.named tg,
  find-erase tg t s.trunk_talkers,
  bytes_eq→eq [] (value_or (find tg s.trunk_talkers) []),
)

-- Clearing removes the talk group's entry, and no other, from both tables, and keeps them sound.
pub record Clears (drop : ℕ → Bool) (s s' : TgHandler) : Type 0 where
  pub sound : IsSound s'
  pub talkers :
      (t : ℕ) → find t s'.trunk_talkers ≡ (if drop t then none else find t s.trunk_talkers)
  pub peer_ids :
      (t : ℕ)
      → find t s'.trunk_talker_peer_ids ≡ (if drop t then none else find t s.trunk_talker_peer_ids)

pub clear_trunk_talker_for_tg-Clears :
    (now tg : ℕ) (s : TgHandler)
    → IsSound s
    → Clears (λ t. t == tg) s (clear_trunk_talker_for_tg now tg s)
unfolding clear_trunk_talker_for_tg
clear_trunk_talker_for_tg-Clears now tg s v =
    let v' = set_trunk_talker_for_tg-IsSound now tg [] s v in
    record {
      sound = record {
        named = v'.named;
        limited = v'.limited;
        keyed = erase-IsKeyed tg _ v'.keyed;
      };
      talkers = λ t. set_trunk_talker_none now tg t s v;
      peer_ids = λ t. find-erase tg t _ ∙ rw (peer_ids-set_trunk_talker_for_tg now tg [] s);
    }

unfoldable pub mem : ℕ → List ℕ → Bool
mem t [] = false
mem t (u ∷ l) = t == u || mem t l

pub clear_tgs-Clears :
    (now : ℕ) (l : List ℕ) (s : TgHandler) → IsSound s → Clears (λ t. mem t l) s (clear_tgs now l s)
unfolding clear_tgs mem
clear_tgs-Clears now [] s v = record { sound = v; talkers = λ t. refl; peer_ids = λ t. refl }
clear_tgs-Clears now (u ∷ l) s v =
    let a = clear_trunk_talker_for_tg-Clears now u s v in
    let b = clear_tgs-Clears now l (clear_trunk_talker_for_tg now u s) a.sound in
    record {
      sound = b.sound;
      talkers = λ t. ground (arith, a.talkers t, b.talkers t);
      peer_ids = λ t. ground (arith, a.peer_ids t, b.peer_ids t);
    }

-- A key of the peer table whose (first) peer id is the given one is collected.
mem-tgs_of_peer :
    (p : Bytes) (t : ℕ) (m : Map Bytes)
    → bytes_eq (value_or (find t m) []) p && is_some (find t m) ≡ true
    → mem t (tgs_of_peer p m) ≡ true
unfolding find mem tgs_of_peer
mem-tgs_of_peer p t [] h = ground arith
mem-tgs_of_peer p t ((u, q) ∷ m) h = ground (arith, mem-tgs_of_peer p t m)

mem-talker_keys : (t : ℕ) (m : Map Bytes) → is_some (find t m) ≡ true → mem t (talker_keys m) ≡ true
unfolding find mem talker_keys
mem-talker_keys t [] h = ground arith
mem-talker_keys t ((u, q) ∷ m) h = ground (arith, mem-talker_keys t m)

-- From a sound state `clearAllTrunkTalkers` leaves no trunk talker on any talk group.
pub clear_all_trunk_talkers_lem :
    (now t : ℕ) (s : TgHandler)
    → IsSound s
    → has_trunk_talker t (clear_all_trunk_talkers now s) ≡ false
unfolding clear_all_trunk_talkers has_trunk_talker
clear_all_trunk_talkers_lem now t s v =
    let c = clear_tgs-Clears now (talker_keys s.trunk_talkers) s v in
    ground (arith, c.talkers t, mem-talker_keys t s.trunk_talkers)

-- From a sound state `clearTrunkTalkersForPeer` frees every talk group that the peer holds.
pub clear_trunk_talkers_for_peer_lem :
    (now t : ℕ) (p : Bytes) (s : TgHandler)
    → IsSound s
    → find t s.trunk_talker_peer_ids ≡ some p
    → (find t (clear_trunk_talkers_for_peer now p s).trunk_talkers ≡ none)
      × (find t (clear_trunk_talkers_for_peer now p s).trunk_talker_peer_ids ≡ none)
unfolding clear_trunk_talkers_for_peer
clear_trunk_talkers_for_peer_lem now t p s v e =
    let c = clear_tgs-Clears now (tgs_of_peer p s.trunk_talker_peer_ids) s v in
    let m = mem-tgs_of_peer p t s.trunk_talker_peer_ids (rw e (ground (arith, bytes_eq_self p))) in
    (rw m at (c.talkers t), rw m at (c.peer_ids t))

tgs_of_peer-held :
    (p : Bytes) (t : ℕ) (m : Map Bytes)
    → IsKeyed m
    → mem t (tgs_of_peer p m) ≡ true
    → (bytes_eq (value_or (find t m) []) p && is_some (find t m)) ≡ true
unfolding find mem tgs_of_peer
tgs_of_peer-held p t [] k h = ground arith
tgs_of_peer-held p t ((u, q) ∷ m) k h = ground (arith, tgs_of_peer-held p t m k.1)

-- From a sound state `clearTrunkTalkersForPeer` leaves the talker and the peer of a talk group that
-- another peer holds.
pub clear_trunk_talkers_for_peer_other :
    (now t : ℕ) (p q : Bytes) (s : TgHandler)
    → IsSound s
    → find t s.trunk_talker_peer_ids ≡ some q
    → q ≢ p
    → (find t (clear_trunk_talkers_for_peer now p s).trunk_talkers ≡ find t s.trunk_talkers)
      × (find t (clear_trunk_talkers_for_peer now p s).trunk_talker_peer_ids ≡ some q)
unfolding clear_trunk_talkers_for_peer
clear_trunk_talkers_for_peer_other now t p q s v e ne =
    let c = clear_tgs-Clears now (tgs_of_peer p s.trunk_talker_peer_ids) s v in
    elim (Bool-cases (mem t (tgs_of_peer p s.trunk_talker_peer_ids))) [
      | inl m ↦ absurd (
          ne (
            bytes_eq→eq q p
              (ground (arith, tgs_of_peer-held p t s.trunk_talker_peer_ids v.keyed m))))
      | inr m ↦ (rw m at (c.talkers t), (rw m at (c.peer_ids t)) ∙ e)
    ]

-- A talk group may take one more trunk talker: it has one, or the table has room.
abbrev pub HasRoom : ℕ → TgHandler → Type 0
HasRoom tg s =
    (is_some (find tg s.trunk_talkers) ≡ true) ⊎ (length s.trunk_talkers < max_trunk_talkers)

set_trunk_talker_some :
    (now tg t : ℕ) (c : ℕ) (cs : Bytes) (s : TgHandler)
    → HasRoom tg s
    → value_or (find t (set_trunk_talker_for_tg now tg (c ∷ cs) s).trunk_talkers) []
      ≡ (if t == tg then c ∷ cs else value_or (find t s.trunk_talkers) [])
unfolding set_trunk_talker_for_tg
set_trunk_talker_some now tg t c cs s room = ground (
  arith,
  find-assign tg t (c ∷ cs) s.trunk_talkers,
  bytes_eq→eq (c ∷ cs) (value_or (find tg s.trunk_talkers) []),
)

-- A non-empty callsign reported by a peer becomes the trunk talker of its talk group with that
-- peer, if the talk group has a talker or the table has room; other talk groups keep theirs.
pub set_trunk_talker_for_tg_via_peer_lem :
    (now tg t : ℕ) (c : ℕ) (cs peer : Bytes) (s : TgHandler)
    → HasRoom tg s
    → (trunk_talker_for_tg t (set_trunk_talker_for_tg_via_peer now tg (c ∷ cs) peer s)
        ≡ (if t == tg then c ∷ cs else trunk_talker_for_tg t s))
      × (peer_id_for_tg t (set_trunk_talker_for_tg_via_peer now tg (c ∷ cs) peer s)
          ≡ (if t == tg then peer else peer_id_for_tg t s))
unfolding set_trunk_talker_for_tg_via_peer trunk_talker_for_tg peer_id_for_tg
set_trunk_talker_for_tg_via_peer_lem now tg t c cs peer s room =
    let s₁ = record s { trunk_talker_peer_ids = assign tg peer s.trunk_talker_peer_ids } in
    (
      set_trunk_talker_some now tg t c cs s₁ room,
      ground (
        arith,
        peer_ids-set_trunk_talker_for_tg now tg (c ∷ cs) s₁,
        find-assign tg t peer s.trunk_talker_peer_ids,
      ),
    )

-- The table of peers has no such limit: with 10000 trunk talkers, a callsign on a further talk
-- group is dropped, and the peer that reported it is recorded as its holder all the same.
pub set_trunk_talker_for_tg_via_peer_full :
    (now tg : ℕ) (c : ℕ) (cs peer : Bytes) (s : TgHandler)
    → find tg s.trunk_talkers ≡ none
    → length s.trunk_talkers ≡ max_trunk_talkers
    → (trunk_talker_for_tg tg (set_trunk_talker_for_tg_via_peer now tg (c ∷ cs) peer s) ≡ [])
      × (peer_id_for_tg tg (set_trunk_talker_for_tg_via_peer now tg (c ∷ cs) peer s) ≡ peer)
unfolding set_trunk_talker_for_tg_via_peer set_trunk_talker_for_tg trunk_talker_for_tg
    peer_id_for_tg
set_trunk_talker_for_tg_via_peer_full now tg c cs peer s e full =
    ground (arith, find-assign tg tg peer s.trunk_talker_peer_ids, bytes_eq→eq (c ∷ cs) [])
