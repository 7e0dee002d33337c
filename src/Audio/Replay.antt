-- ===== src/Audio/Replay.antt =====
-- Reflector.cpp: between two registrations no datagram of a client is taken twice.
use geu_reflector.Base.{
  ℕ, ◌+◌, ◌-◌, ◌%◌, ◌<◌, ◌≤◌, ◌≡◌, ◌==◌, Bool, true, false, List, [], ◌∷◌, Option, none, some, ltb,
  All, Bool-cases, inl, inr, arith,
}
use geu_reflector.Audio.Sequence.{
  udp_rx_seq, udp_rx_seq_v2, udp_registered, udp_checked, noted, taken,
}

-- From one registration to the next, each number is larger than the ones before it; none is below
-- `low` before the first registration.
abbrev pub IsIncreasing : ℕ → List (Option ℕ) → Type 0
IsIncreasing low [] = Unit
IsIncreasing low (none ∷ ns) = IsIncreasing 0 ns
IsIncreasing low (some n ∷ ns) = (low ≤ n) × IsIncreasing (n + 1) ns

noted-IsIncreasing :
    (next cntr : ℕ) (ns : List (Option ℕ))
    → IsIncreasing (udp_registered next cntr) ns
    → IsIncreasing next (noted cntr ns)
unfolding udp_registered
noted-IsIncreasing next cntr ns h = elim (Bool-cases (cntr == 0)) [
  | inl z ↦ rw z (rw z at h)
  | inr z ↦ rw z (rw z at h)
]

checked-IsIncreasing :
    (next cntr : ℕ) (right_port : Bool) (rest : ℕ → List (Option ℕ))
    → cntr < 4294967295
    → ((k : ℕ) → IsIncreasing k (rest k))
    → IsIncreasing next (elim (udp_checked next cntr right_port) [
      | none ↦ rest next
      | some next' ↦ some cntr ∷ rest next'
    ])
unfolding udp_checked udp_rx_seq
checked-IsIncreasing next cntr false rest b h = h next
checked-IsIncreasing next cntr true rest b h = elim (Bool-cases (ltb cntr next)) [
  | inl old ↦ rw old (h next)
  | inr new ↦
      let small : (cntr + 1) % 4294967296 ≡ cntr + 1 = omega (arith, b) in
      rw (new, small) (ground arith, h (cntr + 1))
]

-- Of any encrypted datagrams of a client with protocol 3, from its source port or not, the ones that
-- are taken from one registration (a counter of 0, which resets the expected number even when its
-- source port is wrong) to the next have increasing counters, from the expected one on before the
-- first registration, where no counter is the largest of 32 bits.
pub taken-IsIncreasing :
    (next : ℕ) (ds : List (ℕ × Bool))
    → All (λ d. d.0 < 4294967295) ds
    → IsIncreasing next (taken next ds)
unfolding taken
taken-IsIncreasing next [] h = tt
taken-IsIncreasing next ((cntr, right_port) ∷ ds) h = noted-IsIncreasing next cntr _ (
    checked-IsIncreasing (udp_registered next cntr) cntr right_port (λ k. taken k ds) h.0
      (λ k. taken-IsIncreasing k ds h.1))

-- With protocol 2, when a datagram is taken, it and each of the 32767 numbers before it, modulo the
-- 16 bits, are dropped if they come next.
udp_rx_seq_v2-replay :
    (next seq next' age : ℕ)
    → seq < 65536
    → age < 32768
    → udp_rx_seq_v2 next seq ≡ some next'
    → udp_rx_seq_v2 next' ((seq + 65536 - age) % 65536) ≡ none
unfolding udp_rx_seq_v2
udp_rx_seq_v2-replay next seq next' age s a e =
    let after : next' ≡ seq + 1 = ground (arith, e) in rw after (ground arith)
