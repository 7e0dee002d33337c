-- ===== src/Audio/Sequence.antt =====
-- Reflector.cpp: the sequence numbers of a client's datagrams. The number that is expected next has
-- 32 bits; `none` is a datagram that is dropped.
use geu_reflector.Base.{
  ℕ, ◌+◌, ◌-◌, ◌%◌, ◌^◌, ◌==◌, Bool, List, [], ◌∷◌, Option, none, some, ltb, if◌then◌else◌,
}

-- Protocol 3: the counter of the initialization vector.
unfoldable pub udp_rx_seq : ℕ → ℕ → Option ℕ
udp_rx_seq next iv_cntr = if ltb iv_cntr next then none else some ((iv_cntr + 1) % 2 ^ 32)

-- Protocol 2: a number of 16 bits, compared by the wrapped difference.
unfoldable pub udp_rx_seq_v2 : ℕ → ℕ → Option ℕ
udp_rx_seq_v2 next sequence_num =
    let next_udp_rx_seq = next % 2 ^ 16 in
    let udp_rx_seq_diff = (sequence_num + (2 ^ 16 - next_udp_rx_seq)) % 2 ^ 16 in
    if ltb 32767 udp_rx_seq_diff then none else some (sequence_num + 1)

-- `setUdpRxSeq(0)`, which a registration does (a counter of 0), before any other check of the
-- datagram.
unfoldable pub udp_registered : ℕ → ℕ → ℕ
udp_registered next iv_cntr = if iv_cntr == 0 then 0 else next

-- The check of the source port, then the one of the counter.
unfoldable pub udp_checked : ℕ → ℕ → Bool → Option ℕ
udp_checked next iv_cntr right_port = if right_port then udp_rx_seq next iv_cntr else none

abbrev pub noted : ℕ → List (Option ℕ) → List (Option ℕ)
noted cntr rest = if cntr == 0 then none ∷ rest else rest

-- What the encrypted datagrams of a client with protocol 3 do, each given by its counter and whether
-- it comes from the client's source port: `none` is a registration, `some` the counter of a datagram
-- that is taken.
unfoldable pub taken : ℕ → List (ℕ × Bool) → List (Option ℕ)
taken next [] = []
taken next ((cntr, right_port) ∷ ds) =
    let registered = udp_registered next cntr in
    noted cntr (elim (udp_checked registered cntr right_port) [
      | none ↦ taken registered ds
      | some next' ↦ some cntr ∷ taken next' ds
    ])
