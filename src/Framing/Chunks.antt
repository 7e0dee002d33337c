-- ===== src/Framing/Chunks.antt =====
-- A stream of frames that comes in any chunks.
use geu_reflector.Base.{
  ℕ, zero, suc, ◌+◌, ◌*◌, ◌<◌, ◌≡◌, refl, sym, ap, ◌∙◌, false, List, [], ◌∷◌, ◌++◌, append_assoc,
  append-nil, Bytes, All, length, length-append, inl, inr, arith,
}
use geu_reflector.Framing.Receive.{
  Connection, queue_item, size_bytes, step, receive, on_data_received, receive_chunks,
}
use geu_reflector.Framing.Stream.{Fits, stream, arrived, concat}
use geu_reflector.Framing.Rounds.{Within, Pending, Moves, size-Moves, within-Moves, Pending-Round}

-- After a call, with what it leaves: the next round would leave the loop again.
record Rests (all : List Bytes) (limit : ℕ) (rest : Bytes) (r : Connection × Bytes) : Type 0 where
  pending : Pending all limit rest r.1 r.0
  stops : step r.1 r.0 ≡ inl r.0

receive-Rests :
    (all : List Bytes) (limit fuel : ℕ) (rest buf : Bytes) (c : Connection)
    → length buf < fuel
    → Pending all limit rest buf c
    → Rests all limit rest (receive fuel buf c)
unfolding receive
receive-Rests all limit zero rest buf c h p = absurd (omega arith)
receive-Rests all limit (suc fuel) rest buf c h p = elim (Pending-Round all limit rest buf c p) [
  | inl e ↦ rw (receive, e) (record { pending = p; stops = e })
  | inr m ↦
      rw (receive, m.goes)
        (receive-Rests all limit fuel rest m.buf' m.c' (omega (arith, m.shorter)) m.pending)
]

on_data_received-Rests :
    (all : List Bytes) (limit : ℕ) (rest buf : Bytes) (c : Connection)
    → Pending all limit rest buf c
    → Rests all limit rest (on_data_received buf c)
unfolding on_data_received
on_data_received-Rests all limit rest buf c p =
    receive-Rests all limit (2 * length buf + 2) rest buf c (omega arith) p

chunk-Pending :
    (all : List Bytes) (limit : ℕ) (chunk rest left : Bytes) (c : Connection)
    → Pending all limit (chunk ++ rest) left c
    → Pending all limit rest (left ++ chunk) c
chunk-Pending all limit chunk rest left c p =
    let joined = append_assoc left chunk rest in
    record {
      same = p.same;
      open_yet = p.open_yet;
      place = elim p.place [
        | inl k ↦ inl (record {
          bs = k.bs;
          idle = k.idle;
          fits = k.fits;
          bytes = joined ∙ k.bytes;
          gives = k.gives;
        })
        | inr k ↦ inr (record {
          b = k.b;
          bs = k.bs;
          sized = k.sized;
          size = k.size;
          part = k.part;
          fits = k.fits;
          bytes = ap (λ t. c.frame ++ t) joined ∙ k.bytes;
          gives = k.gives;
        })
      ];
    }

receive_chunks-Rests :
    (all : List Bytes) (limit : ℕ) (chunks : List Bytes) (left : Bytes) (c : Connection)
    → Rests all limit (concat chunks) (c, left)
    → Rests all limit [] (receive_chunks chunks left c)
unfolding receive_chunks concat
receive_chunks-Rests all limit [] left c r = r
receive_chunks-Rests all limit (chunk ∷ chunks) left c r =
    let s =
      on_data_received-Rests all limit (concat chunks) (left ++ chunk) c
        (chunk-Pending all limit chunk (concat chunks) left c r.pending) in
    let (c', left') = on_data_received (left ++ chunk) c in
    rw s.pending.open_yet (receive_chunks-Rests all limit chunks left' c' s)

-- All frames have been given out.
record Delivered (all : List Bytes) (r : Connection × Bytes) : Type 0 where
  frames : r.0.frames ≡ all
  idle : r.0.size_received ≡ false
  left : r.1 ≡ []

goes_not :
    (all : List Bytes) (limit : ℕ) (rest buf : Bytes) (c : Connection)
    → step buf c ≡ inl c
    → ¬ Moves all limit rest buf c
goes_not all limit rest buf c e m = absurd (ground (arith, sym e ∙ m.goes))

none_left :
    (all : List Bytes) (limit : ℕ) (left : Bytes) (bs : List Bytes) (c : Connection)
    → c.max_rx_frame_size ≡ limit
    → c.closed ≡ false
    → c.size_received ≡ false
    → All (Fits limit) bs
    → left ++ [] ≡ stream bs
    → arrived bs c.frames ≡ all
    → step left c ≡ inl c
    → (left ≡ []) × (c.frames ≡ all)
unfolding stream arrived queue_item size_bytes
none_left all limit left [] c same o idle f e g t = (sym (append-nil left) ∙ e, g)
none_left all limit [] (b ∷ bs) c same o idle f e g t = absurd (omega (arith, ap length e))
none_left all limit (x ∷ []) (b ∷ bs) c same o idle f e g t = absurd (omega (arith, ap length e))
none_left all limit (x ∷ y ∷ []) (b ∷ bs) c same o idle f e g t =
    absurd (omega (arith, ap length e))
none_left all limit (x ∷ y ∷ z ∷ []) (b ∷ bs) c same o idle f e g t =
    absurd (omega (arith, ap length e))
none_left all limit (x ∷ y ∷ z ∷ w ∷ left) (b ∷ bs) c same o idle f e g t =
    elim (goes_not all limit [] (x ∷ y ∷ z ∷ w ∷ left) c t
      (size-Moves all limit x y z w [] left b bs c same o idle f.0 f.1 e g)) [ ]

not_within :
    (all : List Bytes) (limit : ℕ) (left : Bytes) (c : Connection)
    → c.max_rx_frame_size ≡ limit
    → c.closed ≡ false
    → step left c ≡ inl c
    → ¬ Within all limit [] left c
not_within all limit [] c same o t k = absurd (
    omega
      (arith, ap length k.bytes, length-append c.frame [], length-append k.b (stream k.bs), k.part))
not_within all limit (x ∷ left) c same o t k =
    goes_not all limit [] (x ∷ left) c t (within-Moves all limit [] (x ∷ left) c refl same o k)

last-Delivered :
    (all : List Bytes) (limit : ℕ) (r : Connection × Bytes) → Rests all limit [] r → Delivered all r
last-Delivered all limit (c, left) s =
    let p = s.pending in
    elim p.place [
      | inl k ↦
          let (nil, done) =
            none_left all limit left k.bs c p.same p.open_yet k.idle k.fits k.bytes k.gives
              s.stops in
          record { frames = done; idle = k.idle; left = nil }
      | inr k ↦ elim (not_within all limit left c p.same p.open_yet s.stops k) [ ]
    ]

-- A receiver that is between frames and open gives out exactly the frames that were written, in
-- their order, and is between frames again with no byte left and open, in whatever chunks the bytes
-- of the frames come, each of a size that the receiver takes: not empty, and within its limit and
-- the four bytes of a size.
pub receive_chunks-stream :
    (bs chunks : List Bytes) (c : Connection)
    → c.size_received ≡ false
    → c.closed ≡ false
    → All (Fits c.max_rx_frame_size) bs
    → concat chunks ≡ stream bs
    → ((receive_chunks chunks [] c).0.frames ≡ arrived bs c.frames)
      × ((receive_chunks chunks [] c).0.size_received ≡ false)
      × ((receive_chunks chunks [] c).1 ≡ [])
      × ((receive_chunks chunks [] c).0.closed ≡ false)
unfolding step
receive_chunks-stream bs chunks c idle o f e =
    let start : Pending (arrived bs c.frames) c.max_rx_frame_size (concat chunks) [] c = record {
      same = refl;
      open_yet = o;
      place = inl (record { bs = bs; idle = idle; fits = f; bytes = e; gives = refl });
    } in
    let s =
      receive_chunks-Rests (arrived bs c.frames) c.max_rx_frame_size chunks [] c
        (record { pending = start; stops = refl }) in
    let d = last-Delivered (arrived bs c.frames) c.max_rx_frame_size _ s in
    (d.frames, d.idle, d.left, s.pending.open_yet)
