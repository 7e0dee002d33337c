-- ===== src/Framing/Rounds.antt =====
-- The rounds of the loop of onDataReceived, over a part of a stream of frames.
use Prim.Native.Nat.{min}
use geu_reflector.Base.{
  ℕ, ◌+◌, ◌-◌, ◌<◌, ◌≡◌, ◌==◌, refl, sym, ap, ◌∙◌, true, false, List, [], ◌∷◌, ◌++◌, append_assoc,
  some, Bytes, ltb, All, length, length-append, take-drop, length-take, length-drop, append_left,
  append_right, is_empty, take, drop, ◌⊎◌, inl, inr, Bool-cases, arith,
}
use geu_reflector.Framing.Receive.{Connection, queue_item, size_bytes, read_size, step}
use geu_reflector.Framing.Stream.{size_of_bytes, Fits, stream, arrived}

-- Between two frames: `buf` is there, `rest` is to come, and together they are the frames `bs`.
pub record Between (all : List Bytes) (limit : ℕ) (rest buf : Bytes) (c : Connection) : Type 0 where
  pub bs : List Bytes
  pub idle : c.size_received ≡ false
  pub fits : All (Fits limit) bs
  pub bytes : buf ++ rest ≡ stream bs
  pub gives : arrived bs c.frames ≡ all

-- Within the frame `b`, of which the connection has the first bytes.
pub record Within (all : List Bytes) (limit : ℕ) (rest buf : Bytes) (c : Connection) : Type 0 where
  pub b : Bytes
  pub bs : List Bytes
  pub sized : c.size_received ≡ true
  pub size : c.frame_size ≡ length b
  pub part : length c.frame < length b
  pub fits : All (Fits limit) bs
  pub bytes : c.frame ++ (buf ++ rest) ≡ b ++ stream bs
  pub gives : arrived bs (b ∷ c.frames) ≡ all

pub record Pending (all : List Bytes) (limit : ℕ) (rest buf : Bytes) (c : Connection) : Type 0 where
  pub same : c.max_rx_frame_size ≡ limit
  pub open_yet : c.closed ≡ false
  pub place : Between all limit rest buf c ⊎ Within all limit rest buf c

head_or : ℕ → Bytes → ℕ
head_or d [] = d
head_or d (x ∷ xs) = x

tail_of : Bytes → Bytes
tail_of [] = []
tail_of (x ∷ xs) = xs

-- The size at the front of the bytes of a frame.
read_size-front :
    (x y z w : ℕ) (buf rest b more : Bytes)
    → length b < 4294967296
    → x ∷ y ∷ z ∷ w ∷ buf ++ rest ≡ queue_item b ++ more
    → (read_size (x ∷ y ∷ z ∷ w ∷ buf) ≡ some (length b, buf)) × (buf ++ rest ≡ b ++ more)
unfolding read_size queue_item size_bytes head_or tail_of
read_size-front x y z w buf rest b more h e =
    let t1 = ap tail_of e in
    let t2 = ap tail_of t1 in
    let t3 = ap tail_of t2 in
    let a = ap (head_or 0) e in
    let b' = ap (head_or 0) t1 in
    let c = ap (head_or 0) t2 in
    let d = ap (head_or 0) t3 in (rw (a, b', c, d, size_of_bytes (length b) h) refl, ap tail_of t3)

some_bytes : (b : Bytes) → is_empty b ≡ false → 0 < length b
some_bytes [] h = absurd (ground arith)
some_bytes (x ∷ b) h = omega arith

-- What a round does: it takes bytes, or leaves the loop with the connection as it is.
pub record Moves (all : List Bytes) (limit : ℕ) (rest buf : Bytes) (c : Connection) : Type 0 where
  pub buf' : Bytes
  pub c' : Connection
  pub goes : step buf c ≡ inr (buf', c')
  pub shorter : length buf' < length buf
  pub pending : Pending all limit rest buf' c'

abbrev pub Round : List Bytes → ℕ → Bytes → Bytes → Connection → Type 0
Round all limit rest buf c = (step buf c ≡ inl c) ⊎ Moves all limit rest buf c

pub size-Moves :
    (all : List Bytes) (limit x y z w : ℕ) (rest buf b : Bytes) (bs : List Bytes) (c : Connection)
    → c.max_rx_frame_size ≡ limit
    → c.closed ≡ false
    → c.size_received ≡ false
    → Fits limit b
    → All (Fits limit) bs
    → x ∷ y ∷ z ∷ w ∷ buf ++ rest ≡ stream (b ∷ bs)
    → arrived (b ∷ bs) c.frames ≡ all
    → Moves all limit rest (x ∷ y ∷ z ∷ w ∷ buf) c
unfolding step stream arrived
size-Moves all limit x y z w rest buf b bs c same o idle f fs e g =
    let (read, left) = read_size-front x y z w buf rest b (stream bs) f.short e in
    let fit : ltb c.max_rx_frame_size (length b) ≡ false = ground (arith, f.limited) in
    record {
      buf' = buf;
      c' = record c { frame_size = length b; frame = []; size_received = true };
      goes = rw (idle, read, fit) refl;
      shorter = omega arith;
      pending = record {
        same = same;
        open_yet = o;
        place = inr (record {
          b = b;
          bs = bs;
          sized = refl;
          size = refl;
          part = some_bytes b f.some_byte;
          fits = fs;
          bytes = left;
          gives = g;
        });
      };
    }

between-Round :
    (all : List Bytes) (limit : ℕ) (rest buf : Bytes) (c : Connection)
    → c.max_rx_frame_size ≡ limit
    → c.closed ≡ false
    → Between all limit rest buf c
    → Round all limit rest buf c
unfolding stream read_size step
between-Round all limit rest [] c same o k = inl refl
between-Round all limit rest (x ∷ []) c same o k = inl (rw k.idle refl)
between-Round all limit rest (x ∷ y ∷ []) c same o k = inl (rw k.idle refl)
between-Round all limit rest (x ∷ y ∷ z ∷ []) c same o k = inl (rw k.idle refl)
between-Round all limit rest (x ∷ y ∷ z ∷ w ∷ buf) c same o k = go k.bs k.fits k.bytes k.gives
  where
    go :
        (bs : List Bytes)
        → All (Fits limit) bs
        → x ∷ y ∷ z ∷ w ∷ buf ++ rest ≡ stream bs
        → arrived bs c.frames ≡ all
        → Round all limit rest (x ∷ y ∷ z ∷ w ∷ buf) c
    go [] f e g = absurd (ground (arith, ap is_empty e))
    go (b ∷ bs) f e g = inr (size-Moves all limit x y z w rest buf b bs c same o k.idle f.0 f.1 e g)

-- The bytes of the frame that are taken, and those that stay.
copied : Bytes → Connection → ℕ
copied buf c = min (c.frame_size - length c.frame) (length buf)

grown : Bytes → Connection → Bytes
unfolding copied
grown buf c = c.frame ++ take (copied buf c) buf

grown-bytes :
    (rest buf more : Bytes) (c : Connection)
    → c.frame ++ (buf ++ rest) ≡ more
    → grown buf c ++ (drop (copied buf c) buf ++ rest) ≡ more
unfolding grown
grown-bytes rest buf more c e =
    let n = copied buf c in
    append_assoc c.frame (take n buf) (drop n buf ++ rest)
    ∙ (ap (λ t. c.frame ++ t)
          (sym (append_assoc (take n buf) (drop n buf) rest)
            ∙ ap (λ t. t ++ rest) (take-drop n buf))
        ∙ e)

length-grown : (buf : Bytes) (c : Connection) → length (grown buf c) ≡ length c.frame + copied buf c
unfolding grown copied
length-grown buf c =
    omega (arith, length-append c.frame (take (copied buf c) buf), length-take (copied buf c) buf)

pub within-Moves :
    (all : List Bytes) (limit : ℕ) (rest buf : Bytes) (c : Connection)
    → is_empty buf ≡ false
    → c.max_rx_frame_size ≡ limit
    → c.closed ≡ false
    → Within all limit rest buf c
    → Moves all limit rest buf c
unfolding step grown copied
within-Moves all limit rest buf c full same o k =
    let n = copied buf c in
    let there = some_bytes buf full in
    let long = length-grown buf c in
    let shorter : length (drop n buf) < length buf =
      omega (arith, length-drop n buf, there, k.part, k.size) in
    let bytes = grown-bytes rest buf (k.b ++ stream k.bs) c k.bytes in
    elim (Bool-cases (length (grown buf c) == c.frame_size)) [
      | inl e ↦
          let ends : length (grown buf c) ≡ length k.b = ground (arith, k.size) in
          let is_b = append_left (grown buf c) k.b _ _ ends bytes in
          record {
            buf' = drop n buf;
            c' = record c {
              frame = grown buf c;
              size_received = false;
              frames = grown buf c ∷ c.frames;
            };
            goes = rw (full, k.sized, e) refl;
            shorter = shorter;
            pending = record {
              same = same;
              open_yet = o;
              place = inl (record {
                bs = k.bs;
                idle = refl;
                fits = k.fits;
                bytes = append_right (grown buf c) k.b _ _ ends bytes;
                gives = ap (λ t. arrived k.bs (t ∷ c.frames)) is_b ∙ k.gives;
              });
            };
          }
      | inr e ↦ record {
        buf' = drop n buf;
        c' = record c { frame = grown buf c };
        goes = rw (full, k.sized, e) refl;
        shorter = shorter;
        pending = record {
          same = same;
          open_yet = o;
          place = inr (record {
            b = k.b;
            bs = k.bs;
            sized = k.sized;
            size = k.size;
            part = ground (arith, long, k.part, k.size);
            fits = k.fits;
            bytes = bytes;
            gives = k.gives;
          });
        };
      }
    ]

pub Pending-Round :
    (all : List Bytes) (limit : ℕ) (rest buf : Bytes) (c : Connection)
    → Pending all limit rest buf c
    → Round all limit rest buf c
unfolding step
Pending-Round all limit rest [] c p = inl refl
Pending-Round all limit rest (x ∷ buf) c p = elim p.place [
  | inl k ↦ between-Round all limit rest (x ∷ buf) c p.same p.open_yet k
  | inr k ↦ inr (within-Moves all limit rest (x ∷ buf) c refl p.same p.open_yet k)
]
