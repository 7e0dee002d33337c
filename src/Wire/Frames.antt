-- ===== src/Wire/Frames.antt =====
-- TrunkLink.cpp and ReflectorMsg.h: the bytes of a frame as the message that a link handles.
use geu_reflector.Base.{
  ℕ, ◌<◌, ◌≡◌, refl, sym, ap, ◌∙◌, Bool, true, false, ◌∷◌, ◌++◌, Option, none, some, Bytes, ◌==◌,
  if◌then◌else◌, Option-cases, inl, inr, is_empty, is_empty-append_cons, arith,
}
use geu_reflector.Trunk.State.{
  World, Reflector, Msg, heartbeat, hello, talker_start, talker_stop, audio, flush, tg_interest,
}
use geu_reflector.Trunk.Frames.{Frame, bad_header, bad_body, odd_frame, message, on_frame_received}
use geu_reflector.Wire.Codec.{Codec, and_then_ok, and_then_bytes, unpack-pack, unpack-cut}
use geu_reflector.Wire.Numbers.{u16, u16_value, u16_packs, u32}
use geu_reflector.Wire.Peers.{
  hello_codec, tg_and_text, tg_and_blob, text_and_tgs, type_of, pack_members, is_msg, pack_msg,
}

-- A body that unpacks makes a message.
abbrev pub made : {A : Type 0} → Bool → (A → Msg) → Option (A × Bytes) → Frame
made early f none = bad_body early
made early f (some (a, rest)) = message (f a)

-- The switch on the type of the header.
unfoldable pub unpack_members : ℕ → Bytes → Frame
unpack_members t rest =
    if t == 120
    then message heartbeat
    else if t == 115
    then made true hello (hello_codec.unpack rest)
    else if t == 116
    then made false (λ p. talker_start p.0 p.1) (tg_and_text.unpack rest)
    else if t == 117
    then made false talker_stop (u32.unpack rest)
    else if t == 118
    then made false (λ p. audio p.0 p.1) (tg_and_blob.unpack rest)
    else if t == 119
    then made false flush (u32.unpack rest)
    else if t == 129
    then made false (λ p. tg_interest p.0 p.1) (text_and_tgs.unpack rest)
    else odd_frame

unfoldable pub frame_of : Bytes → Frame
frame_of bs = elim (u16.unpack bs) [ none ↦ bad_header | some (t, rest) ↦ unpack_members t rest ]

-- `onFrameReceived` on the bytes of a frame.
unfoldable pub on_frame_bytes : Reflector → ℕ → ℕ → Bytes → World → World
on_frame_bytes r now con bs w = on_frame_received r now con (frame_of bs) w

made-pack :
    {A : Type 0} (c : Codec A) (early : Bool) (f : A → Msg) (a : A)
    → c.is_value a ≡ true
    → (c.pack a).1 ≡ true
    → made early f (c.unpack (c.pack a).0) ≡ message (f a)
made-pack c early f a v ok = ap (made early f) (c.round a v ok)

unpack_members-pack_members :
    (m : Msg)
    → is_msg m ≡ true
    → (pack_members m).1 ≡ true
    → unpack_members (type_of m) (pack_members m).0 ≡ message m
unfolding unpack_members pack_members type_of is_msg
unpack_members-pack_members heartbeat v ok = refl
unpack_members-pack_members (hello h) v ok = made-pack hello_codec true hello h v ok
unpack_members-pack_members (talker_start tg cs) v ok =
    made-pack tg_and_text false (λ p. talker_start p.0 p.1) (tg, cs) v ok
unpack_members-pack_members (talker_stop tg) v ok = made-pack u32 false talker_stop tg v ok
unpack_members-pack_members (audio tg samples) v ok =
    made-pack tg_and_blob false (λ p. audio p.0 p.1) (tg, samples) v ok
unpack_members-pack_members (flush tg) v ok = made-pack u32 false flush tg v ok
unpack_members-pack_members (tg_interest p tgs) v ok =
    made-pack text_and_tgs false (λ p. tg_interest p.0 p.1) (p, tgs) v ok

type_of-bound : (m : Msg) → type_of m < 65536
unfolding type_of
type_of-bound heartbeat = omega arith
type_of-bound (hello h) = omega arith
type_of-bound (talker_start tg cs) = omega arith
type_of-bound (talker_stop tg) = omega arith
type_of-bound (audio tg samples) = omega arith
type_of-bound (flush tg) = omega arith
type_of-bound (tg_interest p tgs) = omega arith

pub frame_of-header :
    (t : ℕ) (rest : Bytes) → t < 65536 → frame_of ((u16.pack t).0 ++ rest) ≡ unpack_members t rest
unfolding frame_of
frame_of-header t rest h = rw (frame_of, unpack-pack u16 t rest (u16_value t h) (u16_packs t)) refl

-- A message between peers that packs is the message that the other side's link handles.
pub frame_of-pack_msg :
    (m : Msg) → is_msg m ≡ true → (pack_msg m).1 ≡ true → frame_of (pack_msg m).0 ≡ message m
unfolding pack_msg
frame_of-pack_msg m v ok =
    rw (and_then_bytes (u16.pack (type_of m)) (pack_members m) (u16_packs (type_of m))) (
      frame_of-header (type_of m) (pack_members m).0 (type_of-bound m)
      ∙ unpack_members-pack_members m v (and_then_ok (u16.pack (type_of m)) (pack_members m) ok).1)

abbrev pub is_message : Frame → Bool
is_message bad_header = false
is_message (bad_body early) = false
is_message odd_frame = false
is_message (message m) = true

made-cut :
    {A : Type 0} (c : Codec A) (early : Bool) (f : A → Msg) (a : A) (p q : Bytes) (x : ℕ)
    → c.is_value a ≡ true
    → (c.pack a).1 ≡ true
    → p ++ x ∷ q ≡ (c.pack a).0
    → is_message (made early f (c.unpack p)) ≡ false
made-cut c early f a p q x v ok cut =
    ap (λ o. is_message (made early f o)) (unpack-cut c a p q x v ok cut)

unpack_members-cut :
    (m : Msg) (p q : Bytes) (x : ℕ)
    → is_msg m ≡ true
    → (pack_members m).1 ≡ true
    → p ++ x ∷ q ≡ (pack_members m).0
    → is_message (unpack_members (type_of m) p) ≡ false
unfolding unpack_members pack_members type_of is_msg
unpack_members-cut heartbeat p q x v ok cut =
    absurd (ground (arith, ap is_empty cut, is_empty-append_cons p x q))
unpack_members-cut (hello h) p q x v ok cut = made-cut hello_codec true hello h p q x v ok cut
unpack_members-cut (talker_start tg cs) p q x v ok cut =
    made-cut tg_and_text false (λ z. talker_start z.0 z.1) (tg, cs) p q x v ok cut
unpack_members-cut (talker_stop tg) p q x v ok cut =
    made-cut u32 false talker_stop tg p q x v ok cut
unpack_members-cut (audio tg samples) p q x v ok cut =
    made-cut tg_and_blob false (λ z. audio z.0 z.1) (tg, samples) p q x v ok cut
unpack_members-cut (flush tg) p q x v ok cut = made-cut u32 false flush tg p q x v ok cut
unpack_members-cut (tg_interest i tgs) p q x v ok cut =
    made-cut text_and_tgs false (λ z. tg_interest z.0 z.1) (i, tgs) p q x v ok cut

-- A message that packs, with bytes missing at its end, is not taken for a message.
frame_of-cut :
    (m : Msg) (p q : Bytes) (x : ℕ)
    → is_msg m ≡ true
    → (pack_msg m).1 ≡ true
    → p ++ x ∷ q ≡ (pack_msg m).0
    → is_message (frame_of p) ≡ false
unfolding pack_msg frame_of
frame_of-cut m p q x v ok cut =
    let t = type_of m in
    let whole : p ++ x ∷ q ≡ (u16.pack t).0 ++ (pack_members m).0 =
      cut ∙ and_then_bytes (u16.pack t) (pack_members m) (u16_packs t) in
    elim (Option-cases (u16.unpack p)) [
      | inl n ↦ rw (frame_of, n) refl
      | inr ((u, r), e) ↦
          let read : some (u, r ++ x ∷ q) ≡ some (t, (pack_members m).0) =
            sym (u16.extend p r (x ∷ q) u e)
            ∙ ap u16.unpack whole
            ∙ unpack-pack u16 t (pack_members m).0 (u16_value t (type_of-bound m)) (u16_packs t) in
          let same : u ≡ t = ground (arith, read) in
          let rest : r ++ x ∷ q ≡ (pack_members m).0 = ground (arith, read) in
          rw (frame_of, e)
            (ap (λ k. is_message (unpack_members k r)) same
              ∙ unpack_members-cut m r q x v (and_then_ok (u16.pack t) (pack_members m) ok).1 rest)
    ]
