-- ===== src/Wire/Codec.antt =====
-- AsyncMsg.h: `MsgPacker<T>` as an interface, and the members of a message in their order.
use geu_reflector.Base.{
  ℕ, ◌+◌, ◌≡◌, refl, and_true, sym, ap, ◌∙◌, Bool, true, false, ◌&&◌, [], ◌∷◌, ◌++◌, Option, none,
  some, Bytes, length, is_empty, is_empty-append_cons, length-append, Option-cases, inl, inr, arith,
}

-- What `pack` writes, and what it returns: a pack that fails has written the bytes before that.
-- `is_value` holds of what a variable of the type can hold, and can be packed without loss.
-- A text that unpacks does so in front of any other bytes, which are left.
pub record Codec (A : Type 0) : Type 0 where
  pub is_value : A → Bool
  pub pack : A → Bytes × Bool
  pub packed_size : A → ℕ
  pub unpack : Bytes → Option (A × Bytes)
  pub round : (a : A) → is_value a ≡ true → (pack a).1 ≡ true → unpack (pack a).0 ≡ some (a, [])
  pub extend :
      (bs rest q : Bytes) (a : A)
      → unpack bs ≡ some (a, rest)
      → unpack (bs ++ q) ≡ some (a, rest ++ q)
  pub sized : (a : A) → is_value a ≡ true → (pack a).1 ≡ true → length (pack a).0 ≡ packed_size a

module _ {A : Type 0} (c : Codec A) where
  -- A packed value is read back in front of anything.
  pub unpack-pack :
      (a : A) (q : Bytes)
      → c.is_value a ≡ true
      → (c.pack a).1 ≡ true
      → c.unpack ((c.pack a).0 ++ q) ≡ some (a, q)
  unpack-pack a q v ok = c.extend (c.pack a).0 [] q a (c.round a v ok)

  -- A packed value that is cut short does not unpack.
  pub unpack-cut :
      (a : A) (p q : Bytes) (x : ℕ)
      → c.is_value a ≡ true
      → (c.pack a).1 ≡ true
      → p ++ x ∷ q ≡ (c.pack a).0
      → c.unpack p ≡ none
  unpack-cut a p q x v ok cut = elim (Option-cases (c.unpack p)) [
    | inl n ↦ n
    | inr ((b, r), e) ↦
        let whole : some (b, r ++ x ∷ q) ≡ some (a, []) =
          sym (c.extend p r (x ∷ q) b e) ∙ ap c.unpack cut ∙ c.round a v ok in
        let left : r ++ x ∷ q ≡ [] = ground (arith, whole) in
        absurd (ground (arith, ap is_empty left, is_empty-append_cons r x q))
  ]

-- `pack(os, v1) && pack(os, v2)`
unfoldable pub and_then : Bytes × Bool → Bytes × Bool → Bytes × Bool
and_then (x, true) (y, ok) = (x ++ y, ok)
and_then (x, false) (y, ok) = (x, false)

pub and_then_ok : (x y : Bytes × Bool) → (and_then x y).1 ≡ true → (x.1 ≡ true) × (y.1 ≡ true)
unfolding and_then
and_then_ok (x, true) (y, ok) h = (refl, h)
and_then_ok (x, false) (y, ok) h = absurd (ground arith)

pub and_then_bytes : (x y : Bytes × Bool) → x.1 ≡ true → (and_then x y).0 ≡ x.0 ++ y.0
unfolding and_then
and_then_bytes (x, true) (y, ok) h = refl
and_then_bytes (x, false) (y, ok) h = absurd (ground arith)

module _ {A B : Type 0} (a : Codec A) (b : Codec B) where
  unfoldable pub pack_two : A × B → Bytes × Bool
  pack_two (x, y) = and_then (a.pack x) (b.pack y)

  unfoldable pub unpack_second : A → Option (B × Bytes) → Option ((A × B) × Bytes)
  unpack_second x none = none
  unpack_second x (some (y, rest)) = some ((x, y), rest)

  unfoldable pub unpack_first : Option (A × Bytes) → Option ((A × B) × Bytes)
  unfolding unpack_second
  unpack_first none = none
  unpack_first (some (x, rest)) = unpack_second x (b.unpack rest)

  unfoldable pub unpack_two : Bytes → Option ((A × B) × Bytes)
  unfolding unpack_first
  unpack_two bs = unpack_first (a.unpack bs)

  abbrev pub is_value_two : A × B → Bool
  is_value_two (x, y) = a.is_value x && b.is_value y

  pub round_two :
      (p : A × B)
      → is_value_two p ≡ true
      → (pack_two p).1 ≡ true
      → unpack_two (pack_two p).0 ≡ some (p, [])
  unfolding pack_two unpack_two unpack_first unpack_second
  round_two (x, y) v ok =
      let oks = and_then_ok (a.pack x) (b.pack y) ok in
      let vs = and_true (a.is_value x) (b.is_value y) v in
      rw
        (
          and_then_bytes (a.pack x) (b.pack y) oks.0,
          unpack-pack a x (b.pack y).0 vs.0 oks.0,
          b.round y vs.1 oks.1,
        )
        refl

  pub extend_two :
      (bs rest q : Bytes) (p : A × B)
      → unpack_two bs ≡ some (p, rest)
      → unpack_two (bs ++ q) ≡ some (p, rest ++ q)
  unfolding unpack_two unpack_first unpack_second
  extend_two bs rest q p e = elim (Option-cases (a.unpack bs)) [
    | inl n ↦ absurd (ground (arith, e, n))
    | inr ((x, r), ea) ↦ elim (Option-cases (b.unpack r)) [
      | inl n ↦ absurd (ground (arith, rw (ea, n) at e))
      | inr ((y, r'), eb) ↦
          rw (a.extend bs r q x ea, b.extend r r' q y eb)
            (ap (λ o. elim o [ none ↦ none | some (p', s) ↦ some (p', s ++ q) ]) (rw (ea, eb) at e))
    ]
  ]

  pub sized_two :
      (p : A × B)
      → is_value_two p ≡ true
      → (pack_two p).1 ≡ true
      → length (pack_two p).0 ≡ a.packed_size p.0 + b.packed_size p.1
  unfolding pack_two
  sized_two (x, y) v ok =
      let oks = and_then_ok (a.pack x) (b.pack y) ok in
      let vs = and_true (a.is_value x) (b.is_value y) v in
      rw
        (
          and_then_bytes (a.pack x) (b.pack y) oks.0,
          length-append (a.pack x).0 (b.pack y).0,
          a.sized x vs.0 oks.0,
          b.sized y vs.1 oks.1,
        )
        refl

  abbrev pub two : Codec (A × B)
  two = record {
    is_value = is_value_two;
    pack = pack_two;
    packed_size = λ p. a.packed_size p.0 + b.packed_size p.1;
    unpack = unpack_two;
    round = round_two;
    extend = extend_two;
    sized = sized_two;
  }

-- Reading from a stream: a value and the bytes behind it, or a failure.
abbrev pub Reader : Type 0 → Type 0
Reader A = Bytes → Option (A × Bytes)

abbrev pub Extends : {A : Type 0} → Reader A → Type 0
Extends {A} r =
    (bs rest q : Bytes) (a : A) → r bs ≡ some (a, rest) → r (bs ++ q) ≡ some (a, rest ++ q)

options_apart : {A : Type 0} {a : A} → ¬ (none ≡ some a)
options_apart e = ground (arith, e)

-- A reader that goes on with what another one read.
unfoldable pub then_read : {A B : Type 0} → Reader A → (A → Reader B) → Reader B
then_read r k bs = elim (r bs) [ none ↦ none | some (a, rest) ↦ k a rest ]

unfoldable pub give : {A : Type 0} → A → Reader A
give a bs = some (a, bs)

pub give-Extends : {A : Type 0} (a : A) → Extends (give a)
unfolding give
give-Extends a bs rest q b e = cc

pub then_read-some :
    {A B : Type 0} (r : Reader A) (k : A → Reader B) (bs rest : Bytes) (a : A)
    → r bs ≡ some (a, rest)
    → then_read r k bs ≡ k a rest
unfolding then_read
then_read-some r k bs rest a e = rw (then_read, e) refl

then_read-none :
    {A B : Type 0} (r : Reader A) (k : A → Reader B) (bs : Bytes)
    → r bs ≡ none
    → then_read r k bs ≡ none
unfolding then_read
then_read-none r k bs e = rw (then_read, e) refl

pub then_read-Extends :
    {A B : Type 0} (r : Reader A) (k : A → Reader B)
    → Extends r
    → ((a : A) → Extends (k a))
    → Extends (then_read r k)
then_read-Extends r k er ek bs rest q b e = elim (Option-cases (r bs)) [
  | inl n ↦ absurd (options_apart (sym (then_read-none r k bs n) ∙ e))
  | inr ((a, r'), ea) ↦
      then_read-some r k (bs ++ q) (r' ++ q) a (er bs r' q a ea)
      ∙ ek a r' rest q b (sym (then_read-some r k bs r' a ea) ∙ e)
]

-- A type that is another one under its own names.
module _ {A B : Type 0} (to : A → B) (from : B → A) (back : (b : B) → to (from b) ≡ b)
    (c : Codec A) where
  unfoldable pub unpack_as : Reader B
  unpack_as = then_read c.unpack (λ a. give (to a))

  pub round_as :
      (b : B)
      → c.is_value (from b) ≡ true
      → (c.pack (from b)).1 ≡ true
      → unpack_as (c.pack (from b)).0 ≡ some (b, [])
  unfolding unpack_as give
  round_as b v ok =
      then_read-some c.unpack (λ a. give (to a)) (c.pack (from b)).0 [] (from b)
        (c.round (from b) v ok)
      ∙ ap (λ x. some (x, [])) (back b)

  pub extend_as : Extends unpack_as
  unfolding unpack_as
  extend_as = then_read-Extends c.unpack (λ a. give (to a)) c.extend (λ a. give-Extends (to a))

  abbrev pub renamed : Codec B
  renamed = record {
    is_value = λ b. c.is_value (from b);
    pack = λ b. c.pack (from b);
    packed_size = λ b. c.packed_size (from b);
    unpack = unpack_as;
    round = round_as;
    extend = extend_as;
    sized = λ b. c.sized (from b);
  }
