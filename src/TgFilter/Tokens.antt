-- ===== src/TgFilter/Tokens.antt =====
-- One entry of TgFilter.h: a printed entry is a token that reads back as the entry.
use geu_reflector.Base.{
  ℕ, ◌<◌, ◌^◌, ◌≡◌, refl, sym, ap, ap₂, ◌∙◌, true, false, [], ◌∷◌, ◌++◌, append_assoc, append-nil,
  subst, is_empty-append_cons, none, some, Bytes, ◌==◌, is_empty, All, All-append, to_string, trim,
  IsNot, IsDigit, to_string-All, stoul-to_string, is_empty-to_string, head_ok, trim-snoc, arith,
  is_blank,
}
use geu_reflector.TgFilter.Entry.{
  Entry, exact, prefix, range, ends_star, drop_last, split_at, range_entry, exact_entry,
  parse_token, print_entry,
}

-- The entries that the parser makes: numbers of 32 bits, and prefixes with no comma and no blank
-- in front.
abbrev pub IsParsed : Entry → Type 0
IsParsed (exact v) = v < 2 ^ 32
IsParsed (prefix p) = All (IsNot b',') p × (head_ok (p ++ b'*' ∷ []) ≡ true)
IsParsed (range a b) = (a < 2 ^ 32) × (b < 2 ^ 32)

pub IsDigit-IsNot : (d : ℕ) (s : Bytes) → d < 48 → All IsDigit s → All (IsNot d) s
IsDigit-IsNot d [] lt h = tt
IsDigit-IsNot d (x ∷ s) lt h = (ground (arith, h.0), IsDigit-IsNot d s lt h.1)

pub ends_star-snoc : (s : Bytes) (x : ℕ) → ends_star (s ++ x ∷ []) ≡ (x == b'*')
unfolding ends_star
ends_star-snoc [] x = refl
ends_star-snoc (y ∷ []) x = refl
ends_star-snoc (y ∷ z ∷ s) x = ends_star-snoc (z ∷ s) x

pub drop_last-snoc : (s : Bytes) (x : ℕ) → drop_last (s ++ x ∷ []) ≡ s
unfolding drop_last
drop_last-snoc [] x = refl
drop_last-snoc (y ∷ []) x = refl
drop_last-snoc (y ∷ z ∷ s) x = ap (◌∷◌ y) (drop_last-snoc (z ∷ s) x)

ends_star-IsDigit : (s : Bytes) → All IsDigit s → ends_star s ≡ false
unfolding ends_star
ends_star-IsDigit [] h = refl
ends_star-IsDigit (x ∷ []) h = ground (arith, h.0)
ends_star-IsDigit (x ∷ y ∷ s) h = ends_star-IsDigit (y ∷ s) h.1

ends_star-append : (s : Bytes) (x : ℕ) (t : Bytes) → ends_star (s ++ x ∷ t) ≡ ends_star (x ∷ t)
unfolding ends_star
ends_star-append [] x t = refl
ends_star-append (y ∷ []) x t = refl
ends_star-append (y ∷ z ∷ s) x t = ends_star-append (z ∷ s) x t

split_at-none : (d : ℕ) (s : Bytes) → All (IsNot d) s → split_at d s ≡ none
unfolding split_at
split_at-none d [] h = refl
split_at-none d (x ∷ s) h = rw (h.0, split_at-none d s h.1)

split_at-some : (d : ℕ) (s t : Bytes) → All (IsNot d) s → split_at d (s ++ d ∷ t) ≡ some (s, t)
unfolding split_at
split_at-some d [] t h = ground arith
split_at-some d (x ∷ s) t h = rw (h.0, split_at-some d s t h.1)

dash_not_star :
    (s t : Bytes) → All IsDigit t → is_empty t ≡ false → ends_star (s ++ b'-' ∷ t) ≡ false
dash_not_star s [] h e = cc
dash_not_star s (x ∷ t) h e =
    ends_star-append s b'-' (x ∷ t) ∙ unfold ends_star in ends_star-IsDigit (x ∷ t) h

pub parse_token-print_entry : (e : Entry) → IsParsed e → parse_token (print_entry e) ≡ some e
unfolding parse_token print_entry
parse_token-print_entry (exact v) h =
    rw
      (
        ends_star-IsDigit (to_string v) (to_string-All v),
        split_at-none b'-' (to_string v) (IsDigit-IsNot b'-' _ (omega arith) (to_string-All v)),
        stoul-to_string v (omega arith),
      )
      (unfold exact_entry in ap (λ n. some (exact n)) (omega arith))
parse_token-print_entry (prefix p) h = rw (ends_star-snoc p b'*', drop_last-snoc p b'*')
parse_token-print_entry (range a b) h =
    rw
      (
        dash_not_star (to_string a) (to_string b) (to_string-All b) (is_empty-to_string b),
        split_at-some b'-' (to_string a) (to_string b)
            (IsDigit-IsNot b'-' _ (omega arith) (to_string-All a)),
        stoul-to_string a (omega arith),
        stoul-to_string b (omega arith),
      )
      (unfold range_entry in ap₂ (λ m n. some (range m n)) (omega arith) (omega arith))

IsDigit-append-IsNot :
    (d : ℕ) (s t : Bytes) → d < 45 → All IsDigit s → All IsDigit t → All (IsNot d) (s ++ b'-' ∷ t)
IsDigit-append-IsNot d s t lt h k =
    All-append (IsNot d) s (b'-' ∷ t) (IsDigit-IsNot d s (omega arith) h)
      (ground arith, IsDigit-IsNot d t (omega arith) k)

-- A printed entry is a nonempty token without commas that trimming leaves alone.
pub record IsToken (t : Bytes) : Type 0 where
  pub no_comma : All (IsNot b',') t
  pub trimmed : trim t ≡ t
  pub nonempty : is_empty t ≡ false

IsDigit-head_ok : (s t : Bytes) → All IsDigit s → is_empty s ≡ false → head_ok (s ++ t) ≡ true
IsDigit-head_ok [] t h e = cc
IsDigit-head_ok (x ∷ s) t h e = ground (arith, h.0)

-- Every nonempty text is a text with one more byte behind it.
pub snoc_view : (s : Bytes) → is_empty s ≡ false → (t : Bytes) × (x : ℕ) × (s ≡ t ++ x ∷ [])
snoc_view [] e = cc
snoc_view (x ∷ []) e = ([], x, refl)
snoc_view (x ∷ y ∷ s) e = let (t, z, p) = snoc_view (y ∷ s) refl in (x ∷ t, z, ap (◌∷◌ x) p)

pub last_of_All : (P : ℕ → Type 0) (t : Bytes) (x : ℕ) → All P (t ++ x ∷ []) → P x
last_of_All P [] x h = h.0
last_of_All P (y ∷ t) x h = last_of_All P t x h.1

IsDigit-blank : (x : ℕ) → IsDigit x → is_blank x ≡ false
IsDigit-blank x h = ground arith

-- Text that begins with no blank and ends with a digit is trimmed.
trim-ends_digit :
    (s t : Bytes)
    → head_ok (s ++ t) ≡ true
    → All IsDigit t
    → is_empty t ≡ false
    → trim (s ++ t) ≡ s ++ t
trim-ends_digit s t h d e =
    let (u, x, p) = snoc_view t e in
    let digit = last_of_All IsDigit u x (subst (All IsDigit) p d) in
    let q : s ++ t ≡ (s ++ u) ++ x ∷ [] = ap (◌++◌ s) p ∙ sym (append_assoc s u (x ∷ [])) in
    subst (λ w. trim w ≡ w) (sym q)
      (trim-snoc (s ++ u) x (subst (λ w. head_ok w ≡ true) q h) (IsDigit-blank x digit))

pub print_entry-IsToken : (e : Entry) → IsParsed e → IsToken (print_entry e)
unfolding print_entry
print_entry-IsToken (exact v) h = record {
  no_comma = IsDigit-IsNot b',' _ (omega arith) (to_string-All v);
  trimmed =
      trim-ends_digit [] (to_string v)
        (subst (λ w. head_ok w ≡ true) (append-nil (to_string v))
          (IsDigit-head_ok (to_string v) [] (to_string-All v) (is_empty-to_string v)))
        (to_string-All v) (is_empty-to_string v);
  nonempty = is_empty-to_string v;
}
print_entry-IsToken (prefix p) h = record {
  no_comma = All-append (IsNot b',') p _ h.0 (refl, tt);
  trimmed = trim-snoc p b'*' h.1 refl;
  nonempty = is_empty-append_cons p b'*' [];
}
print_entry-IsToken (range a b) h = record {
  no_comma =
      IsDigit-append-IsNot b',' (to_string a) (to_string b) (omega arith) (to_string-All a)
        (to_string-All b);
  trimmed =
      subst (λ w. trim w ≡ w) (append_assoc (to_string a) (b'-' ∷ []) (to_string b))
        (trim-ends_digit (to_string a ++ b'-' ∷ []) (to_string b)
          (subst (λ w. head_ok w ≡ true)
            (sym (append_assoc (to_string a) (b'-' ∷ []) (to_string b)))
            (IsDigit-head_ok (to_string a) _ (to_string-All a) (is_empty-to_string a)))
          (to_string-All b) (is_empty-to_string b));
  nonempty = is_empty-append_cons (to_string a) b'-' (to_string b);
}
