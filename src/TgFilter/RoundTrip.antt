-- ===== src/TgFilter/RoundTrip.antt =====
-- A printed filter of TgFilter.h reads back as itself.
use geu_reflector.Base.{
  ℕ, ◌≡◌, refl, sym, ap, subst, some_eq, ◌∙◌, inl, inr, true, false, List, [], ◌∷◌, ◌++◌,
  append_assoc, subst, Option, none, some, Bytes, if◌then◌else◌, is_empty, All, stoul, get_lines,
  trim, IsNot, head_ok, trim-head_ok, trim-All, get_lines-All, get_lines_one, get_lines_cons, arith,
  ==_iff, Bool-cases,
}
use geu_reflector.TgFilter.Tokens.{
  IsParsed, snoc_view, drop_last-snoc, parse_token-print_entry, print_entry-IsToken, ends_star-snoc,
}
use geu_reflector.TgFilter.Entry.{
  Entry, prefix, TgFilter, ends_star, drop_last, split_at, range_entry, exact_entry, parse_token,
  push, parse_lines, parse, print_entry, print_from, filter_to_string,
}

get_lines_token :
    (t s : Bytes)
    → All (IsNot b',') t
    → is_empty t ≡ false
    → get_lines b',' (t ++ b',' ∷ s) ≡ t ∷ get_lines b',' s
get_lines_token [] s h e = cc
get_lines_token (x ∷ t) s h e = get_lines_cons b',' x t s h

get_lines_last : (t : Bytes) → All (IsNot b',') t → is_empty t ≡ false → get_lines b',' t ≡ t ∷ []
get_lines_last [] h e = cc
get_lines_last (x ∷ t) h e = get_lines_one b',' x t h

parse_lines-print_entry :
    (e : Entry) (ls : List Bytes)
    → IsParsed e
    → parse_lines (print_entry e ∷ ls) ≡ e ∷ parse_lines ls
unfolding parse_lines
parse_lines-print_entry e ls h =
    let t = print_entry-IsToken e h in rw (t.trimmed, t.nonempty, parse_token-print_entry e h)

print_from-append :
    (a b : Bytes) (f : TgFilter) → is_empty b ≡ false → print_from (a ++ b) f ≡ a ++ print_from b f
unfolding print_from
print_from-append a b [] n = refl
print_from-append a b (e ∷ f) n =
    rw (n, is_empty-append a b n)
      (subst (λ w. print_from w f ≡ a ++ print_from ((b ++ b',' ∷ []) ++ print_entry e) f)
        (sym (
          ap (λ w. w ++ print_entry e) (append_assoc a b (b',' ∷ []))
          ∙ append_assoc a (b ++ b',' ∷ []) (print_entry e)))
        (print_from-append a ((b ++ b',' ∷ []) ++ print_entry e) f (longer b (print_entry e))))
  where
    is_empty-append : (s t : Bytes) → is_empty t ≡ false → is_empty (s ++ t) ≡ false
    is_empty-append [] t h = h
    is_empty-append (x ∷ s) t h = refl

    longer : (s t : Bytes) → is_empty ((s ++ b',' ∷ []) ++ t) ≡ false
    longer [] t = refl
    longer (x ∷ s) t = refl

print_from-cons :
    (e : Entry) (r : Bytes) (f : TgFilter)
    → IsParsed e
    → is_empty r ≡ false
    → print_from r (e ∷ f) ≡ r ++ b',' ∷ print_from (print_entry e) f
unfolding print_from
print_from-cons e r f p n = rw n (
    print_from-append (r ++ b',' ∷ []) (print_entry e) f (print_entry-IsToken e p).nonempty
    ∙ append_assoc r (b',' ∷ []) (print_from (print_entry e) f))

parse-print_from :
    (e : Entry) (f : TgFilter)
    → IsParsed e
    → All IsParsed f
    → parse_lines (get_lines b',' (print_from (print_entry e) f)) ≡ e ∷ f
parse-print_from e [] p h =
    let t = print_entry-IsToken e p in
    unfold print_from in
    rw (get_lines_last (print_entry e) t.no_comma t.nonempty)
      (parse_lines-print_entry e [] p ∙ unfold parse_lines in refl)
parse-print_from e (e' ∷ f) p h =
    let t = print_entry-IsToken e p in
    rw (
      print_from-cons e' (print_entry e) f h.0 t.nonempty,
      get_lines_token (print_entry e) (print_from (print_entry e') f) t.no_comma t.nonempty,
      parse_lines-print_entry e (get_lines b',' (print_from (print_entry e') f)) p,
      parse-print_from e' f h.0 h.1,
    )

-- A filter of entries that the parser can make, printed and parsed again, is the same filter.
parse-filter_to_string : (f : TgFilter) → All IsParsed f → parse (filter_to_string f) ≡ f
unfolding parse filter_to_string
parse-filter_to_string [] h = unfold print_from get_lines parse_lines in refl
parse-filter_to_string (e ∷ f) h = unfold print_from in parse-print_from e f h.0 h.1

range_entry-IsParsed : (a b : Option ℕ) (e : Entry) → range_entry a b ≡ some e → IsParsed e
unfolding range_entry
range_entry-IsParsed (some a) (some b) e h = subst IsParsed (some_eq h) (omega arith, omega arith)
range_entry-IsParsed none b e h = cc
range_entry-IsParsed (some a) none e h = cc

exact_entry-IsParsed : (a : Option ℕ) (e : Entry) → exact_entry a ≡ some e → IsParsed e
unfolding exact_entry
exact_entry-IsParsed (some a) e h = subst IsParsed (some_eq h) (omega arith)
exact_entry-IsParsed none e h = cc

All-front : (P : ℕ → Type 0) (t : Bytes) (x : ℕ) → All P (t ++ x ∷ []) → All P t
All-front P [] x h = tt
All-front P (y ∷ t) x h = (h.0, All-front P t x h.1)

ends_star-nonempty : (t : Bytes) → ends_star t ≡ true → is_empty t ≡ false
unfolding ends_star
ends_star-nonempty [] h = cc
ends_star-nonempty (x ∷ t) h = refl

star_token :
    (t : Bytes)
    → ends_star t ≡ true
    → All (IsNot b',') t
    → head_ok t ≡ true
    → IsParsed (prefix (drop_last t))
star_token t s c h =
    let (u, x, e) = snoc_view t (ends_star-nonempty t s) in
    let star : x ≡ b'*' =
      (==_iff x b'*').0 (sym (ends_star-snoc u x) ∙ subst (λ w. ends_star w ≡ true) e s) in
    let ends : t ≡ u ++ b'*' ∷ [] = e ∙ ap (λ y. u ++ y ∷ []) star in
    subst (λ w. IsParsed (prefix w)) (sym (drop_last-snoc u b'*') ∙ sym (ap drop_last ends))
      (
        All-front (IsNot b',') u b'*' (subst (All (IsNot b',')) ends c),
        subst (λ w. head_ok w ≡ true) ends h,
      )

-- The part of the parser behind the test for a star.
number_token : Option (Bytes × Bytes) → Bytes → Option Entry
number_token (some (a, b)) t = range_entry (stoul a) (stoul b)
number_token none t = exact_entry (stoul t)

number_token-IsParsed :
    (o : Option (Bytes × Bytes)) (t : Bytes) (e : Entry) → number_token o t ≡ some e → IsParsed e
unfolding number_token
number_token-IsParsed (some (a, b)) t e p = range_entry-IsParsed (stoul a) (stoul b) e p
number_token-IsParsed none t e p = exact_entry-IsParsed (stoul t) e p

parse_token-cases :
    (t : Bytes)
    → parse_token t
      ≡ (if ends_star t then some (prefix (drop_last t)) else number_token (split_at b'-' t) t)
unfolding parse_token number_token
parse_token-cases t = ground arith

parse_token-IsParsed :
    (t : Bytes) (e : Entry)
    → All (IsNot b',') t
    → head_ok t ≡ true
    → parse_token t ≡ some e
    → IsParsed e
parse_token-IsParsed t e c h p = elim (Bool-cases (ends_star t)) [
  | inl s ↦ subst IsParsed (some_eq (sym (rw s at (parse_token-cases t)) ∙ p)) (star_token t s c h)
  | inr s ↦ number_token-IsParsed (split_at b'-' t) t e (sym (rw s at (parse_token-cases t)) ∙ p)
]

push-All :
    (o : Option Entry) (f : TgFilter)
    → ((e : Entry) → o ≡ some e → IsParsed e)
    → All IsParsed f
    → All IsParsed (push o f)
push-All none f p h = h
push-All (some e) f p h = (p e refl, h)

parse_lines-All : (ls : List Bytes) → All (All (IsNot b',')) ls → All IsParsed (parse_lines ls)
unfolding parse_lines
parse_lines-All [] h = tt
parse_lines-All (l ∷ ls) h = elim (Bool-cases (is_empty (trim l))) [
  | inl e ↦ rw e (parse_lines-All ls h.1)
  | inr e ↦ rw e (
      push-All (parse_token (trim l)) (parse_lines ls)
        (λ x p. parse_token-IsParsed (trim l) x (trim-All (IsNot b',') l h.0) (trim-head_ok l) p)
        (parse_lines-All ls h.1))
]

-- The parser makes only entries whose numbers have 32 bits and whose prefixes print and parse.
pub parse-IsParsed : (s : Bytes) → All IsParsed (parse s)
unfolding parse
parse-IsParsed s = parse_lines-All (get_lines b',' s) (get_lines-All b',' s)

-- Printing is a normal form: whatever the text was, the filter read from it is read again from
-- its printed form.
pub parse-filter_to_string-parse : (s : Bytes) → parse (filter_to_string (parse s)) ≡ parse s
parse-filter_to_string-parse s = parse-filter_to_string (parse s) (parse-IsParsed s)
