-- ===== src/Server/Sorting.antt =====
-- Reflector.cpp: the comparison of sorted prefix lists is that of lists whatever their order.
use geu_reflector.Base.{
  ℕ, ◌+◌, ◌<◌, ◌≡◌, ◌↔◌, refl, sym, ap, subst, ◌∙◌, true, false, List, [], ◌∷◌, Bytes, bytes_eq,
  bytes_eq_self, bytes_eq→eq, if◌then◌else◌, All, Bool-cases, inl, inr, arith,
}
use geu_reflector.Server.Prefixes.{bytes_less, insert_sorted, sort, list_eq, same_prefixes}

-- How often a text stands in a list.
unfoldable pub count : Bytes → List Bytes → ℕ
count p [] = 0
count p (q ∷ qs) = let rest = count p qs in if bytes_eq p q then 1 + rest else rest

less_irrefl : (a : Bytes) → bytes_less a a ≡ false
unfolding bytes_less
less_irrefl [] = refl
less_irrefl (x ∷ a) = ground (arith, less_irrefl a)

less_asym : (a b : Bytes) → bytes_less a b ≡ true → bytes_less b a ≡ false
unfolding bytes_less
less_asym [] [] h = refl
less_asym [] (y ∷ b) h = refl
less_asym (x ∷ a) [] h = absurd (ground arith)
less_asym (x ∷ a) (y ∷ b) h = ground (arith, less_asym a b)

less_antisym : (a b : Bytes) → bytes_less a b ≡ false → bytes_less b a ≡ false → a ≡ b
unfolding bytes_less
less_antisym [] [] h k = refl
less_antisym [] (y ∷ b) h k = absurd (ground arith)
less_antisym (x ∷ a) [] h k = absurd (ground arith)
less_antisym (x ∷ a) (y ∷ b) h k = ground (arith, less_antisym a b)

-- `a <= b` and `b <= c` give `a <= c`.
at_most_trans :
    (a b c : Bytes) → bytes_less b a ≡ false → bytes_less c b ≡ false → bytes_less c a ≡ false
unfolding bytes_less
at_most_trans [] [] [] h k = refl
at_most_trans [] [] (z ∷ c) h k = refl
at_most_trans [] (y ∷ b) [] h k = refl
at_most_trans [] (y ∷ b) (z ∷ c) h k = refl
at_most_trans (x ∷ a) [] c h k = absurd (ground arith)
at_most_trans (x ∷ a) (y ∷ b) [] h k = absurd (ground arith)
at_most_trans (x ∷ a) (y ∷ b) (z ∷ c) h k = ground (arith, at_most_trans a b c)

abbrev IsLeast : Bytes → List Bytes → Type 0
IsLeast p qs = All (λ q. bytes_less q p ≡ false) qs

abbrev IsSorted : List Bytes → Type 0
IsSorted [] = Unit
IsSorted (p ∷ ps) = IsLeast p ps × IsSorted ps

IsLeast-below :
    (p q : Bytes) (qs : List Bytes) → bytes_less q p ≡ false → IsLeast q qs → IsLeast p qs
IsLeast-below p q [] h a = tt
IsLeast-below p q (r ∷ qs) h a = (at_most_trans p q r h a.0, IsLeast-below p q qs h a.1)

insert-IsLeast :
    (p q : Bytes) (qs : List Bytes)
    → bytes_less q p ≡ false
    → IsLeast p qs
    → IsLeast p (insert_sorted q qs)
unfolding insert_sorted
insert-IsLeast p q [] h a = (h, tt)
insert-IsLeast p q (r ∷ qs) h a = elim (Bool-cases (bytes_less r q)) [
  | inl e ↦ rw e (a.0, insert-IsLeast p q qs h a.1)
  | inr e ↦ rw e (h, (a.0, a.1))
]

insert-IsSorted : (p : Bytes) (qs : List Bytes) → IsSorted qs → IsSorted (insert_sorted p qs)
unfolding insert_sorted
insert-IsSorted p [] h = (tt, tt)
insert-IsSorted p (q ∷ qs) h = elim (Bool-cases (bytes_less q p)) [
  | inl e ↦ rw e (insert-IsLeast q p qs (less_asym q p e) h.0, insert-IsSorted p qs h.1)
  | inr e ↦ rw e ((e, IsLeast-below p q qs e h.0), h)
]

sort-IsSorted : (ps : List Bytes) → IsSorted (sort ps)
unfolding sort
sort-IsSorted [] = tt
sort-IsSorted (p ∷ ps) = insert-IsSorted p (sort ps) (sort-IsSorted ps)

count-insert_sorted :
    (a p : Bytes) (qs : List Bytes) → count a (insert_sorted p qs) ≡ count a (p ∷ qs)
unfolding count insert_sorted
count-insert_sorted a p [] = refl
count-insert_sorted a p (q ∷ qs) = ground (arith, count-insert_sorted a p qs)

count-sort : (a : Bytes) (ps : List Bytes) → count a (sort ps) ≡ count a ps
unfolding count sort
count-sort a [] = refl
count-sort a (p ∷ ps) = ground (arith, count-insert_sorted a p (sort ps), count-sort a ps)

-- A text that stands in a list is not below its least.
count-IsLeast :
    (a p : Bytes) (qs : List Bytes) → IsLeast p qs → 0 < count a qs → bytes_less a p ≡ false
unfolding count
count-IsLeast a p [] l h = absurd (omega arith)
count-IsLeast a p (q ∷ qs) l h = elim (Bool-cases (bytes_eq a q)) [
  | inl e ↦ subst (λ x. bytes_less x p ≡ false) (sym (bytes_eq→eq a q e)) l.0
  | inr e ↦ count-IsLeast a p qs l.1 (rw e at h)
]

count-head : (a : Bytes) (as' : List Bytes) → 0 < count a (a ∷ as')
unfolding count
count-head a as' = rw (bytes_eq_self a) (omega arith)

count-tail :
    (a : Bytes) (xs ys : List Bytes)
    → ((p : Bytes) → count p (a ∷ xs) ≡ count p (a ∷ ys))
    → (p : Bytes) → count p xs ≡ count p ys
unfolding count
count-tail a xs ys h p =
    let here : count p (a ∷ xs) ≡ count p (a ∷ ys) = h p in
    elim (Bool-cases (bytes_eq p a)) [ inl e ↦ omega (arith, rw e at here) | inr e ↦ rw e at here ]

count_nil : (p : Bytes) → count p [] ≡ 0
unfolding count
count_nil p = refl

sorted_unique :
    (xs ys : List Bytes)
    → IsSorted xs
    → IsSorted ys
    → ((p : Bytes) → count p xs ≡ count p ys)
    → xs ≡ ys
sorted_unique [] [] hx hy h = refl
sorted_unique [] (b ∷ bs) hx hy h = absurd (omega (arith, count-head b bs, h b, count_nil b))
sorted_unique (a ∷ xs) [] hx hy h = absurd (omega (arith, count-head a xs, h a, count_nil a))
sorted_unique (a ∷ xs) (b ∷ ys) hx hy h =
    let ab =
      count-IsLeast a b (b ∷ ys) (less_irrefl b, hy.0) (omega (arith, count-head a xs, h a)) in
    let ba =
      count-IsLeast b a (a ∷ xs) (less_irrefl a, hx.0) (omega (arith, count-head b ys, h b)) in
    let same : a ≡ b = less_antisym a b ab ba in
    let h' : (p : Bytes) → count p (a ∷ xs) ≡ count p (a ∷ ys) =
      subst (λ c. (p : Bytes) → count p (a ∷ xs) ≡ count p (c ∷ ys)) (sym same) h in
    rw (sym same) (ap (◌∷◌ a) (sorted_unique xs ys hx.1 hy.1 (count-tail a xs ys h')))

list_eq→eq : (xs ys : List Bytes) → list_eq xs ys ≡ true → xs ≡ ys
unfolding list_eq
list_eq→eq [] [] h = refl
list_eq→eq [] (y ∷ ys) h = absurd (ground arith)
list_eq→eq (x ∷ xs) [] h = absurd (ground arith)
list_eq→eq (x ∷ xs) (y ∷ ys) h = ground (arith, bytes_eq→eq x y, list_eq→eq xs ys)

list_eq_self : (xs : List Bytes) → list_eq xs xs ≡ true
unfolding list_eq
list_eq_self [] = refl
list_eq_self (x ∷ xs) = ground (arith, bytes_eq_self x, list_eq_self xs)

-- Two prefix lists are the same exactly where every prefix stands equally often in both.
same_prefixes_iff :
    (xs ys : List Bytes) → (same_prefixes xs ys ≡ true) ↔ ((p : Bytes) → count p xs ≡ count p ys)
unfolding same_prefixes
same_prefixes_iff xs ys = (
  λ h p. sym (count-sort p xs) ∙ ap (count p) (list_eq→eq (sort xs) (sort ys) h) ∙ count-sort p ys,
  λ h.
      subst (λ z. list_eq (sort xs) z ≡ true)
        (sorted_unique (sort xs) (sort ys) (sort-IsSorted xs) (sort-IsSorted ys)
          (λ p. count-sort p xs ∙ h p ∙ sym (count-sort p ys)))
        (list_eq_self (sort xs)),
)
