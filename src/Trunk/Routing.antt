-- ===== src/Trunk/Routing.antt =====
-- `isSharedTG` of TrunkLink.cpp is longest-prefix routing.
use Prim.Native.Nat.{max}
use geu_reflector.Base.{
  ℕ, ◌<◌, ◌≤◌, ◌≡◌, refl, sym, subst, ◌∙◌, inl, inr, Bool, true, false, ◌&&◌, List, [], ◌∷◌, ◌++◌,
  Bytes, ltb, leb, ◌||◌, if◌then◌else◌, length, to_string, has_prefix, has_prefix_unique, Elem,
  Bool-cases, arith,
}
use geu_reflector.Trunk.Prefixes.{Routes, best_match, has_longer, is_shared_tg}

-- The length of the longest prefix of `s` in the list, 0 where there is none.
pub longest : Bytes → List Bytes → ℕ
longest s [] = 0
longest s (p ∷ ps) = let rest = longest s ps in if has_prefix s p then max (length p) rest else rest

longest-append :
    (s : Bytes) (ps qs : List Bytes) → longest s (ps ++ qs) ≡ max (longest s ps) (longest s qs)
unfolding longest
longest-append s [] qs = omega arith
longest-append s (p ∷ ps) qs = ground (arith, longest-append s ps qs)

pub longest_bound :
    (s p : Bytes) (ps : List Bytes) → Elem p ps → has_prefix s p ≡ true → length p ≤ longest s ps
unfolding longest
longest_bound s p (q ∷ ps) (inl e) h =
    subst (λ w. length w ≤ longest s (q ∷ ps)) (sym e)
      (rw (subst (λ w. has_prefix s w ≡ true) e h) (omega arith))
longest_bound s p (q ∷ ps) (inr e) h = ground (arith, longest_bound s p ps e h)
longest_bound s p [] e h = elim e [ ]

-- A longest prefix of the number among the entries of a list.
abbrev pub IsBest : Bytes → List Bytes → Bytes → Type 0
IsBest s ps p = Elem p ps × (has_prefix s p ≡ true) × (length p ≡ longest s ps)

pub longest_found : (s : Bytes) (ps : List Bytes) → 0 < longest s ps → (p : Bytes) × IsBest s ps p
unfolding longest
longest_found s [] h = absurd (omega arith)
longest_found s (q ∷ ps) h = elim (Bool-cases (has_prefix s q)) [
  | inr b ↦
      let (p, best) = longest_found s ps (ground arith) in (p, (inr best.0, best.1, ground arith))
  | inl b ↦ elim (Bool-cases (ltb (longest s ps) (length q))) [
    | inl c ↦ (q, (inl refl, b, ground arith))
    | inr c ↦
        let (p, best) = longest_found s ps (ground arith) in (p, (inr best.0, best.1, ground arith))
  ]
]

best_match-cons :
    (s : Bytes) (b : ℕ) (m : Bool) (p : Bytes) (ps : List Bytes)
    → best_match s (b, m) (p ∷ ps)
      ≡ best_match s (if has_prefix s p && ltb b (length p) then (length p, true) else (b, m)) ps
unfolding best_match
best_match-cons s b m p ps = refl

pub longest-nil : (s : Bytes) → longest s [] ≡ 0
unfolding longest
longest-nil s = refl

pub longest-cons :
    (s p : Bytes) (ps : List Bytes)
    → longest s (p ∷ ps) ≡ (if has_prefix s p then max (length p) (longest s ps) else longest s ps)
unfolding longest
longest-cons s p ps = refl

best_match-longest :
    (s : Bytes) (b : ℕ) (m : Bool) (ps : List Bytes)
    → m ≡ ltb 0 b
    → ((best_match s (b, m) ps).0 ≡ max b (longest s ps))
      × ((best_match s (b, m) ps).1 ≡ ltb 0 (max b (longest s ps)))
best_match-longest s b m [] h = unfold best_match longest in (omega arith, ground arith)
best_match-longest s b m (p ∷ ps) h =
    rw (best_match-cons s b m p ps, longest-cons s p ps)
      (elim (Bool-cases (has_prefix s p && ltb b (length p))) [
        | inl c ↦
            let ih = best_match-longest s (length p) true ps (ground arith) in
            rw c (ih.0 ∙ ground arith, ih.1 ∙ ground arith)
        | inr c ↦
            let ih = best_match-longest s b m ps h in
            rw c (ih.0 ∙ ground arith, ih.1 ∙ ground arith)
      ])

pub has_longer-longest :
    (s : Bytes) (n : ℕ) (ps : List Bytes) → has_longer s n ps ≡ ltb n (longest s ps)
unfolding has_longer longest
has_longer-longest s n [] = ground arith
has_longer-longest s n (p ∷ ps) = ground (arith, has_longer-longest s n ps)

-- The claims of a link: what the peer owns, and what is reachable through it.
abbrev pub claims : Routes → List Bytes
claims r = r.remote_prefix ++ r.routable_prefixes

-- A link carries a talk group exactly when its longest claim is at least as long as every prefix
-- in the mesh that matches, and it has a claim or is a default route.
pub is_shared_tg-longest :
    (r : Routes) (tg : ℕ)
    → is_shared_tg r tg ≡ (
        (ltb 0 (longest (to_string tg) (claims r)) || r.routable_wildcard)
        && leb (longest (to_string tg) r.all_prefixes) (longest (to_string tg) (claims r)))
unfolding is_shared_tg
is_shared_tg-longest r tg =
    let s = to_string tg in
    let one = best_match-longest s 0 false r.remote_prefix refl in
    let b = best_match s (0, false) r.remote_prefix in
    let two = best_match-longest s b.0 b.1 r.routable_prefixes (ground (arith, one)) in
    ground (
      arith,
      one,
      two,
      longest-append s r.remote_prefix r.routable_prefixes,
      has_longer-longest s 0 r.all_prefixes,
      has_longer-longest s (best_match s b r.routable_prefixes).0 r.all_prefixes,
    )

-- Every prefix that the link claims is known in the mesh.
abbrev pub KnownIn : List Bytes → Routes → Type 0
KnownIn all r = (p : Bytes) → Elem p (claims r) → Elem p all

pub longest_mono :
    (s : Bytes) (ps qs : List Bytes)
    → ((p : Bytes) → Elem p ps → Elem p qs)
    → longest s ps ≤ longest s qs
longest_mono s ps qs sub = elim (Bool-cases (ltb 0 (longest s ps))) [
  | inl h ↦
      let (p, best) = longest_found s ps (ground arith) in
      omega (arith, best.2, longest_bound s p qs (sub p best.0) best.1)
  | inr h ↦ ground arith
]

-- No talk group is carried by two links of a reflector by their prefixes: where both know the same
-- prefixes of the mesh, their own among them, and claim no prefix in common, at most one carries
-- the talk group, default routes aside.
pub is_shared_tg_unique :
    (r q : Routes) (tg : ℕ)
    → r.routable_wildcard ≡ false
    → q.routable_wildcard ≡ false
    → q.all_prefixes ≡ r.all_prefixes
    → KnownIn r.all_prefixes r
    → KnownIn r.all_prefixes q
    → ((p : Bytes) → Elem p (claims r) → ¬ Elem p (claims q))
    → is_shared_tg r tg ≡ true
    → is_shared_tg q tg ≡ false
is_shared_tg_unique r q tg wr wq same kr kq apart hr = elim (Bool-cases (is_shared_tg q tg)) [
  | inr no_q ↦ no_q
  | inl hq ↦
      let s = to_string tg in
      let sr = is_shared_tg-longest r tg in
      let sq = is_shared_tg-longest q tg in
      let br = longest_mono s (claims r) r.all_prefixes kr in
      let bq = longest_mono s (claims q) r.all_prefixes kq in
      let lq : longest s r.all_prefixes ≤ longest s (claims q) =
        rw same at (let x : longest s q.all_prefixes ≤ longest s (claims q) = ground arith in x) in
      let (p, bp) = longest_found s (claims r) (ground arith) in
      let (o, bo) = longest_found s (claims q) (ground arith) in
      let e = has_prefix_unique s p o bp.1 bo.1 (ground (arith, bp.2, bo.2)) in
      absurd (apart p bp.0 (subst (λ w. Elem w (claims q)) (sym e) bo.0))
]
