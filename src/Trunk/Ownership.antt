-- ===== src/Trunk/Ownership.antt =====
-- `isLocalTG` and `shouldRelayInbound` of Reflector.cpp.
use geu_reflector.Base.{
  ℕ, ◌≤◌, ◌≡◌, sym, subst, ◌∙◌, true, false, ◌&&◌, List, [], ◌∷◌, Bytes, ltb, leb, if◌then◌else◌,
  length, to_string, has_prefix, has_prefix_unique, Elem, Bool-cases, inl, inr, arith,
}
use Prim.Native.Nat.{max}
use geu_reflector.Trunk.Prefixes.{Routes, is_shared_tg}
use geu_reflector.Trunk.Routing.{
  longest, longest-nil, longest-cons, longest_mono, longest_found, has_longer-longest,
  is_shared_tg-longest, claims,
}
use geu_reflector.Trunk.State.{Reflector}
use geu_reflector.Trunk.Relay.{best_local, is_local_tg}

best_local-longest :
    (s : Bytes) (b : ℕ) (ps : List Bytes) → best_local s b ps ≡ max b (longest s ps)
unfolding best_local
best_local-longest s b [] = rw (longest-nil s) (omega arith)
best_local-longest s b (p ∷ ps) =
    best_local-longest s (if has_prefix s p && ltb b (length p) then length p else b) ps
    ∙ rw (longest-cons s p ps) (ground arith)

-- A talk group is the reflector's own exactly where the longest of its own prefixes that match is at
-- least as long as every prefix of the mesh that matches.
pub is_local_tg-longest :
    (r : Reflector) (tg : ℕ)
    → is_local_tg r tg ≡ (
        ltb 0 (longest (to_string tg) r.local_prefixes)
        && leb (longest (to_string tg) r.all_prefixes) (longest (to_string tg) r.local_prefixes))
unfolding is_local_tg
is_local_tg-longest r tg =
    let s = to_string tg in
    ground (
      arith,
      best_local-longest s 0 r.local_prefixes,
      has_longer-longest s (best_local s 0 r.local_prefixes) r.all_prefixes,
    )

-- No link carries a talk group of the reflector itself by its prefixes: where reflector and link
-- know the same prefixes of the mesh, the claims of both among them, and the link claims none of the
-- reflector's prefixes, default routes aside.
is_local_tg-apart :
    (r : Reflector) (q : Routes) (tg : ℕ)
    → q.routable_wildcard ≡ false
    → q.all_prefixes ≡ r.all_prefixes
    → ((p : Bytes) → Elem p r.local_prefixes → Elem p r.all_prefixes)
    → ((p : Bytes) → Elem p (claims q) → Elem p r.all_prefixes)
    → ((p : Bytes) → Elem p r.local_prefixes → ¬ Elem p (claims q))
    → is_local_tg r tg ≡ true
    → is_shared_tg q tg ≡ false
is_local_tg-apart r q tg wq same kr kq apart hr = elim (Bool-cases (is_shared_tg q tg)) [
  | inr no_q ↦ no_q
  | inl hq ↦
      let s = to_string tg in
      let sr = is_local_tg-longest r tg in
      let sq = is_shared_tg-longest q tg in
      let br = longest_mono s r.local_prefixes r.all_prefixes kr in
      let bq = longest_mono s (claims q) r.all_prefixes kq in
      let lq : longest s r.all_prefixes ≤ longest s (claims q) =
        rw same at (let x : longest s q.all_prefixes ≤ longest s (claims q) = ground arith in x) in
      let (p, bp) = longest_found s r.local_prefixes (ground arith) in
      let (o, bo) = longest_found s (claims q) (ground arith) in
      let e = has_prefix_unique s p o bp.1 bo.1 (ground (arith, bp.2, bo.2)) in
      absurd (apart p bp.0 (subst (λ w. Elem w (claims q)) (sym e) bo.0))
]
