-- ===== src/Trunk/Sanitized.antt =====
-- `sanitizeIdent` and `sanitizeText` of TrunkLink.cpp against a filter.
use geu_reflector.Base.{
  ℕ, zero, suc, ◌-◌, ◌<◌, ◌≡◌, refl, sym, ◌∙◌, true, ◌||◌, [], ◌∷◌, ◌++◌, Bytes, leb, ◌==◌,
  if◌then◌else◌, length, length-append, take, append_assoc, append-nil, Bool-cases, inl, inr, arith,
}
use geu_reflector.Trunk.Ident.{
  is_control, sanitize_ident, sanitize_ident_from, sanitize_text, sanitize_text_from,
}

-- The characters of an identifier that are kept.
unfoldable pub keep_ident : Bytes → Bytes
keep_ident [] = []
keep_ident (c ∷ cs) =
    let rest = keep_ident cs in if is_control c || c == b':' then rest else c ∷ rest

unfoldable pub keep_text : Bytes → Bytes
keep_text [] = []
keep_text (c ∷ cs) = let rest = keep_text cs in if is_control c then rest else c ∷ rest

take-nil : (n : ℕ) → take {A = ℕ} n [] ≡ []
take-nil zero = refl
take-nil (suc n) = refl

minus_zero : (n : ℕ) (s : Bytes) → take (n - 0) s ≡ take n s
minus_zero n s = let e : n - 0 ≡ n = omega arith in rw e refl

take-step : (n m c : ℕ) (s : Bytes) → m < n → take (n - m) (c ∷ s) ≡ c ∷ take (n - suc m) s
take-step n m c s h = let e : n - m ≡ suc (n - suc m) = omega arith in rw e refl

after_one :
    (n : ℕ) (out s : Bytes) (c : ℕ)
    → length out < n
    → leb n (length (out ++ c ∷ [])) ≡ true
    → out ++ take (n - length out) (c ∷ s) ≡ out ++ c ∷ []
after_one n out s c h full =
    let e : n - suc (length out) ≡ 0 = ground (arith, length-append out (c ∷ [])) in
    rw (take-step n (length out) c s h, e) refl

after_more :
    (n : ℕ) (out s : Bytes) (c : ℕ)
    → length out < n
    → (out ++ c ∷ []) ++ take (n - length (out ++ c ∷ [])) s ≡ out ++ take (n - length out) (c ∷ s)
after_more n out s c h =
    let e : n - length (out ++ c ∷ []) ≡ n - suc (length out) =
      omega (arith, length-append out (c ∷ [])) in
    rw (take-step n (length out) c s h, e) (append_assoc out (c ∷ []) _)

sanitize_ident_from_lem :
    (out s : Bytes) (n : ℕ)
    → length out < n
    → sanitize_ident_from out n s ≡ out ++ take (n - length out) (keep_ident s)
unfolding sanitize_ident_from keep_ident
sanitize_ident_from_lem out [] n h = rw (take-nil (n - length out)) (sym (append-nil out))
sanitize_ident_from_lem out (c ∷ s) n h =
    let skip = sanitize_ident_from_lem out s n h in
    elim (Bool-cases (is_control c || c == b':')) [
      | inl e ↦ ground (arith, skip)
      | inr e ↦ elim (Bool-cases (leb n (length (out ++ c ∷ [])))) [
        | inl full ↦ ground (arith, after_one n out (keep_ident s) c h full)
        | inr room ↦
            let go = sanitize_ident_from_lem (out ++ c ∷ []) s n (ground arith) in
            ground (arith, go, after_more n out (keep_ident s) c h)
      ]
    ]

sanitize_text_from_lem :
    (out s : Bytes) (n : ℕ)
    → length out < n
    → sanitize_text_from out n s ≡ out ++ take (n - length out) (keep_text s)
unfolding sanitize_text_from keep_text
sanitize_text_from_lem out [] n h = rw (take-nil (n - length out)) (sym (append-nil out))
sanitize_text_from_lem out (c ∷ s) n h =
    let skip = sanitize_text_from_lem out s n h in
    elim (Bool-cases (is_control c)) [
      | inl e ↦ ground (arith, skip)
      | inr e ↦ elim (Bool-cases (leb n (length (out ++ c ∷ [])))) [
        | inl full ↦ ground (arith, after_one n out (keep_text s) c h full)
        | inr room ↦
            let go = sanitize_text_from_lem (out ++ c ∷ []) s n (ground arith) in
            ground (arith, go, after_more n out (keep_text s) c h)
      ]
    ]

-- An identifier becomes the first `max_len` of its characters that are neither a control character
-- nor a colon, for a positive `max_len`.
pub sanitize_ident_lem :
    (s : Bytes) (max_len : ℕ) → 0 < max_len → sanitize_ident s max_len ≡ take max_len (keep_ident s)
unfolding sanitize_ident
sanitize_ident_lem s n h = sanitize_ident_from_lem [] s n h ∙ minus_zero n (keep_ident s)

-- A text becomes the first `max_bytes` of its bytes that are not control characters, for a
-- positive `max_bytes`.
pub sanitize_text_lem :
    (s : Bytes) (max_bytes : ℕ)
    → 0 < max_bytes
    → sanitize_text s max_bytes ≡ take max_bytes (keep_text s)
unfolding sanitize_text
sanitize_text_lem s n h = sanitize_text_from_lem [] s n h ∙ minus_zero n (keep_text s)
