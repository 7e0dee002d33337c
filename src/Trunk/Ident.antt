-- ===== src/Trunk/Ident.antt =====
-- TrunkLink.cpp: what is kept of an identifier or a text that a peer sends.
use geu_reflector.Base.{ℕ, Bool, ◌||◌, [], ◌∷◌, ◌++◌, Bytes, ltb, leb, ◌==◌, if◌then◌else◌, length}

abbrev pub is_control : ℕ → Bool
is_control u = ltb u 32 || u == 127

unfoldable pub sanitize_ident_from : Bytes → ℕ → Bytes → Bytes
sanitize_ident_from out max_len [] = out
sanitize_ident_from out max_len (c ∷ cs) =
    let grown = out ++ c ∷ [] in
    let kept = if leb max_len (length grown) then grown else sanitize_ident_from grown max_len cs in
    if is_control c
    then sanitize_ident_from out max_len cs
    else if c == b':'
    then sanitize_ident_from out max_len cs
    else kept

unfoldable pub sanitize_ident : Bytes → ℕ → Bytes
unfolding sanitize_ident_from
sanitize_ident s max_len = sanitize_ident_from [] max_len s

unfoldable pub sanitize_text_from : Bytes → ℕ → Bytes → Bytes
sanitize_text_from out max_bytes [] = out
sanitize_text_from out max_bytes (c ∷ cs) =
    let grown = out ++ c ∷ [] in
    let kept =
      if leb max_bytes (length grown) then grown else sanitize_text_from grown max_bytes cs in
    if is_control c then sanitize_text_from out max_bytes cs else kept

unfoldable pub sanitize_text : Bytes → ℕ → Bytes
unfolding sanitize_text_from
sanitize_text s max_bytes = sanitize_text_from [] max_bytes s
