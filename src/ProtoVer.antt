-- ===== src/ProtoVer.antt =====
-- svxlink/reflector/ProtoVer.h: protocol versions and ranges of them. The numbers have 16 bits.
-- Order: the comparisons as numbers.
pub mod Order
use geu_reflector.Base.{ℕ, Bool, true, false, not, ◌&&◌, ◌||◌, ltb, ◌==◌}

pub record Version : Type 0 where
  pub major_ver : ℕ
  pub minor_ver : ℕ

unfoldable pub is_valid : Version → Bool
is_valid v = ltb 0 v.major_ver || ltb 0 v.minor_ver

unfoldable pub equal : Version → Version → Bool
equal v w = (v.major_ver == w.major_ver) && (v.minor_ver == w.minor_ver)

-- `operator !=`
unfoldable pub unequal : Version → Version → Bool
unequal v w = not (v.major_ver == w.major_ver)

unfoldable pub less : Version → Version → Bool
less v w =
    ltb v.major_ver w.major_ver || ((v.major_ver == w.major_ver) && ltb v.minor_ver w.minor_ver)

unfoldable pub greater : Version → Version → Bool
greater v w =
    ltb w.major_ver v.major_ver || ((v.major_ver == w.major_ver) && ltb w.minor_ver v.minor_ver)

unfoldable pub at_most : Version → Version → Bool
at_most v w = equal v w || less v w

unfoldable pub at_least : Version → Version → Bool
at_least v w = equal v w || greater v w

pub record VersionRange : Type 0 where
  pub min_ver : Version
  pub max_ver : Version

unfoldable pub range_is_valid : VersionRange → Bool
range_is_valid r = is_valid r.min_ver && is_valid r.max_ver

unfoldable pub is_within_range : VersionRange → Version → Bool
is_within_range r v = at_least v r.min_ver && at_most v r.max_ver
