-- ===== src/ProtoVer/Order.antt =====
-- The comparisons of ProtoVer.h against the order of the numbers of 32 bits.
use geu_reflector.Base.{ℕ, ◌+◌, ◌*◌, ◌<◌, ◌≡◌, refl, ◌≢◌, ◌⊎◌, ◌↔◌, not, ◌&&◌, ltb, leb, arith}
use geu_reflector.ProtoVer.{
  Version, VersionRange, equal, unequal, less, greater, at_most, at_least, is_within_range,
}

-- Both numbers of a version in one.
abbrev pub code_of : Version → ℕ
code_of v = v.major_ver * 65536 + v.minor_ver

-- A version with a minor number of 16 bits.
abbrev pub IsShort : Version → Type 0
IsShort v = v.minor_ver < 65536

pub less-code_of : (v w : Version) → IsShort v → IsShort w → less v w ≡ ltb (code_of v) (code_of w)
unfolding less
less-code_of v w a b = ground arith

at_most-code_of :
    (v w : Version) → IsShort v → IsShort w → at_most v w ≡ leb (code_of v) (code_of w)
unfolding at_most equal less
at_most-code_of v w a b = ground arith

at_least-code_of :
    (v w : Version) → IsShort v → IsShort w → at_least v w ≡ leb (code_of w) (code_of v)
unfolding at_least equal greater
at_least-code_of v w a b = ground arith

-- A version is within a range exactly where its code is between the codes of the range's ends, for
-- versions whose minor numbers have 16 bits.
is_within_range-code_of :
    (r : VersionRange) (v : Version)
    → IsShort r.min_ver
    → IsShort r.max_ver
    → IsShort v
    → is_within_range r v
      ≡ (leb (code_of r.min_ver) (code_of v) && leb (code_of v) (code_of r.max_ver))
unfolding is_within_range
is_within_range-code_of r v a b c =
    rw (at_least-code_of v r.min_ver c a, at_most-code_of v r.max_ver c b) refl

-- `!=` is the negation of `==` exactly for versions with different major or with equal minor
-- numbers: two versions that differ in the minor number alone are neither equal nor unequal.
unequal_iff :
    (v w : Version)
    → (unequal v w ≡ not (equal v w)) ↔ ((v.major_ver ≢ w.major_ver) ⊎ (v.minor_ver ≡ w.minor_ver))
unfolding unequal equal
unequal_iff v w = ground arith
