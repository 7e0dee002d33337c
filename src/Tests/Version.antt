-- ===== src/Tests/Version.antt =====
-- Versions within a range and outside it.
use geu_reflector.ProtoVer.{Version, VersionRange}

abbrev two_zero : Version
two_zero = record { major_ver = 2; minor_ver = 0 }

abbrev three_zero : Version
three_zero = record { major_ver = 3; minor_ver = 0 }

abbrev two_nine : Version
two_nine = record { major_ver = 2; minor_ver = 9 }

abbrev second_range : VersionRange
second_range = record { min_ver = two_zero; max_ver = three_zero }
