-- ===== src/Formats/Tests.antt =====
-- Intervals and sizes at concrete numbers.
use mxzz_bi.Prelude.{◌≡◌, refl, none, some, true, false}
use mxzz_bi.Formats.{hours, weeks, seconds_to_interval, duration_humanize, unit_of, pretty_unit}

humanized :
    (duration_humanize false 5400 ≡ some (some 2, hours))
    × (duration_humanize true 604800 ≡ some (none, weeks))
unfolding duration_humanize seconds_to_interval unit_of pretty_unit
humanized = (refl, refl)
