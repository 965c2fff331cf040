-- ===== src/Utils/Time.antt =====
-- utils/time.go: durations in nanoseconds, with a default. `time.ParseDuration` is a parameter.
use gobetween.Base.{String, Option, none, some, ◌=s◌, if◌then◌else◌}
use gobetween.Base.Int.{ℤ}

parsed : Option ℤ → ℤ → ℤ
parsed none default = default
parsed (some d) default = d

-- `ParseDurationOrDefault`
unfoldable pub parse_duration_or_default : (String → Option ℤ) → String → ℤ → ℤ
unfolding parsed
parse_duration_or_default parse_duration s default =
    if s =s "" then default else parsed (parse_duration s) default
