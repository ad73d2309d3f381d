-- ===== src/Durations.antt =====
-- shared/utils/parse-duration.util.ts: `parseDurationToSeconds`. `Numbers` is what `Number` makes of a
-- text, where that is finite, with the whole numbers among the results.
use negare_api.Base.{ℕ, ◌+◌, ◌-◌, ◌*◌, ◌≡◌, refl, [], ◌∷◌, Option, none, some, if◌then◌else◌, ◌==◌}
use negare_api.Base.Text.{Text, codes, is_digit, lower, lower_unit, trim, trim_start}

pub record Numbers : Type 1 where
  pub Num : Type 0
  pub of_nat : ℕ → Num
  pub number : Text → Option Num

-- `UNIT_IN_SECONDS`
unfoldable pub unit_in_seconds : ℕ → Option ℕ
unit_in_seconds u =
    if u == b's'
    then some 1
    else if u == b'm'
    then some 60
    else if u == b'h'
    then some 3600
    else if u == b'd'
    then some 86400
    else none

-- The seconds of `/^(\d+)([smhd])?$/` from the digits on, with their value so far.
unfoldable pub match_digits : (value : ℕ) → Text → Option ℕ
match_digits value [] = some value
match_digits value (c ∷ []) =
    if is_digit c
    then some (value * 10 + (c - b'0'))
    else elim (unit_in_seconds c) [ none ↦ none | some n ↦ some (value * n) ]
match_digits value (c ∷ d ∷ t) =
    let rest = match_digits (value * 10 + (c - b'0')) (d ∷ t) in if is_digit c then rest else none

unfoldable pub match_duration : Text → Option ℕ
match_duration [] = none
match_duration (c ∷ t) = if is_digit c then match_digits 0 (c ∷ t) else none

module _ (n : Numbers) where
  abbrev or_number : Option n.Num → n.Num → n.Num
  or_number none default = default
  or_number (some x) default = x

  unfoldable pub parse_trimmed : Text → n.Num → n.Num
  parse_trimmed trimmed default_seconds = elim (match_duration trimmed) [
    | some seconds ↦ n.of_nat seconds
    | none ↦ or_number (n.number trimmed) default_seconds
  ]

  unfoldable pub parse_duration_to_seconds : Option Text → n.Num → n.Num
  parse_duration_to_seconds none default_seconds = default_seconds
  parse_duration_to_seconds (some []) default_seconds = default_seconds
  parse_duration_to_seconds (some (c ∷ t)) default_seconds =
      parse_trimmed (lower (trim (c ∷ t))) default_seconds

abbrev whole : Numbers
whole = record { Num = ℕ; of_nat = λ n. n; number = λ t. none }

parse_tests :
    (parse_duration_to_seconds whole (some (codes " 10M ")) 600 ≡ 600)
    × (parse_duration_to_seconds whole (some (codes "45d")) 600 ≡ 3888000)
    × (parse_duration_to_seconds whole (some (codes "90")) 600 ≡ 90)
    × (parse_duration_to_seconds whole (some (codes "h")) 7 ≡ 7)
    × (parse_duration_to_seconds whole none 5 ≡ 5)
unfolding parse_duration_to_seconds parse_trimmed match_duration match_digits unit_in_seconds lower
    lower_unit trim trim_start
parse_tests = (refl, refl, refl, refl, refl)
