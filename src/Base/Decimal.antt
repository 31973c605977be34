-- ===== src/Base/Decimal.antt =====
-- `str::parse::<i64>` and `i64::to_string`, on the bytes of a text.
use Prim.Native.Nat.{ℕ, zero, suc, ◌+◌, ◌-◌, ◌*◌, ◌/◌, ◌%◌}
use Prim.Native.Char.{code}
use Prim.Native.String.{String}
use mathlib.Core.Path.{◌≡◌, refl}
use mathlib.Core.Option
use mathlib.Core.Option.{Option, none, some}
use mathlib.Core.List.{List, [], ◌∷◌}
use joan.Base.Tests.{ltb, nat_beq, if◌then◌else◌}
use joan.Base.Int.{ℤ, pos, negsuc, neg, fits_i64, checked}
use joan.Base.Texts.{is_digit}

abbrev pub codes : String → List ℕ
codes String.[] = []
codes (String.◌∷◌ c s) = code c ∷ codes s

-- The digits, after the number that those before them make.
unfoldable pub digits : ℕ → List ℕ → Option ℕ
digits n [] = some n
digits n (c ∷ s) = let rest = digits (n * 10 + (c - b'0')) s in if is_digit c then rest else none

-- At least one digit.
abbrev pub natural : List ℕ → Option ℕ
natural [] = none
natural (c ∷ s) = digits 0 (c ∷ s)

abbrev pub in_range : Option ℤ → Option ℤ
in_range none = none
in_range (some n) = checked n

-- One sign is allowed, `+` too.
unfoldable pub parse_codes : List ℕ → Option ℤ
unfolding digits fits_i64 neg
parse_codes [] = none
parse_codes (c ∷ s) =
    if nat_beq c b'-'
    then in_range (Option.map (λ n. neg (pos n)) (natural s))
    else (if nat_beq c b'+'
        then in_range (Option.map pos (natural s))
        else in_range (Option.map pos (natural (c ∷ s))))

unfoldable pub parse_i64 : String → Option ℤ
unfolding parse_codes
parse_i64 s = parse_codes (codes s)

-- The decimal digits of a number below 10 to the power of the fuel, before those given.
unfoldable pub decimal : ℕ → ℕ → List ℕ → List ℕ
decimal zero n rest = rest
decimal (suc fuel) n rest =
    let more = decimal fuel (n / 10) ((b'0' + n % 10) ∷ rest) in
    if ltb n 10 then (b'0' + n) ∷ rest else more

-- An `i64` has 19 digits at most.
unfoldable pub to_string : ℤ → List ℕ
unfolding decimal
to_string (pos n) = decimal 20 n []
to_string (negsuc n) = b'-' ∷ decimal 20 (suc n) []

print_minimum : to_string (negsuc 9_223_372_036_854_775_807) ≡ codes "-9223372036854775808"
unfolding to_string
print_minimum = refl

parse_overflow : parse_i64 "9223372036854775808" ≡ none
unfolding parse_i64
parse_overflow = refl

parse_negative : parse_i64 "-120" ≡ some (negsuc 119)
unfolding parse_i64
parse_negative = refl
