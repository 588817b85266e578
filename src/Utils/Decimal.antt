-- ===== src/Utils/Decimal.antt =====
-- strconv.Atoi and strconv.Itoa on a 64-bit int: the page tokens and numeric parameters.
use Prim.Native.Char.{Char, code}
use huaweicloud_csi_driver.Prelude.{
  ℕ, zero, suc, ◌+◌, ◌-◌, ◌*◌, ◌/◌, ◌%◌, String, ◌||◌, Option, none, some, List, [], ◌∷◌, ltb, leb,
  eqb, if◌then◌else◌, ℤ, pos, negsuc, two_63,
}

-- The bytes of a text. A character beyond ASCII is one number here and several bytes in Go; none of
-- them is a digit or a sign.
abbrev pub codes : String → List ℕ
codes String.[] = []
codes (String.◌∷◌ c s) = code c ∷ codes s

-- The number that digits spell behind `n`, or none at another character.
unfoldable pub scan : List ℕ → ℕ → Option ℕ
scan [] n = some n
scan (c ∷ s) n = if ltb c b'0' || ltb b'9' c then none else scan s (n * 10 + (c - b'0'))

-- An unsigned number has at least one digit.
unfoldable pub unsigned : List ℕ → Option ℕ
unfolding scan
unsigned [] = none
unsigned (c ∷ s) = scan (c ∷ s) 0

abbrev pub in_positive_range : Option ℕ → Option ℤ
in_positive_range none = none
in_positive_range (some n) = if ltb n two_63 then some (pos n) else none

abbrev pub negative : ℕ → ℤ
negative zero = pos 0
negative (suc n) = negsuc n

abbrev pub in_negative_range : Option ℕ → Option ℤ
in_negative_range none = none
in_negative_range (some n) = if leb n two_63 then some (negative n) else none

unfoldable pub parse_int : List ℕ → Option ℤ
unfolding unsigned
parse_int [] = none
parse_int (c ∷ s) =
    if eqb c b'-'
    then in_negative_range (unsigned s)
    else if eqb c b'+'
    then in_positive_range (unsigned s)
    else in_positive_range (unsigned (c ∷ s))

-- Atoi; none stands for its error.
unfoldable pub atoi : String → Option ℤ
unfolding parse_int
atoi s = parse_int (codes s)

unfoldable pub digit : ℕ → Char
digit zero = "0"
digit (suc zero) = "1"
digit (suc (suc zero)) = "2"
digit (suc (suc (suc zero))) = "3"
digit (suc (suc (suc (suc zero)))) = "4"
digit (suc (suc (suc (suc (suc zero))))) = "5"
digit (suc (suc (suc (suc (suc (suc zero)))))) = "6"
digit (suc (suc (suc (suc (suc (suc (suc zero))))))) = "7"
digit (suc (suc (suc (suc (suc (suc (suc (suc zero)))))))) = "8"
digit _ = "9"

-- The digits of `n` in front of `out`. Each round divides by ten, so `n + 1` rounds are enough.
unfoldable pub emit : ℕ → ℕ → String → String
unfolding digit
emit zero n out = out
emit (suc rounds) n out =
    let rest = emit rounds (n / 10) (String.◌∷◌ (digit (n % 10)) out) in
    if ltb n 10 then String.◌∷◌ (digit n) out else rest

unfoldable pub itoa : ℤ → String
unfolding emit
itoa (pos n) = emit (suc n) n ""
itoa (negsuc n) = String.◌∷◌ "-" (emit (suc (suc n)) (suc n) "")
