-- ===== src/Config/Issn.antt =====
-- config/journals.py, `normalize_issn`. A text is its code points.
pub mod Shape
pub mod Checked
use Prim.Native.Nat.{◌%◌}
use paper_radar.Prelude.{
  Bool, List, [], drop, false, get_last?, if◌then◌else◌, keep, leb, map, none, not, some, take, ℕ,
  ◌&&◌, ◌*◌, ◌++◌, ◌+◌, ◌-◌, ◌==◌, ◌||◌, ◌∷◌,
}
use paper_radar.Prelude.Results.{Result, ok, raise_if, ◌>>=◌, ◌>>◌}

-- Those of `ConfigValidationReason` that are raised.
pub data IssnReason : Type 0 where
  issn_format_invalid issn_checksum_invalid : IssnReason

-- "-", "X", "x" and "0".
abbrev pub dash : ℕ
dash = 45

abbrev pub upper_x : ℕ
upper_x = 88

abbrev pub lower_x : ℕ
lower_x = 120

abbrev pub digit_zero : ℕ
digit_zero = 48

abbrev pub is_digit : ℕ → Bool
is_digit c = leb digit_zero c && leb c 57

abbrev pub is_check : ℕ → Bool
is_check c = is_digit c || (c == upper_x) || (c == lower_x)

abbrev pub skip_dash : List ℕ → List ℕ
skip_dash [] = []
skip_dash (c ∷ cs) = if c == dash then cs else c ∷ cs

abbrev pub is_tail : List ℕ → Bool
is_tail (e ∷ f ∷ g ∷ h ∷ []) = is_digit e && is_digit f && is_digit g && is_check h
is_tail _ = false

-- `_ISSN.fullmatch(value)`
unfoldable pub is_format : List ℕ → Bool
is_format (a ∷ b ∷ c ∷ d ∷ rest) =
    is_digit a && is_digit b && is_digit c && is_digit d && is_tail (skip_dash rest)
is_format _ = false

-- `str.upper` on digits and the letter x.
abbrev pub upper : ℕ → ℕ
upper c = if c == lower_x then upper_x else c

abbrev pub not_dash : ℕ → Bool
not_dash c = not (c == dash)

-- `value.replace("-", "").upper()`
unfoldable pub compact : List ℕ → List ℕ
compact value = map upper (keep not_dash value)

-- The sum of the digits with the weights that fall to two.
unfoldable pub weighted : ℕ → List ℕ → ℕ
weighted weight [] = 0
weighted weight (c ∷ cs) = (c - digit_zero) * weight + weighted (weight - 1) cs

abbrev pub check_digit : ℕ → ℕ
check_digit c = if c == upper_x then 10 else c - digit_zero

-- The last character, which the format has made sure of.
abbrev pub last_of : List ℕ → ℕ
last_of cs = elim (get_last? cs) [ none ↦ digit_zero | some c ↦ c ]

unfoldable pub issn_sum : List ℕ → ℕ
issn_sum cs = weighted 8 (take 7 cs) + check_digit (last_of cs)

-- `f"{compact[:4]}-{compact[4:]}"`
abbrev pub with_dash : List ℕ → List ℕ
with_dash cs = take 4 cs ++ dash ∷ drop 4 cs

unfoldable pub normalize_issn : List ℕ → Result IssnReason (List ℕ)
normalize_issn value = do
  raise_if (not (is_format value)) issn_format_invalid
  raise_if (not (issn_sum (compact value) % 11 == 0)) issn_checksum_invalid
  ok (with_dash (compact value))
