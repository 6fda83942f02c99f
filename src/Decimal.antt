-- ===== src/Decimal.antt =====
-- The part of package strconv that the driver calls: ParseUint(s, 10, 32) and FormatInt(n, 10).
pub mod RoundTrip
use hostpath_provisioner.Base.{
  ℕ, zero, suc, ◌+◌, ◌-◌, ◌*◌, ◌/◌, ◌%◌, ◌^◌, ℤ, pos, negsuc, Text, Bool, ◌&&◌, leb, ltb, List, [],
  ◌∷◌, Option, none, some, if◌then◌else◌,
}

digits : ℕ → Text → Option ℕ
digits n [] = some n
digits n (c ∷ s) =
    let rest = digits (n * 10 + (c - b'0')) s in if leb b'0' c && leb c b'9' then rest else none

fits_32 : Option ℕ → Option ℕ
fits_32 none = none
fits_32 (some n) = if ltb n (2 ^ 32) then some n else none

-- `none`: an error, for a bad digit, an empty text or a number out of range.
unfoldable pub parse_uint : Text → Option ℕ
unfolding digits fits_32
parse_uint [] = none
parse_uint (c ∷ s) = fits_32 (digits 0 (c ∷ s))

-- The digits of n in front of those in hand; the fuel is more than their number.
format_from : ℕ → ℕ → Text → Text
format_from zero n acc = acc
format_from (suc fuel) n acc =
    let rest = format_from fuel (n / 10) ((b'0' + n % 10) ∷ acc) in
    if ltb n 10 then (b'0' + n) ∷ acc else rest

unfoldable pub format_int : ℤ → Text
unfolding format_from
format_int (pos n) = format_from (suc n) n []
format_int (negsuc n) = b'-' ∷ format_from (suc (suc n)) (suc n) []
