-- ===== src/Decimal/RoundTrip.antt =====
-- A number that is printed is read back.
use hostpath_provisioner.Base.{
  ℕ, zero, suc, ◌+◌, ◌-◌, ◌*◌, ◌/◌, ◌%◌, ◌^◌, ◌<◌, pos, Text, ◌≡◌, refl, ◌∙◌, [], ◌∷◌, some, arith,
  is_empty, false, ap, ltb, ltb→lt, Bool-cases, inl, inr,
}
use hostpath_provisioner.Decimal.{digits, fits_32, parse_uint, format_from, format_int}

digits-cons : (a k : ℕ) (s : Text) → k < 10 → digits a ((b'0' + k) ∷ s) ≡ digits (a * 10 + k) s
unfolding digits
digits-cons a k s h = ground (arith, ap (λ (t : ℕ). digits t s) (shift a k))
  where
    shift : (a k : ℕ) → a * 10 + (b'0' + k - b'0') ≡ a * 10 + k
    shift a k = omega arith

digits-format_from :
    (fuel n : ℕ) (acc : Text) → n < fuel → digits 0 (format_from fuel n acc) ≡ digits n acc
unfolding format_from
digits-format_from zero n acc h = absurd (omega arith)
digits-format_from (suc fuel) n acc h = elim (Bool-cases (ltb n 10)) [
  | inl small ↦
      rw small
        (digits-cons 0 n acc (ltb→lt n 10 small) ∙ ap (λ (t : ℕ). digits t acc) (omega arith))
  | inr big ↦ rw big (
      digits-format_from fuel (n / 10) ((b'0' + n % 10) ∷ acc) (ground arith)
      ∙ digits-cons (n / 10) (n % 10) acc (omega arith)
      ∙ ap (λ (t : ℕ). digits t acc) (omega arith))
]

format_from-nonempty :
    (fuel n : ℕ) (acc : Text) → is_empty acc ≡ false → is_empty (format_from fuel n acc) ≡ false
unfolding format_from
format_from-nonempty zero n acc h = h
format_from-nonempty (suc fuel) n acc h =
    ground (arith, format_from-nonempty fuel (n / 10) ((b'0' + n % 10) ∷ acc))

pub format_int-nonempty : (n : ℕ) → is_empty (format_int (pos n)) ≡ false
unfolding format_int
format_int-nonempty n = ground (arith, format_from-nonempty n (n / 10) ((b'0' + n % 10) ∷ []))

parse_uint-nonempty : (t : Text) → is_empty t ≡ false → parse_uint t ≡ fits_32 (digits 0 t)
unfolding parse_uint
parse_uint-nonempty [] h = cc
parse_uint-nonempty (c ∷ t) h = refl

digits-format_int : (n : ℕ) → digits 0 (format_int (pos n)) ≡ some n
unfolding format_int digits
digits-format_int n = digits-format_from (suc n) n [] (omega arith)

-- ParseUint gives back every number below 2^32 that FormatInt has printed.
pub parse_uint-format_int : (n : ℕ) → n < 2 ^ 32 → parse_uint (format_int (pos n)) ≡ some n
parse_uint-format_int n h =
    parse_uint-nonempty (format_int (pos n)) (format_int-nonempty n)
    ∙ ap fits_32 (digits-format_int n)
    ∙ (unfold fits_32 in ground arith)
