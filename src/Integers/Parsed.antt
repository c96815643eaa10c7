-- ===== src/Integers/Parsed.antt =====
-- internal/strconv/number.go: what strconv formats it parses back, in the bases from 2 to 36.
use gorums_ata.Base.{
  ℕ, zero, suc, ◌+◌, ◌-◌, ◌*◌, ◌/◌, ◌%◌, ◌^◌, ◌≤◌, ◌<◌, ◌≡◌, refl, sym, ap, ◌∙◌, inl, inr, true,
  false, none, some, [], ◌∷◌, arith, ltb, Bool-cases, pos, negsuc,
}
use native.Mathlib.Nat.{div-lt_self, mod-lt, div-add-mod'}
use gorums_ata.Base.{Text}
use native.Mathlib.Nat.{two-pow-succ}
use native.Mathlib.Numerals.{unary_clauses}
use gorums_ata.Integers.Strconv.{
  digit_char, digit_value, digits, format_uint, format_int, parse_from, parse_uint, parse_int,
  signed_result,
}

digit_value-digit_char : (d : ℕ) → d < 36 → digit_value (digit_char d) ≡ some d
digit_value-digit_char d h = ground arith

parse_from_digit :
    (base w n d : ℕ) (cs : Text)
    → base ≤ 36
    → d < base
    → n * base + d < 2 ^ w
    → parse_from base w n (digit_char d ∷ cs) ≡ parse_from base w (n * base + d) cs
unfolding parse_from
parse_from_digit base w n d cs hi small fits =
    let value = digit_value-digit_char d (omega arith) in ground arith

-- Reading the digits of a number is reading that number.
parse_from-digits :
    (base w fuel n : ℕ) (acc : Text)
    → 2 ≤ base
    → base ≤ 36
    → n < 2 ^ w
    → n < fuel
    → parse_from base w 0 (digits base fuel n acc) ≡ parse_from base w n acc
unfolding digits
parse_from-digits base w zero n acc lo hi fits h = absurd (omega arith)
parse_from-digits base w (suc fuel) n acc lo hi fits h = elim (Bool-cases (ltb n base)) [
  | inl last ↦
      let small : n < base = ground arith in
      rw (digits, last)
        (parse_from_digit base w 0 n acc hi small (omega arith)
          ∙ ap (λ m. parse_from base w m acc) (omega arith))
  | inr more ↦
      let large : base ≤ n = ground arith in
      let less : n / base < n = div-lt_self (omega arith) (omega arith) in
      let below : n % base < base = mod-lt n (omega arith) in
      let back : n / base * base + n % base ≡ n = div-add-mod' n base in
      rw (digits, more)
        (parse_from-digits base w fuel (n / base) (digit_char (n % base) ∷ acc) lo hi (omega arith)
            (omega arith)
          ∙ parse_from_digit base w (n / base) (n % base) acc hi below (omega (arith, back))
          ∙ ap (λ m. parse_from base w m acc) back)
]

digits_head :
    (base fuel n : ℕ) (acc : Text)
    → 2 ≤ base
    → n < fuel
    → (d : ℕ) × (cs : Text) × (d < base) × (digits base fuel n acc ≡ digit_char d ∷ cs)
unfolding digits
digits_head base zero n acc lo h = absurd (omega arith)
digits_head base (suc fuel) n acc lo h = elim (Bool-cases (ltb n base)) [
  | inl last ↦ (n, acc, ground arith, rw (digits, last) refl)
  | inr more ↦
      let large : base ≤ n = ground arith in
      let less : n / base < n = div-lt_self (omega arith) (omega arith) in
      let (d, cs, below, starts) =
        digits_head base fuel (n / base) (digit_char (n % base) ∷ acc) lo (omega arith) in
      (d, cs, below, rw (digits, more) starts)
]

format_uint_head :
    (n base : ℕ)
    → 2 ≤ base
    → (d : ℕ) × (cs : Text) × (d < base) × (format_uint n base ≡ digit_char d ∷ cs)
unfolding format_uint
format_uint_head n base lo = digits_head base (n + 1) n [] lo (omega arith)

pub parse_uint-format_uint :
    (n base w : ℕ)
    → 2 ≤ base
    → base ≤ 36
    → n < 2 ^ w
    → parse_uint (format_uint n base) base w ≡ (n, none)
unfolding parse_uint format_uint
parse_uint-format_uint n base w lo hi fits =
    let (d, cs, below, starts) = digits_head base (n + 1) n [] lo (omega arith) in
    rw starts (
      ap (parse_from base w 0) (sym starts)
      ∙ parse_from-digits base w (n + 1) n [] lo hi fits (omega arith))

pow_pos : (k : ℕ) → 1 ≤ 2 ^ k
pow_pos zero = omega arith
pow_pos (suc k) = omega (arith, two-pow-succ k, pow_pos k)

pub double_pow : (w : ℕ) → 1 ≤ w → (2 ^ w ≡ 2 ^ (w - 1) + 2 ^ (w - 1)) × (1 ≤ 2 ^ (w - 1))
double_pow zero h = absurd (omega arith)
double_pow (suc w) h = (simp unary_clauses (omega arith), pow_pos (suc w - 1))

signed_result-pos : (n w : ℕ) → n < 2 ^ (w - 1) → signed_result false w (n, none) ≡ (pos n, none)
signed_result-pos n w h = ground arith

signed_result-neg :
    (n w : ℕ) → n < 2 ^ (w - 1) → signed_result true w (n + 1, none) ≡ (negsuc n, none)
signed_result-neg n w h = ground arith

parse_int_unsigned :
    (d : ℕ) (cs : Text) (base w : ℕ)
    → d < 36
    → parse_int (digit_char d ∷ cs) base w
      ≡ signed_result false w (parse_uint (digit_char d ∷ cs) base w)
unfolding parse_int
parse_int_unsigned d cs base w h = ground arith

pub parse_int-pos :
    (n base w : ℕ)
    → 1 ≤ w
    → 2 ≤ base
    → base ≤ 36
    → n < 2 ^ (w - 1)
    → parse_int (format_int (pos n) base) base w ≡ (pos n, none)
unfolding format_int
parse_int-pos n base w h lo hi fits =
    let (d, cs, below, starts) = format_uint_head n base lo in
    let (double, positive) = double_pow w h in
    let read = parse_uint-format_uint n base w lo hi (omega arith) in
    ap (λ s. parse_int s base w) starts
    ∙ parse_int_unsigned d cs base w (omega arith)
    ∙ ap (λ s. signed_result false w (parse_uint s base w)) (sym starts)
    ∙ ap (signed_result false w) read
    ∙ signed_result-pos n w fits

pub parse_int-neg :
    (n base w : ℕ)
    → 1 ≤ w
    → 2 ≤ base
    → base ≤ 36
    → n < 2 ^ (w - 1)
    → parse_int (format_int (negsuc n) base) base w ≡ (negsuc n, none)
unfolding format_int parse_int
parse_int-neg n base w h lo hi fits =
    let (double, positive) = double_pow w h in
    ap (signed_result true w) (parse_uint-format_uint (n + 1) base w lo hi (omega arith))
    ∙ signed_result-neg n w fits
