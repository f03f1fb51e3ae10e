-- ===== src/Bytes/Decimal.antt =====
-- A number that is printed in decimal is read back.
use native.Mathlib.Nat.{pow-suc}
use kode_bridge.Base.{
  ℕ, zero, suc, ◌+◌, ◌*◌, ◌/◌, ◌%◌, ◌^◌, ◌<◌, ◌≡◌, refl, sym, ap, ◌≢◌, ◌∙◌, lt→ltb, inl, inr, some,
  [], ◌∷◌, Bool-cases, ◌==◌, arith,
}
use kode_bridge.Bytes.{
  Bytes, to_digit, parse_digits, from_str_radix, parse_usize, decimal, to_decimal,
}

to_digit-decimal : (d : ℕ) → d < 10 → to_digit 10 (48 + d) ≡ some d
unfolding to_digit
to_digit-decimal d h = ground arith

parse_step :
    (acc d : ℕ) (rest : Bytes)
    → d < 10
    → acc * 10 + d < 2 ^ 64
    → parse_digits 10 acc ((48 + d) ∷ rest) ≡ parse_digits 10 (acc * 10 + d) rest
unfolding parse_digits
parse_step acc d rest h k =
    rw (to_digit-decimal d h, parse_digits) (rw (lt→ltb (acc * 10 + d) (2 ^ 64) k))

-- The digits of `n` in front of `rest` are read as `n`, whatever `rest` is.
parse_digits-decimal :
    (fuel n : ℕ) (rest : Bytes)
    → n < 10 ^ fuel
    → n < 2 ^ 64
    → parse_digits 10 0 (decimal fuel n rest) ≡ parse_digits 10 n rest
unfolding decimal
parse_digits-decimal zero n rest h k = rw (small_is_zero n h)
  where
    small_is_zero : (n : ℕ) → n < 1 → n ≡ 0
    small_is_zero n h = omega arith
parse_digits-decimal (suc fuel) n rest h k = elim (Bool-cases (n / 10 == 0)) [
  | inl e ↦
      let small : n < 10 = ground arith in
      rw e (
        parse_step 0 (n % 10) rest (omega arith) (omega arith)
        ∙ ap (λ m. parse_digits 10 m rest) (omega arith))
  | inr e ↦ rw e (
      parse_digits-decimal fuel (n / 10) ((48 + n % 10) ∷ rest) (omega (arith, pow-suc 10 fuel))
        (omega arith)
      ∙ parse_step (n / 10) (n % 10) rest (omega arith) (omega arith)
      ∙ ap (λ m. parse_digits 10 m rest) (omega arith))
]

-- What is printed is a digit and what follows it, so no sign is taken off.
decimal-head :
    (fuel n d : ℕ) (rest : Bytes)
    → (c : ℕ) × (cs : Bytes) × (decimal fuel n ((48 + d) ∷ rest) ≡ c ∷ cs) × (c ≢ b'+')
unfolding decimal
decimal-head zero n d rest = (48 + d, rest, refl, omega arith)
decimal-head (suc fuel) n d rest = elim (Bool-cases (n / 10 == 0)) [
  | inl e ↦ (48 + n % 10, (48 + d) ∷ rest, rw e, omega arith)
  | inr e ↦
      let (c, cs, is, ne) = decimal-head fuel (n / 10) (n % 10) ((48 + d) ∷ rest) in
      (c, cs, rw e is, ne)
]

from_str_radix-digits :
    (c : ℕ) (cs : Bytes) → c ≢ b'+' → from_str_radix 10 (c ∷ cs) ≡ parse_digits 10 0 (c ∷ cs)
unfolding from_str_radix
from_str_radix-digits c [] h = refl
from_str_radix-digits c (d ∷ cs) h = ground arith

-- Every `usize` is read back from its decimal text.
pub parse_usize-to_decimal : (n : ℕ) → n < 2 ^ 64 → parse_usize (to_decimal n) ≡ some n
parse_usize-to_decimal n h =
    let (c, cs, is, ne) = starts in
    rw is (
      from_str_radix-digits c cs ne
      ∙ ap (parse_digits 10 0) (sym is)
      ∙ unfold to_decimal parse_digits in parse_digits-decimal 20 n [] (omega arith) h)
  where
    starts : (c : ℕ) × (cs : Bytes) × (to_decimal n ≡ c ∷ cs) × (c ≢ b'+')
    starts =
        unfold to_decimal decimal in
        (elim (Bool-cases (n / 10 == 0)) [
          | inl e ↦ (48 + n % 10, [], rw e, omega arith)
          | inr e ↦
              let (c, cs, is, ne) = decimal-head 19 (n / 10) (n % 10) [] in (c, cs, rw e is, ne)
        ])
