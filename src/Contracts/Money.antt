-- ===== src/Contracts/Money.antt =====
-- apps/api/autonomerce/contracts.py: `usdc_text` on a number of millionths of a USDC.
use Prim.Native.String.{◌++◌}
use autonomerce.Prelude.{
  Bool-cases, inl, inr, ap, ◌<◌, ◌≤◌, false, arith, ℕ, zero, suc, ◌/◌, ◌%◌, String, ltb,
  if◌then◌else◌, ◌==◌, nat_eq, string_eq, ◌≡◌, refl, String-discrete, ℕ_discrete,
}

-- one decimal digit
abbrev digit : ℕ → String
digit zero = "0"
digit (suc zero) = "1"
digit (suc (suc zero)) = "2"
digit (suc (suc (suc zero))) = "3"
digit (suc (suc (suc (suc zero)))) = "4"
digit (suc (suc (suc (suc (suc zero))))) = "5"
digit (suc (suc (suc (suc (suc (suc zero)))))) = "6"
digit (suc (suc (suc (suc (suc (suc (suc zero))))))) = "7"
digit (suc (suc (suc (suc (suc (suc (suc (suc zero)))))))) = "8"
digit _ = "9"

-- the whole part; the fuel `n + 1` is enough, since each round divides by ten
unfoldable pub whole_text : ℕ → ℕ → String
whole_text zero n = ""
whole_text (suc fuel) n =
    let more = whole_text fuel (n / 10) ++ digit (n % 10) in if ltb n 10 then digit n else more

-- the last `places` digits of a number, with the zeros in front
unfoldable pub all_places : ℕ → ℕ → String
all_places zero n = ""
all_places (suc places) n = all_places places (n / 10) ++ digit (n % 10)

-- `rstrip("0")` of the digits after the point
unfoldable pub fraction_text : ℕ → ℕ → String
unfolding all_places
fraction_text zero n = ""
fraction_text (suc places) n =
    let shorter = fraction_text places (n / 10) in
    if n % 10 == 0 then shorter else all_places (suc places) n

-- `usdc_text`
unfoldable pub usdc_text : ℕ → String
unfolding whole_text fraction_text
usdc_text micros =
    let whole = whole_text (suc (micros / 1000000)) (micros / 1000000) in
    let fraction = fraction_text 6 (micros % 1000000) in
    if fraction == "" then whole else whole ++ "." ++ fraction

usdc_text_tests :
    (usdc_text 0 ≡ "0")
    × (usdc_text 1250000 ≡ "1.25")
    × (usdc_text 100000000 ≡ "100")
    × (usdc_text 10 ≡ "0.00001")
unfolding usdc_text String-discrete ℕ_discrete
usdc_text_tests = (refl, refl, refl, refl)

at_least_ten : (n : ℕ) → ltb n 10 ≡ false → 10 ≤ n
at_least_ten n h = ground arith

tenth : (n f : ℕ) → ltb n 10 ≡ false → n < suc f → n / 10 < f
tenth n f large h = omega (arith, at_least_ten n large, h)

-- any fuel above the number writes the same digits
whole_text_fuel : (f g n : ℕ) → n < f → n < g → whole_text f n ≡ whole_text g n
unfolding whole_text
whole_text_fuel zero g n h k = absurd (omega (arith, h))
whole_text_fuel (suc f) zero n h k = absurd (omega (arith, k))
whole_text_fuel (suc f) (suc g) n h k = elim (Bool-cases (ltb n 10)) [
  | inl small ↦ rw (small, if◌then◌else◌) refl
  | inr large ↦
      ap (λ more. if ltb n 10 then digit n else more ++ digit (n % 10))
        (whole_text_fuel f g (n / 10) (tenth n f large h) (tenth n g large k))
]
