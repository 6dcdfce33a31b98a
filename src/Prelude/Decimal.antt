-- ===== src/Prelude/Decimal.antt =====
-- Python's `str` of a natural number, which no two numbers share.
use Prim.Native.Nat.{ℕ, zero, suc, ◌+◌, ◌-◌, ◌*◌, ◌/◌, ◌%◌, ◌<◌}
use Prim.Native.Char.{Char, code}
use Prim.Native.String.{String}
use mathlib.Core.Path.{◌≡◌, refl, sym, ap, ◌∙◌}
use mathlib.Core.Logic.{inl, inr}
use native.Mathlib.Omega.{arith}
use ai_job_server.Prelude.Tests.{if◌then◌else◌, ltb, Bool-cases}

abbrev digit : ℕ → Char
digit zero = "0"
digit (suc zero) = "1"
digit (suc (suc zero)) = "2"
digit (suc (suc (suc zero))) = "3"
digit (suc (suc (suc (suc zero)))) = "4"
digit (suc (suc (suc (suc (suc zero))))) = "5"
digit (suc (suc (suc (suc (suc (suc zero)))))) = "6"
digit (suc (suc (suc (suc (suc (suc (suc zero))))))) = "7"
digit (suc (suc (suc (suc (suc (suc (suc (suc zero)))))))) = "8"
digit _ = "9"

code-digit : (n : ℕ) → n < 10 → code (digit n) ≡ n + 48
code-digit zero h = refl
code-digit (suc zero) h = refl
code-digit (suc (suc zero)) h = refl
code-digit (suc (suc (suc zero))) h = refl
code-digit (suc (suc (suc (suc zero)))) h = refl
code-digit (suc (suc (suc (suc (suc zero))))) h = refl
code-digit (suc (suc (suc (suc (suc (suc zero)))))) h = refl
code-digit (suc (suc (suc (suc (suc (suc (suc zero))))))) h = refl
code-digit (suc (suc (suc (suc (suc (suc (suc (suc zero)))))))) h = refl
code-digit (suc (suc (suc (suc (suc (suc (suc (suc (suc zero))))))))) h = refl
code-digit (suc (suc (suc (suc (suc (suc (suc (suc (suc (suc n)))))))))) h =
    absurd (omega (arith, h))

-- The digits of n before a text.
unfoldable pub digits_onto : ℕ → ℕ → String → String
digits_onto zero n rest = rest
digits_onto (suc fuel) n rest =
    let short = String.◌∷◌ (digit n) rest in
    let long = digits_onto fuel (n / 10) (String.◌∷◌ (digit (n % 10)) rest) in
    if ltb n 10 then short else long

unfoldable pub decimal : ℕ → String
unfolding digits_onto
decimal n = digits_onto (n + 1) n ""

value_from : ℕ → String → ℕ
value_from acc String.[] = acc
value_from acc (String.◌∷◌ c s) = value_from (acc * 10 + (code c - 48)) s

value-digits_onto :
    (fuel n : ℕ) (rest : String)
    → n < fuel
    → value_from 0 (digits_onto fuel n rest) ≡ value_from n rest
unfolding value_from digits_onto
value-digits_onto zero n rest h = absurd (omega (arith, h))
value-digits_onto (suc fuel) n rest h = elim (Bool-cases (ltb n 10)) [
  | inl e ↦ rw e (ap (λ m. value_from m rest) (omega (arith, code-digit n (ground (arith, e)))))
  | inr e ↦ rw e (
      value-digits_onto fuel (n / 10) (String.◌∷◌ (digit (n % 10)) rest) (ground (arith, h, e))
      ∙ ap (λ m. value_from m rest) (omega (arith, code-digit (n % 10) (omega arith))))
]

pub decimal-injective : (m n : ℕ) → decimal m ≡ decimal n → m ≡ n
unfolding decimal value_from
decimal-injective m n h =
    sym (value-digits_onto (m + 1) m "" (omega arith))
    ∙ ap (value_from 0) h
    ∙ value-digits_onto (n + 1) n "" (omega arith)
