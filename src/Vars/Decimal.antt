-- ===== src/Vars/Decimal.antt =====
-- Decimal numerals, as `format!` writes an unsigned number.
use Prim.Native.Char.{Char, code}
use Prim.Native.String.{String}
use aris.Base.{
  ℕ, zero, suc, ◌+◌, ◌-◌, ◌*◌, ◌/◌, ◌%◌, ◌<◌, ◌≡◌, refl, ◌∙◌, sym, ap, Bool-cases, inl, inr, arith,
  ltb, if◌then◌else◌,
}

digit : ℕ → Char
digit zero = "0"
digit (suc zero) = "1"
digit (suc (suc zero)) = "2"
digit (suc (suc (suc zero))) = "3"
digit (suc (suc (suc (suc zero)))) = "4"
digit (suc (suc (suc (suc (suc zero))))) = "5"
digit (suc (suc (suc (suc (suc (suc zero)))))) = "6"
digit (suc (suc (suc (suc (suc (suc (suc zero))))))) = "7"
digit (suc (suc (suc (suc (suc (suc (suc (suc zero)))))))) = "8"
digit _ = "9"

-- The digits of `n` in front of `acc`.
emit : ℕ → ℕ → String → String
emit zero n acc = acc
emit (suc fuel) n acc =
    let rest = emit fuel (n / 10) (String.◌∷◌ (digit (n % 10)) acc) in
    if ltb n 10 then String.◌∷◌ (digit n) acc else rest

unfoldable pub to_decimal : ℕ → String
unfolding emit digit
to_decimal n = emit (suc n) n String.[]

-- The number that a text continues, read from the left.
read : ℕ → String → ℕ
read a String.[] = a
read a (String.◌∷◌ c s) = read (a * 10 + (code c - 48)) s

code-digit : (d : ℕ) → d < 10 → code (digit d) - 48 ≡ d
unfolding digit
code-digit zero h = refl
code-digit (suc zero) h = refl
code-digit (suc (suc zero)) h = refl
code-digit (suc (suc (suc zero))) h = refl
code-digit (suc (suc (suc (suc zero)))) h = refl
code-digit (suc (suc (suc (suc (suc zero))))) h = refl
code-digit (suc (suc (suc (suc (suc (suc zero)))))) h = refl
code-digit (suc (suc (suc (suc (suc (suc (suc zero))))))) h = refl
code-digit (suc (suc (suc (suc (suc (suc (suc (suc zero)))))))) h = refl
code-digit (suc (suc (suc (suc (suc (suc (suc (suc (suc d))))))))) h = omega arith

read-emit : (fuel n : ℕ) (acc : String) → n < fuel → read 0 (emit fuel n acc) ≡ read n acc
unfolding emit read
read-emit zero n acc h = absurd (omega arith)
read-emit (suc fuel) n acc h = elim (Bool-cases (ltb n 10)) [
  | inl t ↦ rw t (ap (λ k. read k acc) (omega (arith, code-digit n (ground arith))))
  | inr f ↦ rw f (
      read-emit fuel (n / 10) (String.◌∷◌ (digit (n % 10)) acc) (ground arith)
      ∙ ap (λ k. read k acc) (omega (arith, code-digit (n % 10) (omega arith))))
]

-- Different numbers have different numerals.
pub to_decimal_inj : (m n : ℕ) → to_decimal m ≡ to_decimal n → m ≡ n
unfolding to_decimal read
to_decimal_inj m n h =
    sym (read-emit (suc m) m String.[] (omega arith))
    ∙ ap (read 0) h
    ∙ read-emit (suc n) n String.[] (omega arith)
