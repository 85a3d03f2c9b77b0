-- ===== src/Transform/Weight.antt =====
-- Weights of expressions, for the recursion and the loop of `transform` in aris/src/expr.rs: a node
-- counts one and its operands, and a negation and a quantifier scale what they hold.
use aris.Base.{ℕ, suc, ◌+◌, ◌-◌, ◌*◌, ◌≤◌, ◌<◌, ◌≡◌, Bool, true, false, ◌||◌, arith}
use aris.Expr.{Expr, Exprs, contra, taut, var, apply, not, impl, assoc, quant, nil, cons}

pub record Scale : Type 0 where
  pub scale : ℕ → ℕ
  pub start : 1 ≤ scale 0
  pub slope : (m k n : ℕ) → m + k ≤ n → scale m + k ≤ scale n

abbrev pub by_one : Scale
by_one = record { scale = λ n. suc n; start = omega arith; slope = λ m k n h. omega arith }

pub square-slope : (m k n : ℕ) → m + k ≤ n → m * m + m + 1 + k ≤ n * n + n + 1
square-slope m k n h =
    let e : n ≡ m + (n - m) = omega arith in
    let p : m * m ≤ (m + (n - m)) * (m + (n - m)) = grind arith in
    let q : m * m ≤ n * n = rw e p in omega arith

-- n² + n + 1
abbrev pub by_square : Scale
by_square = record { scale = λ n. n * n + n + 1; start = omega arith; slope = square-slope }

-- One for a reported change.
abbrev pub bit : Bool → ℕ
bit true = 1
bit false = 0

pub bit-or : (a b : Bool) → bit (a || b) ≤ bit a + bit b
bit-or true b = omega arith
bit-or false b = omega arith

pub over : (s : Scale) (n : ℕ) → n < s.scale n
over s n = let h = s.slope 0 n n (omega arith) in let h' = s.start in omega arith

module _ (neg bind : Scale) where
  unfoldable mutual
    pub weight : Expr → ℕ
    weight contra = 1
    weight taut = 1
    weight (var name) = 1
    weight (apply func args) = suc (weight func + weight_all args)
    weight (not operand) = neg.scale (weight operand)
    weight (impl left right) = suc (weight left + weight right)
    weight (assoc op exprs) = suc (weight_all exprs)
    weight (quant kind name body) = bind.scale (weight body)

    pub weight_all : Exprs → ℕ
    weight_all nil = 0
    weight_all (cons e es) = weight e + weight_all es

  pub weight-pos : (e : Expr) → 1 ≤ weight e
  unfolding weight
  weight-pos (not operand) = let h = over neg (weight operand) in omega arith
  weight-pos (quant kind name body) = let h = over bind (weight body) in omega arith
  weight-pos contra = omega arith
  weight-pos _ = omega arith
