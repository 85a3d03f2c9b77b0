-- ===== src/Subst/Size.antt =====
-- The fuel of `subst` of aris/src/expr.rs: the expression's size.
use aris.Base.{
  ℕ, zero, suc, ◌+◌, ◌^◌, ◌≤◌, ◌<◌, ◌≡◌, refl, ap, ap₂, ◌∙◌, sym, String, true, false, Option, some,
  length, if◌then◌else◌, ◌==◌, string_eq, ◌>>=◌, map_option, bind-eq-some, both-eq-some,
  map_option-eq-some, some-inj, Bool-cases, inl, inr, arith,
}
use aris.Expr.{Expr, Exprs, QuantKind, contra, taut, var, apply, not, impl, assoc, quant, nil, cons}
use aris.Expr.Size.{size, size_all, size-pos}
use aris.Vars.{free_vars, gen_var}
use aris.Vars.Fresh.{gen_var_lem}
use aris.Subst.{traverse, subst}

-- Equations of the cases that branch or loop.
pub subst-quant_bound :
    (n : ℕ) (k : QuantKind) (a x : String) (b r : Expr)
    → (a == x) ≡ true
    → subst (suc n) (quant k a b) x r ≡ some (quant k a b)
unfolding subst
subst-quant_bound n k a x b r t = rw t

pub subst-quant :
    (n : ℕ) (k : QuantKind) (a x : String) (b r : Expr)
    → (a == x) ≡ false
    → subst (suc n) (quant k a b) x r ≡ (
        gen_var a (free_vars r) >>= λ c.
        subst n b a (var c) >>= λ b'. map_option (quant k c) (subst n b' x r))
unfolding subst
subst-quant n k a x b r f = rw f

-- A successful substitution below a quantifier, taken apart.
pub record Renamed (n : ℕ) (k : QuantKind) (a x : String) (b r e : Expr) : Type 0 where
  pub name : String
  pub body : Expr
  pub result : Expr
  pub fresh : gen_var a (free_vars r) ≡ some name
  pub renaming : subst n b a (var name) ≡ some body
  pub rest : subst n body x r ≡ some result
  pub whole : quant k name result ≡ e

pub subst-Renamed :
    (n : ℕ) (k : QuantKind) (a x : String) (b r e : Expr)
    → (a == x) ≡ false
    → subst (suc n) (quant k a b) x r ≡ some e
    → Renamed n k a x b r e
subst-Renamed n k a x b r e f h =
    let (c, p, h1) =
      bind-eq-some (gen_var a (free_vars r)) _ (sym (subst-quant n k a x b r f) ∙ h) in
    let (b', q, h2) = bind-eq-some (subst n b a (var c)) _ h1 in
    let (z, s, w) = map_option-eq-some (quant k c) (subst n b' x r) h2 in
    record { name = c; body = b'; result = z; fresh = p; renaming = q; rest = s; whole = w }

traverse-size :
    (f : Expr → Option Expr) (es es' : Exprs)
    → ((e e' : Expr) → f e ≡ some e' → size e' ≡ size e)
    → traverse f es ≡ some es'
    → size_all es' ≡ size_all es
unfolding traverse size
traverse-size f nil es' h t = ap size_all (sym (some-inj t))
traverse-size f (cons e es) es' h t =
    let (a, as', p, q, w) = both-eq-some cons (f e) (traverse f es) t in
    ap size_all (sym w) ∙ ap₂ ◌+◌ (h e a p) (traverse-size f es as' h q)

-- Renaming a variable keeps the size.
subst-var-size :
    (n : ℕ) (e e' : Expr) (x y : String) → subst n e x (var y) ≡ some e' → size e' ≡ size e
unfolding subst size
subst-var-size zero e e' x y h = cc
subst-var-size (suc n) contra e' x y h = ap size (sym (some-inj h))
subst-var-size (suc n) taut e' x y h = ap size (sym (some-inj h))
subst-var-size (suc n) (var name) e' x y h = ap size (sym (some-inj h)) ∙ ground arith
subst-var-size (suc n) (apply func args) e' x y h =
    let (f, as', p, q, w) =
      both-eq-some apply (subst n func x (var y)) (traverse (λ e. subst n e x (var y)) args) h in
    ap size (sym w)
    ∙ ap₂ (λ a b. suc (a + b)) (subst-var-size n func f x y p)
        (traverse-size (λ e. subst n e x (var y)) args as' (λ e e'. subst-var-size n e e' x y) q)
subst-var-size (suc n) (not operand) e' x y h =
    let (a, p, w) = map_option-eq-some not (subst n operand x (var y)) h in
    ap size (sym w) ∙ ap suc (subst-var-size n operand a x y p)
subst-var-size (suc n) (impl left right) e' x y h =
    let (l, k, p, q, w) = both-eq-some impl (subst n left x (var y)) (subst n right x (var y)) h in
    ap size (sym w)
    ∙ ap₂ (λ a b. suc (a + b)) (subst-var-size n left l x y p) (subst-var-size n right k x y q)
subst-var-size (suc n) (assoc op exprs) e' x y h =
    let (as', p, w) = map_option-eq-some (assoc op) (traverse (λ e. subst n e x (var y)) exprs) h in
    ap size (sym w)
    ∙ ap suc
        (traverse-size (λ e. subst n e x (var y)) exprs as' (λ e e'. subst-var-size n e e' x y) p)
subst-var-size (suc n) (quant k a b) e' x y h = elim (Bool-cases (a == x)) [
  | inl t ↦ ap size (sym (some-inj (sym (subst-quant_bound n k a x b (var y) t) ∙ h)))
  | inr f ↦
      let r = subst-Renamed n k a x b (var y) e' f h in
      ap size (sym r.whole)
      ∙ ap suc (
          subst-var-size n r.body r.result x y r.rest
          ∙ subst-var-size n b r.body a r.name r.renaming)
]

one_variable : (c : String) → length (free_vars (var c)) < 2 ^ 64
unfolding free_vars
one_variable c = omega arith

traverse_total :
    (f : Expr → Option Expr) (m : ℕ) (es : Exprs)
    → ((e : Expr) → size e ≤ m → (e' : Expr) × (f e ≡ some e'))
    → size_all es ≤ m
    → (es' : Exprs) × (traverse f es ≡ some es')
unfolding traverse size
traverse_total f m nil h l = (nil, refl)
traverse_total f m (cons e es) h l =
    let (a, p) = h e (omega arith) in
    let (as', q) = traverse_total f m es h (omega arith) in (cons a as', rw (p, q))

-- With fuel of at least the size of the expression, and fewer than 2^64 free variables in the
-- replacement, the substitution gives a result.
pub subst_total :
    (n : ℕ) (e : Expr) (x : String) (r : Expr)
    → size e ≤ n
    → length (free_vars r) < 2 ^ 64
    → (e' : Expr) × (subst n e x r ≡ some e')
unfolding subst size
subst_total zero e x r l h = absurd (omega (arith, size-pos e))
subst_total (suc n) contra x r l h = (contra, refl)
subst_total (suc n) taut x r l h = (taut, refl)
subst_total (suc n) (var name) x r l h = (if name == x then r else var name, refl)
subst_total (suc n) (apply func args) x r l h =
    let (f, p) = subst_total n func x r (omega arith) h in
    let (as', q) =
      traverse_total (λ e. subst n e x r) n args (λ e k. subst_total n e x r k h) (omega arith) in
    (apply f as', rw (p, q))
subst_total (suc n) (not operand) x r l h =
    let (a, p) = subst_total n operand x r (omega arith) h in (not a, rw p)
subst_total (suc n) (impl left right) x r l h =
    let (a, p) = subst_total n left x r (omega arith) h in
    let (b, q) = subst_total n right x r (omega arith) h in (impl a b, rw (p, q))
subst_total (suc n) (assoc op exprs) x r l h =
    let (as', q) =
      traverse_total (λ e. subst n e x r) n exprs (λ e k. subst_total n e x r k h) (omega arith) in
    (assoc op as', rw q)
subst_total (suc n) (quant k a b) x r l h = elim (Bool-cases (a == x)) [
  | inl t ↦ (quant k a b, subst-quant_bound n k a x b r t)
  | inr f ↦
      let (c, p, fresh, same) = gen_var_lem a (free_vars r) h in
      let (b', q) = subst_total n b a (var c) (omega arith) (one_variable c) in
      let (z, s) = subst_total n b' x r (omega (arith, subst-var-size n b b' a c q)) h in
      (quant k c z, subst-quant n k a x b r f ∙ rw (p, q, s))
]
