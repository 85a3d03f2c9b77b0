-- ===== src/Subst/Clear.antt =====
-- `subst` of aris/src/expr.rs where no bound name is free in the replacement.
use text.Mathlib.TextEquality.{eq_iff}
use aris.Base.{
  ℕ, zero, suc, ◌≡◌, ◌≤◌, ◌<◌, ◌^◌, ap, ap₂, ◌∙◌, sym, String, Bool, true, false, not as not_bool,
  ◌&&◌, Option, some, List, [], ◌∷◌, length, ◌==◌, string_eq, both-eq-some, map_option-eq-some,
  some-inj, Bool-cases, inl, inr, arith,
}
use aris.Expr.{Expr, Exprs, contra, taut, var, apply, not, impl, assoc, quant, nil, cons}
use aris.Expr.Denote.{Algebra, update, denote}
use aris.Expr.Size.{size}
use aris.Vars.{contains, free_vars, gen_var}
use aris.Vars.Fresh.{gen_var-same}
use aris.Subst.{traverse, subst}
use aris.Subst.Size.{subst-quant_bound, subst-Renamed, subst_total}
use aris.Subst.Meaning.{Safe, AllOf, subst-denote}

-- No name that `e` binds is in the set.
unfoldable mutual
  pub is_clear : Expr → List String → Bool
  is_clear contra s = true
  is_clear taut s = true
  is_clear (var name) s = true
  is_clear (apply func args) s = is_clear func s && all_clear args s
  is_clear (not operand) s = is_clear operand s
  is_clear (impl left right) s = is_clear left s && is_clear right s
  is_clear (assoc op exprs) s = all_clear exprs s
  is_clear (quant kind name body) s = not_bool (contains name s) && is_clear body s

  pub all_clear : Exprs → List String → Bool
  all_clear nil s = true
  all_clear (cons e es) s = is_clear e s && all_clear es s

-- A bound name other than `x` is not renamed when `x` itself is the replacement.
self_name : (a c x : String) → (a == x) ≡ false → gen_var a (free_vars (var x)) ≡ some c → c ≡ a
unfolding free_vars
self_name a c x f h = gen_var-same a (x ∷ []) (ground (arith, eq_iff a x, eq_iff x a)) h

traverse_self :
    (f : Expr → Option Expr) (es es' : Exprs)
    → ((e e' : Expr) → f e ≡ some e' → e' ≡ e)
    → traverse f es ≡ some es'
    → es' ≡ es
unfolding traverse
traverse_self f nil es' h t = sym (some-inj t)
traverse_self f (cons e es) es' h t =
    let (a, as', p, q, w) = both-eq-some cons (f e) (traverse f es) t in
    sym w ∙ ap₂ cons (h e a p) (traverse_self f es as' h q)

-- Replacing a variable by itself changes nothing.
pub subst_self : (n : ℕ) (e e' : Expr) (x : String) → subst n e x (var x) ≡ some e' → e' ≡ e
unfolding subst
subst_self zero e e' x h = cc
subst_self (suc n) contra e' x h = sym (some-inj h)
subst_self (suc n) taut e' x h = sym (some-inj h)
subst_self (suc n) (var name) e' x h = sym (some-inj h) ∙ ground (arith, eq_iff name x)
subst_self (suc n) (apply func args) e' x h =
    let (f, as', p, q, w) =
      both-eq-some apply (subst n func x (var x)) (traverse (λ e. subst n e x (var x)) args) h in
    sym w
    ∙ ap₂ apply (subst_self n func f x p)
        (traverse_self (λ e. subst n e x (var x)) args as' (λ e e'. subst_self n e e' x) q)
subst_self (suc n) (not operand) e' x h =
    let (a, p, w) = map_option-eq-some not (subst n operand x (var x)) h in
    sym w ∙ ap not (subst_self n operand a x p)
subst_self (suc n) (impl left right) e' x h =
    let (l, k, p, q, w) = both-eq-some impl (subst n left x (var x)) (subst n right x (var x)) h in
    sym w ∙ ap₂ impl (subst_self n left l x p) (subst_self n right k x q)
subst_self (suc n) (assoc op exprs) e' x h =
    let (as', p, w) = map_option-eq-some (assoc op) (traverse (λ e. subst n e x (var x)) exprs) h in
    sym w
    ∙ ap (assoc op)
        (traverse_self (λ e. subst n e x (var x)) exprs as' (λ e e'. subst_self n e e' x) p)
subst_self (suc n) (quant k a b) e' x h = elim (Bool-cases (a == x)) [
  | inl t ↦ sym (some-inj (sym (subst-quant_bound n k a x b (var x) t) ∙ h))
  | inr f ↦
      let q = subst-Renamed n k a x b (var x) e' f h in
      let same : q.name ≡ a = self_name a q.name x f q.fresh in
      let body : q.body ≡ b = subst_self n b q.body a (rw same at q.renaming) in
      sym q.whole ∙ ap₂ (quant k) same (subst_self n q.body q.result x q.rest ∙ body)
]

AllOf-each : (P : Expr → Type 0) (es : Exprs) → ((e : Expr) → P e) → AllOf P es
AllOf-each P nil h = tt
AllOf-each P (cons e es) h = (h e, AllOf-each P es h)

Safe-self : (n : ℕ) (e : Expr) (x : String) → Safe n e x (var x)
Safe-self zero e x = tt
Safe-self (suc n) contra x = tt
Safe-self (suc n) taut x = tt
Safe-self (suc n) (var name) x = tt
Safe-self (suc n) (apply func args) x =
    (Safe-self n func x, AllOf-each (λ e. Safe n e x (var x)) args (λ e. Safe-self n e x))
Safe-self (suc n) (not operand) x = Safe-self n operand x
Safe-self (suc n) (impl left right) x = (Safe-self n left x, Safe-self n right x)
Safe-self (suc n) (assoc op exprs) x =
    AllOf-each (λ e. Safe n e x (var x)) exprs (λ e. Safe-self n e x)
Safe-self (suc n) (quant k a b) x = λ c b' f g h.
    let same : c ≡ a = self_name a c x f g in
    (inl same, rw same (Safe-self n b a), Safe-self n b' x)

AllOf-clear :
    (P : Expr → Type 0) (s : List String) (es : Exprs)
    → ((e : Expr) → is_clear e s ≡ true → P e)
    → all_clear es s ≡ true
    → AllOf P es
unfolding is_clear
AllOf-clear P s nil h t = tt
AllOf-clear P s (cons e es) h t = (h e (ground arith), AllOf-clear P s es h (ground arith))

clear-Safe :
    (n : ℕ) (e : Expr) (x : String) (r : Expr) → is_clear e (free_vars r) ≡ true → Safe n e x r
unfolding is_clear
clear-Safe zero e x r t = tt
clear-Safe (suc n) contra x r t = tt
clear-Safe (suc n) taut x r t = tt
clear-Safe (suc n) (var name) x r t = tt
clear-Safe (suc n) (apply func args) x r t = (
  clear-Safe n func x r (ground arith),
  AllOf-clear (λ e. Safe n e x r) (free_vars r) args (λ e. clear-Safe n e x r) (ground arith),
)
clear-Safe (suc n) (not operand) x r t = clear-Safe n operand x r t
clear-Safe (suc n) (impl left right) x r t =
    (clear-Safe n left x r (ground arith), clear-Safe n right x r (ground arith))
clear-Safe (suc n) (assoc op exprs) x r t =
    AllOf-clear (λ e. Safe n e x r) (free_vars r) exprs (λ e. clear-Safe n e x r) t
clear-Safe (suc n) (quant k a b) x r t = λ c b' f g h.
    let same : c ≡ a = gen_var-same a (free_vars r) (ground arith) g in
    let body : b' ≡ b = subst_self n b b' a (rw same at h) in
    (inl same, rw same (Safe-self n b a), rw body (clear-Safe n b x r (ground arith)))

-- Substitution is right where no name that the expression binds is free in the replacement: with fuel
-- of the expression's size it gives a result, which denotes in every algebra what the expression
-- denotes with the variable set to the replacement's value.
pub subst_lem :
    (M : Algebra) (ρ : String → M.Value) (n : ℕ) (e : Expr) (x : String) (r : Expr)
    → size e ≤ n
    → length (free_vars r) < 2 ^ 64
    → is_clear e (free_vars r) ≡ true
    → (e' : Expr) × (subst n e x r ≡ some e')
      × (denote M ρ e' ≡ denote M (update ρ x (denote M ρ r)) e)
subst_lem M ρ n e x r l k t =
    let (e', p) = subst_total n e x r l k in
    (e', p, subst-denote M n e x r e' ρ (clear-Safe n e x r t) p)
