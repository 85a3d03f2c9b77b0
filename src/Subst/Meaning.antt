-- ===== src/Subst/Meaning.antt =====
-- What `subst` of aris/src/expr.rs means, where its renaming captures nothing.
use text.Mathlib.TextEquality.{eq_iff}
use aris.Base.{
  ℕ, zero, suc, ◌≡◌, ◌≢◌, ◌⊎◌, ap, ap₂, ◌∙◌, sym, fun_ext, String, true, false, Option, some, ◌∷◌,
  if◌then◌else◌, ◌==◌, string_eq, both-eq-some, map_option-eq-some, some-inj, Bool-cases, inl, inr,
  arith,
}
use aris.Expr.{Expr, Exprs, QuantKind, contra, taut, var, apply, not, impl, assoc, quant, nil, cons}
use aris.Expr.Denote.{Algebra, update, denote, denote_all}
use aris.Vars.{contains, free_vars, gen_var}
use aris.Vars.Fresh.{gen_var-fresh}
use aris.Vars.Occurs.{denote_ext, AgreeOn, contains-remove}
use aris.Subst.{traverse, subst}
use aris.Subst.Size.{subst-quant_bound, subst-Renamed}

abbrev pub AllOf : (Expr → Type 0) → Exprs → Type 0
AllOf P nil = Unit
AllOf P (cons e es) = P e × AllOf P es

-- At each quantifier that the substitution passes, the bound name stays, or the new name is neither
-- free in the body nor the name that is replaced; and so on in the body and in the renamed body.
abbrev pub Safe : ℕ → Expr → String → Expr → Type 0
Safe zero e x r = Unit
Safe (suc n) contra x r = Unit
Safe (suc n) taut x r = Unit
Safe (suc n) (var name) x r = Unit
Safe (suc n) (apply func args) x r = Safe n func x r × AllOf (λ e. Safe n e x r) args
Safe (suc n) (not operand) x r = Safe n operand x r
Safe (suc n) (impl left right) x r = Safe n left x r × Safe n right x r
Safe (suc n) (assoc op exprs) x r = AllOf (λ e. Safe n e x r) exprs
Safe (suc n) (quant k a b) x r =
    (c : String) (b' : Expr)
    → (a == x) ≡ false
    → gen_var a (free_vars r) ≡ some c
    → subst n b a (var c) ≡ some b'
    → ((c ≡ a) ⊎ ((contains c (free_vars b) ≡ false) × (c ≢ x)))
      × Safe n b a (var c)
      × Safe n b' x r

module _ (M : Algebra) where
  traverse-denote :
      (f : Expr → Option Expr) (P : Expr → Type 0) (ρ σ : String → M.Value) (es es' : Exprs)
      → ((e e' : Expr) → P e → f e ≡ some e' → denote M ρ e' ≡ denote M σ e)
      → AllOf P es
      → traverse f es ≡ some es'
      → denote_all M ρ es' ≡ denote_all M σ es
  unfolding traverse denote
  traverse-denote f P ρ σ nil es' h s t = ap (denote_all M ρ) (sym (some-inj t))
  traverse-denote f P ρ σ (cons e es) es' h s t =
      let (a, as', p, q, w) = both-eq-some cons (f e) (traverse f es) t in
      ap (denote_all M ρ) (sym w) ∙ ap₂ ◌∷◌ (h e a s.0 p) (traverse-denote f P ρ σ es as' h s.1 q)

  -- Names that the renaming does not touch are read as before.
  updates :
      (ρ : String → M.Value) (a c x : String) (d v : M.Value) (b : Expr)
      → (a == x) ≡ false
      → (c ≡ a) ⊎ ((contains c (free_vars b) ≡ false) × (c ≢ x))
      → AgreeOn M (free_vars b) (update (update (update ρ c d) x v) a d) (update (update ρ x v) a d)
  updates ρ a c x d v b f safe y h = ground (arith, eq_iff y a, eq_iff y x, eq_iff y c)

  read_new :
      (ρ : String → M.Value) (a c x : String) (d v : M.Value) (b : Expr)
      → (a == x) ≡ false
      → (c ≡ a) ⊎ ((contains c (free_vars b) ≡ false) × (c ≢ x))
      → update (update ρ c d) x v c ≡ d
  read_new ρ a c x d v b f safe = ground (arith, eq_iff c c, eq_iff c x, eq_iff a x)

  untouched :
      (ρ : String → M.Value) (c : String) (d : M.Value) (r : Expr)
      → contains c (free_vars r) ≡ false
      → denote M (update ρ c d) r ≡ denote M ρ r
  untouched ρ c d r h = denote_ext M r (update ρ c d) ρ (λ y t. ground (arith, eq_iff y c))

  bound :
      (ρ : String → M.Value) (k : QuantKind) (a x : String) (b : Expr) (v : M.Value)
      → (a == x) ≡ true
      → denote M ρ (quant k a b) ≡ denote M (update ρ x v) (quant k a b)
  unfolding free_vars
  bound ρ k a x b v t =
      denote_ext M (quant k a b) ρ (update ρ x v) (λ y h.
        ground (arith, contains-remove y a (free_vars b), eq_iff y a, eq_iff y x, eq_iff a x))

  var_case :
      (ρ : String → M.Value) (name x : String) (r : Expr)
      → denote M ρ (if name == x then r else var name) ≡ update ρ x (denote M ρ r) name
  unfolding denote
  var_case ρ name x r = elim (Bool-cases (name == x)) [ inl t ↦ rw t | inr f ↦ rw f ]

  pub subst-denote :
      (n : ℕ) (e : Expr) (x : String) (r e' : Expr) (ρ : String → M.Value)
      → Safe n e x r
      → subst n e x r ≡ some e'
      → denote M ρ e' ≡ denote M (update ρ x (denote M ρ r)) e
  unfolding subst denote
  subst-denote zero e x r e' ρ s h = cc
  subst-denote (suc n) contra x r e' ρ s h = ap (denote M ρ) (sym (some-inj h))
  subst-denote (suc n) taut x r e' ρ s h = ap (denote M ρ) (sym (some-inj h))
  subst-denote (suc n) (var name) x r e' ρ s h =
      ap (denote M ρ) (sym (some-inj h)) ∙ var_case ρ name x r
  subst-denote (suc n) (apply func args) x r e' ρ s h =
      let (f, as', p, q, w) =
        both-eq-some apply (subst n func x r) (traverse (λ e. subst n e x r) args) h in
      ap (denote M ρ) (sym w)
      ∙ ap₂ M.call (subst-denote n func x r f ρ s.0 p) (
          traverse-denote (λ e. subst n e x r) (λ e. Safe n e x r) ρ (update ρ x (denote M ρ r))
            args as' (λ e e' s p. subst-denote n e x r e' ρ s p) s.1 q)
  subst-denote (suc n) (not operand) x r e' ρ s h =
      let (a, p, w) = map_option-eq-some not (subst n operand x r) h in
      ap (denote M ρ) (sym w) ∙ ap M.negation (subst-denote n operand x r a ρ s p)
  subst-denote (suc n) (impl left right) x r e' ρ s h =
      let (l, k, p, q, w) = both-eq-some impl (subst n left x r) (subst n right x r) h in
      ap (denote M ρ) (sym w)
      ∙ ap₂ M.implication (subst-denote n left x r l ρ s.0 p) (subst-denote n right x r k ρ s.1 q)
  subst-denote (suc n) (assoc op exprs) x r e' ρ s h =
      let (as', p, w) = map_option-eq-some (assoc op) (traverse (λ e. subst n e x r) exprs) h in
      ap (denote M ρ) (sym w)
      ∙ ap (M.operation op) (
          traverse-denote (λ e. subst n e x r) (λ e. Safe n e x r) ρ (update ρ x (denote M ρ r))
            exprs as' (λ e e' s p. subst-denote n e x r e' ρ s p) s p)
  subst-denote (suc n) (quant k a b) x r e' ρ s h = elim (Bool-cases (a == x)) [
    | inl t ↦
        ap (denote M ρ) (sym (some-inj (sym (subst-quant_bound n k a x b r t) ∙ h)))
        ∙ bound ρ k a x b (denote M ρ r) t
    | inr f ↦
        let q = subst-Renamed n k a x b r e' f h in
        let (safe, s1, s2) = s q.name q.body f q.fresh q.renaming in
        let v : M.Value = denote M ρ r in
        ap (denote M ρ) (sym q.whole)
        ∙ ap (M.quantifier k) (
            fun_ext (λ d.
              let ρ' : String → M.Value = update ρ q.name d in
              subst-denote n q.body x r q.result ρ' s2 q.rest
              ∙ ap (λ w. denote M (update ρ' x w) q.body)
                  (untouched ρ q.name d r (gen_var-fresh a (free_vars r) q.fresh))
              ∙ subst-denote n b a (var q.name) q.body (update ρ' x v) s1 q.renaming
              ∙ ap (λ w. denote M (update (update ρ' x v) a w) b)
                  (read_new ρ a q.name x d v b f safe)
              ∙ denote_ext M b (update (update ρ' x v) a d) (update (update ρ x v) a d)
                  (updates ρ a q.name x d v b f safe)))
  ]
