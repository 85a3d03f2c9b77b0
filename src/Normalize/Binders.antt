-- ===== src/Normalize/Binders.antt =====
-- The steps of the normalizers of aris/src/expr.rs that move quantifiers, and what their results denote.
use mathlib.Core.List.{map}
use text.Mathlib.TextEquality.{eq_iff}
use aris.Base.{
  String, false, List, [], ◌∷◌, ◌≡◌, refl, ap, ◌∙◌, sym, fun_ext, string_eq, Bool-cases, inl, inr,
  arith,
}
use aris.Expr.{Expr, Exprs, Op, QuantKind, not, impl, assoc, quant, nil, cons}
use aris.Expr.Denote.{Algebra, update, denote, denote_all}
use aris.Vars.{contains, free_vars}
use aris.Vars.Occurs.{denote_ext}
use aris.Transform.Denotes.{Keeps}
use aris.Normalize.{
  map_exprs, negate_quantifiers_step, null_quantifiers_step, opposite, aristotelean_square_step,
  quantifier_distribution_step,
}
use aris.Normalize.Classical.{
  QuantifierNegations, QuantifierDistribution, Quantifiers, Implications,
}

module _ (M : Algebra) where
  pub negate_quantifiers_step-Keeps : QuantifierNegations M → Keeps M negate_quantifiers_step
  unfolding negate_quantifiers_step denote
  negate_quantifiers_step-Keeps c (not (quant QuantKind.exists name body)) ρ =
      sym (c.not_exists (λ d. denote M (update ρ name d) body))
  negate_quantifiers_step-Keeps c (not (quant QuantKind.forall name body)) ρ =
      sym (c.not_forall (λ d. denote M (update ρ name d) body))
  negate_quantifiers_step-Keeps c _ ρ = refl

  -- A name that is not free can have any value.
  unused :
      (ρ : String → M.Value) (name : String) (body : Expr) (d : M.Value)
      → contains name (free_vars body) ≡ false
      → denote M (update ρ name d) body ≡ denote M ρ body
  unused ρ name body d f =
      denote_ext M body (update ρ name d) ρ (λ y t. ground (arith, eq_iff y name))

  pub null_quantifiers_step-Keeps : Quantifiers M → Keeps M null_quantifiers_step
  unfolding null_quantifiers_step denote
  null_quantifiers_step-Keeps c (quant kind name body) ρ =
      elim (Bool-cases (contains name (free_vars body))) [
        | inl t ↦ rw t
        | inr f ↦ rw f (
            sym (
              ap (M.quantifier kind) (fun_ext (λ d. unused ρ name body d f))
              ∙ c.vacuous kind (denote M ρ body)))
      ]
  null_quantifiers_step-Keeps c _ ρ = refl

  pub aristotelean_square_step-Keeps :
      Quantifiers M → Implications M → Keeps M aristotelean_square_step
  unfolding aristotelean_square_step opposite denote
  aristotelean_square_step-Keeps c i (not (quant QuantKind.forall name (impl l r))) ρ =
      ap (M.quantifier QuantKind.exists) (
        fun_ext
          (λ d. sym (i.not_impl (denote M (update ρ name d) l) (denote M (update ρ name d) r))))
      ∙ sym (c.not_forall (λ d. denote M (update ρ name d) (impl l r)))
  aristotelean_square_step-Keeps c i (not (quant QuantKind.exists name (impl l r))) ρ =
      ap (M.quantifier QuantKind.forall) (
        fun_ext
          (λ d. sym (i.not_impl (denote M (update ρ name d) l) (denote M (update ρ name d) r))))
      ∙ sym (c.not_exists (λ d. denote M (update ρ name d) (impl l r)))
  aristotelean_square_step-Keeps c i
        (not (quant QuantKind.forall name (assoc Op.and (cons a (cons b nil))))) ρ =
      ap (M.quantifier QuantKind.exists) (
        fun_ext
          (λ d. sym (i.not_both (denote M (update ρ name d) a) (denote M (update ρ name d) b))))
      ∙ sym (c.not_forall (λ d. denote M (update ρ name d) (assoc Op.and (cons a (cons b nil)))))
  aristotelean_square_step-Keeps c i
        (not (quant QuantKind.exists name (assoc Op.and (cons a (cons b nil))))) ρ =
      ap (M.quantifier QuantKind.forall) (
        fun_ext
          (λ d. sym (i.not_both (denote M (update ρ name d) a) (denote M (update ρ name d) b))))
      ∙ sym (c.not_exists (λ d. denote M (update ρ name d) (assoc Op.and (cons a (cons b nil)))))
  aristotelean_square_step-Keeps c i _ ρ = refl

  -- The operands as functions of the bound name.
  abbrev readings : (String → M.Value) → String → Exprs → List (M.Value → M.Value)
  readings ρ name nil = []
  readings ρ name (cons e es) = (λ d. denote M (update ρ name d) e) ∷ readings ρ name es

  readings-at :
      (ρ : String → M.Value) (name : String) (es : Exprs) (d : M.Value)
      → map (λ f. f d) (readings ρ name es) ≡ denote_all M (update ρ name d) es
  unfolding denote
  readings-at ρ name nil d = refl
  readings-at ρ name (cons e es) d = ap (denote M (update ρ name d) e ∷◌) (readings-at ρ name es d)

  readings-quant :
      (k : QuantKind) (ρ : String → M.Value) (name : String) (es : Exprs)
      → denote_all M ρ (map_exprs (quant k name) es) ≡ map (M.quantifier k) (readings ρ name es)
  unfolding denote map_exprs
  readings-quant k ρ name nil = refl
  readings-quant k ρ name (cons e es) =
      ap (M.quantifier k (λ d. denote M (update ρ name d) e) ∷◌) (readings-quant k ρ name es)

  pub quantifier_distribution_step-Keeps :
      QuantifierDistribution M → Keeps M quantifier_distribution_step
  unfolding quantifier_distribution_step denote
  quantifier_distribution_step-Keeps c (quant QuantKind.forall name (assoc Op.and exprs)) ρ =
      ap (M.operation Op.and) (readings-quant QuantKind.forall ρ name exprs)
      ∙ sym (c.forall_and (readings ρ name exprs))
      ∙ ap (M.quantifier QuantKind.forall)
          (fun_ext (λ d. ap (M.operation Op.and) (readings-at ρ name exprs d)))
  quantifier_distribution_step-Keeps c (quant QuantKind.exists name (assoc Op.or exprs)) ρ =
      ap (M.operation Op.or) (readings-quant QuantKind.exists ρ name exprs)
      ∙ sym (c.exists_or (readings ρ name exprs))
      ∙ ap (M.quantifier QuantKind.exists)
          (fun_ext (λ d. ap (M.operation Op.or) (readings-at ρ name exprs d)))
  quantifier_distribution_step-Keeps c _ ρ = refl
