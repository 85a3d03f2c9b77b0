-- ===== src/Normalize/Connectives.antt =====
-- The steps of the propositional normalizers of aris/src/expr.rs, and what their results denote.
use mathlib.Core.List.{map, append_assoc}
use aris.Base.{
  String, true, ◌&&◌, List, [], ◌∷◌, ◌++◌, ◌≡◌, refl, ap, ◌∙◌, sym, string_eq, Bool-cases, inl, inr,
}
use aris.Expr.{Expr, Exprs, Op, not, assoc, nil, cons}
use aris.Expr.Denote.{Algebra, denote, denote_all}
use aris.Transform.Denotes.{Keeps}
use aris.Normalize.{
  op_eq, map_exprs, append_exprs, flatten_one, flatten, demorgans, demorgans_step, is_not,
  contraposition_step, selected, combine_one, combine_from, combine_step,
}
use aris.Normalize.Classical.{Associative, DeMorgan, Implications}

pub op_eq-path : (a b : Op) → op_eq a b ≡ true → a ≡ b
unfolding op_eq
op_eq-path Op.and Op.and h = refl
op_eq-path Op.or Op.or h = refl
op_eq-path Op.bicon Op.bicon h = refl
op_eq-path Op.equiv Op.equiv h = refl
op_eq-path Op.add Op.add h = refl
op_eq-path Op.mult Op.mult h = refl
op_eq-path _ _ h = absurd cc

module _ (M : Algebra) where
  denote_all-append :
      (ρ : String → M.Value) (es es' : Exprs)
      → denote_all M ρ (append_exprs es es') ≡ denote_all M ρ es ++ denote_all M ρ es'
  unfolding denote append_exprs
  denote_all-append ρ nil es' = refl
  denote_all-append ρ (cons e es) es' = ap (denote M ρ e ∷◌) (denote_all-append ρ es es')

  denote_all-map-not :
      (ρ : String → M.Value) (es : Exprs)
      → denote_all M ρ (map_exprs not es) ≡ map M.negation (denote_all M ρ es)
  unfolding denote map_exprs
  denote_all-map-not ρ nil = refl
  denote_all-map-not ρ (cons e es) = ap (M.negation (denote M ρ e) ∷◌) (denote_all-map-not ρ es)

  -- One operand, flattened or not, beside others.
  absorbs :
      (op : Op) (ρ : String → M.Value) (e : Expr) (es : Exprs) (us ws : List M.Value)
      → M.operation op (us ++ denote M ρ e ∷ ws) ≡ M.operation op (us ++ (denote_all M ρ es ++ ws))
      → (es' : Exprs)
      → ((vs : List M.Value)
          → M.operation op (vs ++ denote_all M ρ es') ≡ M.operation op (vs ++ ws))
      → M.operation op (us ++ denote_all M ρ (append_exprs es es'))
        ≡ M.operation op (us ++ denote M ρ e ∷ ws)
  absorbs op ρ e es us ws h es' k =
      ap (λ vs. M.operation op (us ++ vs)) (denote_all-append ρ es es')
      ∙ ap (M.operation op) (sym (append_assoc us (denote_all M ρ es) (denote_all M ρ es')))
      ∙ k (us ++ denote_all M ρ es)
      ∙ ap (M.operation op) (append_assoc us (denote_all M ρ es) ws)
      ∙ sym h

  flatten_one-absorbs :
      (op : Op)
      → Associative M op
      → (ρ : String → M.Value) (e : Expr) (us ws : List M.Value)
      → M.operation op (us ++ denote M ρ e ∷ ws)
        ≡ M.operation op (us ++ (denote_all M ρ (flatten_one op e) ++ ws))
  unfolding flatten_one denote
  flatten_one-absorbs op h ρ (assoc inner exprs) us ws = elim (Bool-cases (op_eq inner op)) [
    | inl t ↦ rw t (rw (op_eq-path inner op t) (h us (denote_all M ρ exprs) ws))
    | inr f ↦ rw f
  ]
  flatten_one-absorbs op h ρ _ us ws = refl

  flatten-denote :
      (op : Op)
      → Associative M op
      → (ρ : String → M.Value) (es : Exprs) (us : List M.Value)
      → M.operation op (us ++ denote_all M ρ (flatten op es))
        ≡ M.operation op (us ++ denote_all M ρ es)
  unfolding flatten denote
  flatten-denote op h ρ nil us = refl
  flatten-denote op h ρ (cons e es) us =
      absorbs op ρ e (flatten_one op e) us (denote_all M ρ es)
        (flatten_one-absorbs op h ρ e us (denote_all M ρ es)) (flatten op es)
        (flatten-denote op h ρ es)

  pub demorgans_step-Keeps : DeMorgan M → Keeps M demorgans_step
  unfolding demorgans_step demorgans denote
  demorgans_step-Keeps c (not (assoc Op.and exprs)) ρ =
      ap (M.operation Op.or) (denote_all-map-not ρ exprs) ∙ sym (c.not_and (denote_all M ρ exprs))
  demorgans_step-Keeps c (not (assoc Op.or exprs)) ρ =
      ap (M.operation Op.and) (denote_all-map-not ρ exprs) ∙ sym (c.not_or (denote_all M ρ exprs))
  demorgans_step-Keeps c (assoc Op.and exprs) ρ = flatten-denote Op.and c.and_associative ρ exprs []
  demorgans_step-Keeps c (assoc Op.or exprs) ρ = flatten-denote Op.or c.or_associative ρ exprs []
  demorgans_step-Keeps c _ ρ = refl

  pub contraposition_step-Keeps : Implications M → Keeps M contraposition_step
  unfolding contraposition_step denote
  contraposition_step-Keeps c (assoc Op.bicon (cons a (cons b nil))) ρ =
      elim (Bool-cases (is_not a && is_not b)) [
        | inl t ↦ rw t
        | inr f ↦ rw f (c.contraposition (denote M ρ a) (denote M ρ b))
      ]
  contraposition_step-Keeps c _ ρ = refl

  combine_one-absorbs :
      (t : String) (op : Op)
      → Associative M op
      → (ρ : String → M.Value) (e : Expr) (us ws : List M.Value)
      → M.operation op (us ++ denote M ρ e ∷ ws)
        ≡ M.operation op (us ++ (denote_all M ρ (combine_one t op e).0 ++ ws))
  unfolding combine_one denote
  combine_one-absorbs t op h ρ (assoc inner exprs) us ws = elim (Bool-cases (op_eq op inner)) [
    | inl p ↦ elim (Bool-cases (selected t inner)) [
      | inl q ↦ rw (p, q) (rw (sym (op_eq-path op inner p)) (h us (denote_all M ρ exprs) ws))
      | inr q ↦ rw (p, q)
    ]
    | inr p ↦ rw p
  ]
  combine_one-absorbs t op h ρ _ us ws = refl

  combine_from-denote :
      (t : String) (op : Op)
      → Associative M op
      → (ρ : String → M.Value) (es : Exprs) (us : List M.Value)
      → M.operation op (us ++ denote_all M ρ (combine_from t op es).0)
        ≡ M.operation op (us ++ denote_all M ρ es)
  unfolding combine_from denote
  combine_from-denote t op h ρ nil us = refl
  combine_from-denote t op h ρ (cons e es) us =
      absorbs op ρ e (combine_one t op e).0 us (denote_all M ρ es)
        (combine_one-absorbs t op h ρ e us (denote_all M ρ es)) (combine_from t op es).0
        (combine_from-denote t op h ρ es)

  pub combine_step-Keeps :
      (t : String)
      → ((op : Op) → selected t op ≡ true → Associative M op)
      → Keeps M (combine_step t)
  unfolding combine_step denote
  combine_step-Keeps t h (assoc op exprs) ρ = elim (Bool-cases (selected t op)) [
    | inl p ↦ rw p (combine_from-denote t op (h op p) ρ exprs [])
    | inr p ↦ rw p
  ]
  combine_step-Keeps t h _ ρ = refl
