-- ===== src/Normalize/BinaryForms.antt =====
-- What the binary forms of aris/src/expr.rs denote, where the operators that are split are associative,
-- and their shape.
use mathlib.Core.List.{append-nil}
use aris.Base.{String, Bool, true, false, [], ◌∷◌, ◌≡◌, refl, ap, ap₂, ◌∙◌, fun_ext}
use aris.Expr.{Expr, Exprs, Op, contra, taut, var, apply, not, impl, assoc, quant, nil, cons}
use aris.Expr.TwoValued.{two_valued}
use aris.Expr.Denote.{Algebra, update, denote, denote_all}
use aris.Transform.Denotes.{Same}
use aris.Transform.Fixpoint.{Everywhere, EverywhereAll}
use aris.Normalize.Narrow.{Narrow, binary-Narrow, left-Narrow}
use aris.Normalize.Classical.{Associative}
use aris.Normalize.Binary.{
  normalize_assoc_to_binary, to_binary_all, to_binary_operands, fold_binary, join_left,
  normalize_assoc_to_binary_left, to_binary_left_all,
}

-- An operator is associative if it has more than two operands.
abbrev WideLaw : Algebra → Expr → Type 0
WideLaw M (assoc op (cons a (cons b (cons c es)))) = Associative M op
WideLaw M _ = Unit

-- Each operator that stands in the expression with more than two operands is associative.
abbrev pub WideAssociative : Algebra → Expr → Type 0
WideAssociative M = Everywhere (WideLaw M)

module _ (M : Algebra) where
  abbrev AllLaw : Exprs → Type 0
  AllLaw = EverywhereAll (WideLaw M)

  law-rest :
      (op : Op) (b c : Expr) (es : Exprs)
      → Associative M op
      → WideLaw M (assoc op (cons b (cons c es)))
  law-rest op b c nil law = tt
  law-rest op b c (cons d es) law = law

  law-left :
      (op : Op) (es : Exprs)
      → WideLaw M (assoc op es)
      → WideLaw M (assoc op (to_binary_left_all es))
  unfolding normalize_assoc_to_binary_left
  law-left op nil law = law
  law-left op (cons a nil) law = law
  law-left op (cons a (cons b nil)) law = law
  law-left op (cons a (cons b (cons c es))) law = law

  mutual
    unfolding denote normalize_assoc_to_binary

    binary-denote : (e : Expr) → WideAssociative M e → Same M (normalize_assoc_to_binary e) e
    binary-denote contra h ρ = refl
    binary-denote taut h ρ = refl
    binary-denote (var name) h ρ = refl
    binary-denote (apply func args) (_, h, k) ρ =
        ap₂ M.call (binary-denote func h ρ) (binary_all-denote args k ρ)
    binary-denote (not operand) (_, h) ρ = ap M.negation (binary-denote operand h ρ)
    binary-denote (impl left right) (_, h, k) ρ =
        ap₂ M.implication (binary-denote left h ρ) (binary-denote right k ρ)
    binary-denote (assoc op exprs) (law, h) ρ = binary_operands-denote op exprs law h ρ
    binary-denote (quant kind name body) (_, h) ρ =
        ap (M.quantifier kind) (fun_ext (λ d. binary-denote body h (update ρ name d)))

    binary_all-denote :
        (es : Exprs)
        → AllLaw es
        → (ρ : String → M.Value) → denote_all M ρ (to_binary_all es) ≡ denote_all M ρ es
    binary_all-denote nil h ρ = refl
    binary_all-denote (cons e es) (h, k) ρ =
        ap₂ ◌∷◌ (binary-denote e h ρ) (binary_all-denote es k ρ)

    binary_operands-denote :
        (op : Op) (es : Exprs)
        → WideLaw M (assoc op es)
        → AllLaw es
        → (ρ : String → M.Value)
        → M.operation op (denote_all M ρ (to_binary_operands op es))
          ≡ M.operation op (denote_all M ρ es)
    binary_operands-denote op nil law h ρ = refl
    binary_operands-denote op (cons a nil) law (h, _) ρ =
        ap (λ v. M.operation op (v ∷ [])) (binary-denote a h ρ)
    binary_operands-denote op (cons a (cons b nil)) law (h, (k, _)) ρ =
        ap₂ (λ v w. M.operation op (v ∷ w ∷ [])) (binary-denote a h ρ) (binary-denote b k ρ)
    binary_operands-denote op (cons a (cons b (cons c es))) law (h, k) ρ =
        ap₂ (λ v w. M.operation op (v ∷ w ∷ [])) (binary-denote a h ρ)
          (binary_operands-denote op (cons b (cons c es)) (law-rest op b c es law) k ρ)
        ∙ law (denote M ρ a ∷ []) (denote_all M ρ (cons b (cons c es))) []
        ∙ ap (λ vs. M.operation op (denote M ρ a ∷ vs))
            (append-nil (denote_all M ρ (cons b (cons c es))))

  fold_binary-denote :
      (op : Op) (acc e : Expr) (es : Exprs)
      → Associative M op
      → (ρ : String → M.Value)
      → denote M ρ (fold_binary op acc (cons e es))
        ≡ M.operation op (denote M ρ acc ∷ denote_all M ρ (cons e es))
  unfolding fold_binary denote
  fold_binary-denote op acc e nil law ρ = refl
  fold_binary-denote op acc e (cons e' es) law ρ =
      fold_binary-denote op (assoc op (cons acc (cons e nil))) e' es law ρ
      ∙ law [] (denote M ρ acc ∷ denote M ρ e ∷ []) (denote_all M ρ (cons e' es))

  join_left-denote :
      (op : Op) (es : Exprs)
      → WideLaw M (assoc op es)
      → (ρ : String → M.Value) → denote M ρ (join_left op es) ≡ M.operation op (denote_all M ρ es)
  unfolding join_left denote
  join_left-denote op nil law ρ = refl
  join_left-denote op (cons a nil) law ρ = refl
  join_left-denote op (cons a (cons b nil)) law ρ = refl
  join_left-denote op (cons a (cons b (cons c es))) law ρ =
      fold_binary-denote op a b (cons c es) law ρ

  mutual
    unfolding denote normalize_assoc_to_binary_left

    left-denote : (e : Expr) → WideAssociative M e → Same M (normalize_assoc_to_binary_left e) e
    left-denote contra h ρ = refl
    left-denote taut h ρ = refl
    left-denote (var name) h ρ = refl
    left-denote (apply func args) (_, h, k) ρ =
        ap₂ M.call (left-denote func h ρ) (left_all-denote args k ρ)
    left-denote (not operand) (_, h) ρ = ap M.negation (left-denote operand h ρ)
    left-denote (impl left right) (_, h, k) ρ =
        ap₂ M.implication (left-denote left h ρ) (left-denote right k ρ)
    left-denote (assoc op exprs) (law, h) ρ =
        join_left-denote op (to_binary_left_all exprs) (law-left op exprs law) ρ
        ∙ ap (M.operation op) (left_all-denote exprs h ρ)
    left-denote (quant kind name body) (_, h) ρ =
        ap (M.quantifier kind) (fun_ext (λ d. left-denote body h (update ρ name d)))

    left_all-denote :
        (es : Exprs)
        → AllLaw es
        → (ρ : String → M.Value) → denote_all M ρ (to_binary_left_all es) ≡ denote_all M ρ es
    left_all-denote nil h ρ = refl
    left_all-denote (cons e es) (h, k) ρ = ap₂ ◌∷◌ (left-denote e h ρ) (left_all-denote es k ρ)

-- In every algebra in which each operator that stands in the expression with more than two operands is
-- associative, both binary forms denote what the expression does, and nowhere in them has an operator
-- more than two operands.
pub normalize_assoc_to_binary_lem :
    (M : Algebra) (e : Expr)
    → WideAssociative M e
    → Same M (normalize_assoc_to_binary e) e
      × Same M (normalize_assoc_to_binary_left e) e
      × Narrow (normalize_assoc_to_binary e)
      × Narrow (normalize_assoc_to_binary_left e)
normalize_assoc_to_binary_lem M e law =
    (binary-denote M e law, left-denote M e law, binary-Narrow e, left-Narrow e)

-- x ≡ y ≡ z
abbrev pub three_equivalent : String → String → String → Expr
three_equivalent x y z = assoc Op.equiv (cons (var x) (cons (var y) (cons (var z) nil)))

-- With ≡ read as the equivalence of all operands: for all names x, y and z with x true and y and z
-- false, x ≡ y ≡ z is false, and both of its binary forms, x ≡ (y ≡ z) and (x ≡ y) ≡ z, are true.
pub normalize_assoc_to_binary-equivalence :
    (x y z : String) (ρ : String → Bool)
    → ρ x ≡ true
    → ρ y ≡ false
    → ρ z ≡ false
    → (denote two_valued ρ (three_equivalent x y z) ≡ false)
      × (denote two_valued ρ (normalize_assoc_to_binary (three_equivalent x y z)) ≡ true)
      × (denote two_valued ρ (normalize_assoc_to_binary_left (three_equivalent x y z)) ≡ true)
unfolding denote normalize_assoc_to_binary normalize_assoc_to_binary_left fold_binary
normalize_assoc_to_binary-equivalence x y z ρ hx hy hz =
    (rw (hx, hy) refl, rw (hx, hy, hz) refl, rw (hx, hy, hz) refl)
