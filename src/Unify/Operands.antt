-- ===== src/Unify/Operands.antt =====
-- The constraints on the operands of two expressions of aris/src/expr.rs with the same form.
use aris.Base.{
  String, true, ◌&&◌, some, List, [], ◌∷◌, ◌≡◌, refl, ap, ap₂, ◌∙◌, sym, nat_eq, Bool-cases, inl,
  inr, arith, and-left, and-right, transport, some-inj,
}
use aris.Expr.{
  Expr, Exprs, Op, contra, taut, var, apply, not, impl, assoc, quant, nil, cons, to_list, from_list,
  to_list-from_list,
}
use aris.Expr.Denote.{Algebra, denote, denote_all}
use aris.Normalize.{op_eq}
use aris.Normalize.Connectives.{op_eq-path}
use aris.Unify.{Constraint, equal, operand_constraints, same_len, zip_equal}
use aris.Unify.Plain.{is_plain, all_plain}
use aris.Unify.Sets.{Each}
use aris.Unify.View.{Plain}
use aris.Unify.Terms.{terms}

-- Two expressions with the same form, and the constraints on their operands.
pub data Alike : Expr → Expr → List Constraint → Type 0 where
  nots : (s t : Expr) → Alike (not s) (not t) (equal s t ∷ [])
  impls : (sl sr tl tr : Expr) → Alike (impl sl sr) (impl tl tr) (equal sl tl ∷ equal sr tr ∷ [])
  applies :
      (f : Expr) (es : Exprs) (g : Expr) (fs : Exprs)
      → same_len es fs ≡ true
      → Alike (apply f es) (apply g fs) (equal f g ∷ zip_equal es fs)
  assocs :
      (op : Op) (es : Exprs) (op2 : Op) (fs : Exprs)
      → op ≡ op2
      → same_len es fs ≡ true
      → Alike (assoc op es) (assoc op2 fs) (zip_equal es fs)

pub operands-Alike :
    (left right : Expr) (cs : List Constraint)
    → operand_constraints left right ≡ some cs
    → Alike left right cs
unfolding operand_constraints
operands-Alike contra right cs h = absurd cc
operands-Alike taut right cs h = absurd cc
operands-Alike (var x) right cs h = absurd cc
operands-Alike (apply f es) contra cs h = absurd cc
operands-Alike (apply f es) taut cs h = absurd cc
operands-Alike (apply f es) (var y) cs h = absurd cc
operands-Alike (apply f es) (apply g fs) cs h = elim (Bool-cases (same_len es fs)) [
  | inl t ↦ transport (Alike (apply f es) (apply g fs)) (some-inj (rw t at h)) (applies f es g fs t)
  | inr u ↦ absurd (let h' = rw u at h in cc)
]
operands-Alike (apply f es) (not t) cs h = absurd cc
operands-Alike (apply f es) (impl tl tr) cs h = absurd cc
operands-Alike (apply f es) (assoc op2 fs) cs h = absurd cc
operands-Alike (apply f es) (quant k y e) cs h = absurd cc
operands-Alike (not s) contra cs h = absurd cc
operands-Alike (not s) taut cs h = absurd cc
operands-Alike (not s) (var y) cs h = absurd cc
operands-Alike (not s) (apply g fs) cs h = absurd cc
operands-Alike (not s) (not t) cs h = transport (Alike (not s) (not t)) (some-inj h) (nots s t)
operands-Alike (not s) (impl tl tr) cs h = absurd cc
operands-Alike (not s) (assoc op2 fs) cs h = absurd cc
operands-Alike (not s) (quant k y e) cs h = absurd cc
operands-Alike (impl sl sr) contra cs h = absurd cc
operands-Alike (impl sl sr) taut cs h = absurd cc
operands-Alike (impl sl sr) (var y) cs h = absurd cc
operands-Alike (impl sl sr) (apply g fs) cs h = absurd cc
operands-Alike (impl sl sr) (not t) cs h = absurd cc
operands-Alike (impl sl sr) (impl tl tr) cs h =
    transport (Alike (impl sl sr) (impl tl tr)) (some-inj h) (impls sl sr tl tr)
operands-Alike (impl sl sr) (assoc op2 fs) cs h = absurd cc
operands-Alike (impl sl sr) (quant k y e) cs h = absurd cc
operands-Alike (assoc op es) contra cs h = absurd cc
operands-Alike (assoc op es) taut cs h = absurd cc
operands-Alike (assoc op es) (var y) cs h = absurd cc
operands-Alike (assoc op es) (apply g fs) cs h = absurd cc
operands-Alike (assoc op es) (not t) cs h = absurd cc
operands-Alike (assoc op es) (impl tl tr) cs h = absurd cc
operands-Alike (assoc op es) (assoc op2 fs) cs h =
    elim (Bool-cases (op_eq op op2 && same_len es fs)) [
      | inl t ↦ transport (Alike (assoc op es) (assoc op2 fs)) (some-inj (rw t at h)) (
          assocs op es op2 fs (op_eq-path op op2 (and-left (op_eq op op2) (same_len es fs) t))
            (and-right (op_eq op op2) (same_len es fs) t))
      | inr u ↦ absurd (let h' = rw u at h in cc)
    ]
operands-Alike (assoc op es) (quant k y e) cs h = absurd cc
operands-Alike (quant k x e) right cs h = absurd cc

same_len-tail :
    (e f : Expr) (es fs : Exprs) → same_len (cons e es) (cons f fs) ≡ true → same_len es fs ≡ true
unfolding to_list
same_len-tail e f es fs h = ground arith

-- The two sides have the same value.
abbrev pub Holds : (M : Algebra) → (String → M.Value) → Constraint → Type 0
Holds M ρ (equal a b) = denote M ρ a ≡ denote M ρ b

module _ (M : Algebra) (ρ : String → M.Value) where
  zip-denote :
      (es fs : Exprs)
      → same_len es fs ≡ true
      → Each (Holds M ρ) (zip_equal es fs)
      → denote_all M ρ es ≡ denote_all M ρ fs
  unfolding denote zip_equal to_list
  zip-denote nil nil l h = refl
  zip-denote nil (cons f fs) l h = absurd (ground arith)
  zip-denote (cons e es) nil l h = absurd (ground arith)
  zip-denote (cons e es) (cons f fs) l (h, h') =
      ap₂ ◌∷◌ h (zip-denote es fs (same_len-tail e f es fs l) h')

  pub Alike-denote :
      (left right : Expr) (cs : List Constraint)
      → Alike left right cs
      → Each (Holds M ρ) cs
      → denote M ρ left ≡ denote M ρ right
  unfolding denote
  Alike-denote left right cs (nots s t) (h, _) = ap M.negation h
  Alike-denote left right cs (impls sl sr tl tr) (h, (h', _)) = ap₂ M.implication h h'
  Alike-denote left right cs (applies f es g fs l) (h, h') = ap₂ M.call h (zip-denote es fs l h')
  Alike-denote left right cs (assocs op es op2 fs e l) h = ap₂ M.operation e (zip-denote es fs l h)

cons_parts : {x y : Expr} {xs ys : List Expr} → x ∷ xs ≡ y ∷ ys → (x ≡ y) × (xs ≡ ys)
cons_parts h = (cc, cc)

module _ (θ : String → Expr) where
  zip-values :
      (es fs : Exprs)
      → denote_all terms θ es ≡ denote_all terms θ fs
      → Each (Holds terms θ) (zip_equal es fs)
  unfolding denote zip_equal
  zip-values nil nil h = tt
  zip-values nil (cons f fs) h = tt
  zip-values (cons e es) nil h = tt
  zip-values (cons e es) (cons f fs) h = let (p, q) = cons_parts h in (p, zip-values es fs q)

  list_path : (vs ws : List Expr) → from_list vs ≡ from_list ws → vs ≡ ws
  list_path vs ws h = sym (to_list-from_list vs) ∙ ap to_list h ∙ to_list-from_list ws

  -- Terms are equal only if the terms of the operands are.
  pub Alike-values :
      (left right : Expr) (cs : List Constraint)
      → Alike left right cs
      → denote terms θ left ≡ denote terms θ right
      → Each (Holds terms θ) cs
  unfolding denote
  Alike-values left right cs (nots s t) h = (cc, tt)
  Alike-values left right cs (impls sl sr tl tr) h = (cc, (cc, tt))
  Alike-values left right cs (applies f es g fs l) h =
      (cc, zip-values es fs (list_path (denote_all terms θ es) (denote_all terms θ fs) (cc)))
  Alike-values left right cs (assocs op es op2 fs e l) h =
      zip-values es fs (list_path (denote_all terms θ es) (denote_all terms θ fs) (cc))

zip-Plain :
    (es fs : Exprs) → all_plain es ≡ true → all_plain fs ≡ true → Each Plain (zip_equal es fs)
unfolding zip_equal
zip-Plain nil nil p q = tt
zip-Plain nil (cons f fs) p q = tt
zip-Plain (cons e es) nil p q = tt
zip-Plain (cons e es) (cons f fs) p q = (
  (and-left (is_plain e) (all_plain es) p, and-left (is_plain f) (all_plain fs) q),
  zip-Plain es fs (and-right (is_plain e) (all_plain es) p)
      (and-right (is_plain f) (all_plain fs) q),
)

pub Alike-Plain :
    (left right : Expr) (cs : List Constraint)
    → Alike left right cs
    → is_plain left ≡ true
    → is_plain right ≡ true
    → Each Plain cs
Alike-Plain left right cs (nots s t) p q = ((p, q), tt)
Alike-Plain left right cs (impls sl sr tl tr) p q = (
  (and-left (is_plain sl) (is_plain sr) p, and-left (is_plain tl) (is_plain tr) q),
  ((and-right (is_plain sl) (is_plain sr) p, and-right (is_plain tl) (is_plain tr) q), tt),
)
Alike-Plain left right cs (applies f es g fs l) p q = (
  (and-left (is_plain f) (all_plain es) p, and-left (is_plain g) (all_plain fs) q),
  zip-Plain es fs (and-right (is_plain f) (all_plain es) p)
      (and-right (is_plain g) (all_plain fs) q),
)
Alike-Plain left right cs (assocs op es op2 fs e l) p q = zip-Plain es fs p q
