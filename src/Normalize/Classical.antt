-- ===== src/Normalize/Classical.antt =====
-- The laws that the normalizers of aris/src/expr.rs rest on, as properties of an algebra, and that
-- the truth values have them.
use mathlib.Core.List.{map, foldl}
use aris.Base.{
  Bool, true, false, not as not_bool, ◌||◌, ◌&&◌, List, [], ◌∷◌, ◌++◌, ◌≡◌, refl, ap, ◌∙◌, sym, all,
  any, and_assoc, or_assoc,
}
use aris.Expr.{Op, QuantKind}
use aris.Expr.Eval.{bool_eq}
use aris.Expr.Denote.{Algebra}
use aris.Expr.TwoValued.{two_valued, over_bool}

-- An operand of the same operator can be replaced by its operands.
abbrev pub Associative : Algebra → Op → Type 0
Associative M op =
    (us vs ws : List M.Value)
    → M.operation op (us ++ M.operation op vs ∷ ws) ≡ M.operation op (us ++ (vs ++ ws))

pub record DeMorgan (M : Algebra) : Type 0 where
  pub not_and :
      (vs : List M.Value)
      → M.negation (M.operation Op.and vs) ≡ M.operation Op.or (map M.negation vs)
  pub not_or :
      (vs : List M.Value)
      → M.negation (M.operation Op.or vs) ≡ M.operation Op.and (map M.negation vs)
  pub and_associative : Associative M Op.and
  pub or_associative : Associative M Op.or

pub record QuantifierNegations (M : Algebra) : Type 0 where
  pub not_forall :
      (f : M.Value → M.Value)
      → M.negation (M.quantifier QuantKind.forall f)
        ≡ M.quantifier QuantKind.exists (λ d. M.negation (f d))
  pub not_exists :
      (f : M.Value → M.Value)
      → M.negation (M.quantifier QuantKind.exists f)
        ≡ M.quantifier QuantKind.forall (λ d. M.negation (f d))

pub record QuantifierDistribution (M : Algebra) : Type 0 where
  pub forall_and :
      (fs : List (M.Value → M.Value))
      → M.quantifier QuantKind.forall (λ d. M.operation Op.and (map (λ f. f d) fs))
        ≡ M.operation Op.and (map (M.quantifier QuantKind.forall) fs)
  pub exists_or :
      (fs : List (M.Value → M.Value))
      → M.quantifier QuantKind.exists (λ d. M.operation Op.or (map (λ f. f d) fs))
        ≡ M.operation Op.or (map (M.quantifier QuantKind.exists) fs)

pub record Quantifiers (M : Algebra) : Type 0 where
  pub not_forall :
      (f : M.Value → M.Value)
      → M.negation (M.quantifier QuantKind.forall f)
        ≡ M.quantifier QuantKind.exists (λ d. M.negation (f d))
  pub not_exists :
      (f : M.Value → M.Value)
      → M.negation (M.quantifier QuantKind.exists f)
        ≡ M.quantifier QuantKind.forall (λ d. M.negation (f d))
  pub vacuous : (k : QuantKind) (v : M.Value) → M.quantifier k (λ _. v) ≡ v
  pub forall_and :
      (fs : List (M.Value → M.Value))
      → M.quantifier QuantKind.forall (λ d. M.operation Op.and (map (λ f. f d) fs))
        ≡ M.operation Op.and (map (M.quantifier QuantKind.forall) fs)
  pub exists_or :
      (fs : List (M.Value → M.Value))
      → M.quantifier QuantKind.exists (λ d. M.operation Op.or (map (λ f. f d) fs))
        ≡ M.operation Op.or (map (M.quantifier QuantKind.exists) fs)

pub record Implications (M : Algebra) : Type 0 where
  pub not_impl :
      (a b : M.Value) → M.negation (M.implication a b) ≡ M.operation Op.and (a ∷ M.negation b ∷ [])
  pub not_both :
      (a b : M.Value)
      → M.negation (M.operation Op.and (a ∷ b ∷ [])) ≡ M.implication a (M.negation b)
  pub contraposition :
      (a b : M.Value)
      → M.operation Op.bicon (M.negation a ∷ M.negation b ∷ []) ≡ M.operation Op.bicon (a ∷ b ∷ [])

not-all : (bs : List Bool) → not_bool (all (λ b. b) bs) ≡ any (λ b. b) (map not_bool bs)
not-all [] = refl
not-all (true ∷ bs) = not-all bs
not-all (false ∷ bs) = refl

not-any : (bs : List Bool) → not_bool (any (λ b. b) bs) ≡ all (λ b. b) (map not_bool bs)
not-any [] = refl
not-any (true ∷ bs) = refl
not-any (false ∷ bs) = not-any bs

all-append : (p : Bool → Bool) (xs bs : List Bool) → all p (xs ++ bs) ≡ (all p xs && all p bs)
all-append p [] bs = refl
all-append p (a ∷ xs) bs =
    ap (p a &&◌) (all-append p xs bs) ∙ sym (and_assoc (p a) (all p xs) (all p bs))

any-append : (p : Bool → Bool) (xs bs : List Bool) → any p (xs ++ bs) ≡ (any p xs || any p bs)
any-append p [] bs = refl
any-append p (a ∷ xs) bs =
    ap (p a ||◌) (any-append p xs bs) ∙ sym (or_assoc (p a) (any p xs) (any p bs))

and-Associative : Associative two_valued Op.and
and-Associative us vs ws = simp (
  all-append (λ b. b) us (all (λ b. b) vs ∷ ws),
  all-append (λ b. b) us (vs ++ ws),
  all-append (λ b. b) vs ws,
)

or-Associative : Associative two_valued Op.or
or-Associative us vs ws = simp (
  any-append (λ b. b) us (any (λ b. b) vs ∷ ws),
  any-append (λ b. b) us (vs ++ ws),
  any-append (λ b. b) vs ws,
)

pub bool_eq_assoc : (a b c : Bool) → bool_eq (bool_eq a b) c ≡ bool_eq a (bool_eq b c)
bool_eq_assoc true b c = refl
bool_eq_assoc false true c = refl
bool_eq_assoc false false true = refl
bool_eq_assoc false false false = refl

pub bool_eq-true_right : (a : Bool) → bool_eq a true ≡ a
bool_eq-true_right true = refl
bool_eq-true_right false = refl

foldl-start : (a : Bool) (bs : List Bool) → foldl bool_eq a bs ≡ bool_eq a (foldl bool_eq true bs)
foldl-start a [] = sym (bool_eq-true_right a)
foldl-start a (b ∷ bs) =
    foldl-start (bool_eq a b) bs
    ∙ bool_eq_assoc a b (foldl bool_eq true bs)
    ∙ ap (bool_eq a) (sym (foldl-start b bs))

foldl-append_lem :
    (a : Bool) (bs cs : List Bool)
    → foldl bool_eq a (bs ++ cs) ≡ foldl bool_eq (foldl bool_eq a bs) cs
foldl-append_lem a [] cs = refl
foldl-append_lem a (b ∷ bs) cs = foldl-append_lem (bool_eq a b) bs cs

pub bicon-Associative : Associative two_valued Op.bicon
bicon-Associative us vs ws =
    foldl-append_lem true us (foldl bool_eq true vs ∷ ws)
    ∙ ap (λ a. foldl bool_eq a ws) (sym (foldl-start (foldl bool_eq true us) vs))
    ∙ sym (foldl-append_lem (foldl bool_eq true us) vs ws)
    ∙ sym (foldl-append_lem true us (vs ++ ws))

and_swap : (a b c d : Bool) → ((a && b) && (c && d)) ≡ ((a && c) && (b && d))
and_swap true true c d = refl
and_swap true false true d = refl
and_swap true false false d = refl
and_swap false b c d = refl

or_swap : (a b c d : Bool) → ((a || b) || (c || d)) ≡ ((a || c) || (b || d))
or_swap false false c d = refl
or_swap false true false d = refl
or_swap false true true d = refl
or_swap true b c d = refl

forall-all :
    (fs : List (Bool → Bool))
    → over_bool QuantKind.forall (λ d. all (λ b. b) (map (λ f. f d) fs))
      ≡ all (λ b. b) (map (over_bool QuantKind.forall) fs)
forall-all [] = refl
forall-all (f ∷ fs) =
    and_swap (f true) (all (λ b. b) (map (λ f. f true) fs)) (f false)
      (all (λ b. b) (map (λ f. f false) fs))
    ∙ ap ((f true && f false) &&◌) (forall-all fs)

exists-any :
    (fs : List (Bool → Bool))
    → over_bool QuantKind.exists (λ d. any (λ b. b) (map (λ f. f d) fs))
      ≡ any (λ b. b) (map (over_bool QuantKind.exists) fs)
exists-any [] = refl
exists-any (f ∷ fs) =
    or_swap (f true) (any (λ b. b) (map (λ f. f true) fs)) (f false)
      (any (λ b. b) (map (λ f. f false) fs))
    ∙ ap ((f true || f false) ||◌) (exists-any fs)

not-and : (a b : Bool) → not_bool (a && b) ≡ (not_bool a || not_bool b)
not-and true b = refl
not-and false b = refl

not-or : (a b : Bool) → not_bool (a || b) ≡ (not_bool a && not_bool b)
not-or true b = refl
not-or false b = refl

vacuous-two_valued : (k : QuantKind) (v : Bool) → over_bool k (λ _. v) ≡ v
vacuous-two_valued QuantKind.forall true = refl
vacuous-two_valued QuantKind.forall false = refl
vacuous-two_valued QuantKind.exists true = refl
vacuous-two_valued QuantKind.exists false = refl

not-impl : (a b : Bool) → not_bool (not_bool a || b) ≡ (a && (not_bool b && true))
not-impl true true = refl
not-impl true false = refl
not-impl false b = refl

not-both : (a b : Bool) → not_bool (a && (b && true)) ≡ (not_bool a || not_bool b)
not-both true true = refl
not-both true false = refl
not-both false b = refl

contraposition-two_valued :
    (a b : Bool) → bool_eq (bool_eq true (not_bool a)) (not_bool b) ≡ bool_eq (bool_eq true a) b
contraposition-two_valued true true = refl
contraposition-two_valued true false = refl
contraposition-two_valued false true = refl
contraposition-two_valued false false = refl

pub two_valued-DeMorgan : DeMorgan two_valued
two_valued-DeMorgan = record {
  not_and = not-all;
  not_or = not-any;
  and_associative = and-Associative;
  or_associative = or-Associative;
}

pub two_valued-QuantifierNegations : QuantifierNegations two_valued
two_valued-QuantifierNegations = record {
  not_forall = λ f. not-and (f true) (f false);
  not_exists = λ f. not-or (f true) (f false);
}

pub two_valued-QuantifierDistribution : QuantifierDistribution two_valued
two_valued-QuantifierDistribution = record { forall_and = forall-all; exists_or = exists-any }

pub two_valued-Quantifiers : Quantifiers two_valued
two_valued-Quantifiers = record {
  not_forall = λ f. not-and (f true) (f false);
  not_exists = λ f. not-or (f true) (f false);
  vacuous = vacuous-two_valued;
  forall_and = forall-all;
  exists_or = exists-any;
}

pub two_valued-Implications : Implications two_valued
two_valued-Implications = record {
  not_impl = not-impl;
  not_both = not-both;
  contraposition = contraposition-two_valued;
}
