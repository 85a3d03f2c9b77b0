-- ===== src/Rules/Propositional/Graph/Introductions.antt =====
-- What `EquivalenceIntro` of aris/src/rules.rs accepts, by truth values, and `BiconditionalIntro`
-- where the biconditionals among its dependencies have two operands.
use aris.Base.{
  ℕ, Bool, true, false, not as not_bool, ◌||◌, ◌&&◌, some, List, [], ◌∷◌, ◌++◌, map, length, all,
  if◌then◌else◌, ◌==◌, nat_eq, string_eq, ◌≡◌, refl, ap, ◌∙◌, sym, ◌⊎◌, inl, inr, ==_path, arith,
  some-inj,
}
use aris.Expr.{Expr, Exprs, Op, var, assoc, nil, cons}
use aris.Expr.Equal.{expr_eq}
use aris.Expr.Eval.{bool_eq}
use aris.Rules.Values.{or-cases}
use aris.Pool.{PjRef, PooledProof, PooledSubproof, lookup_premise}
use aris.Pool.Lines.{
  lookup_expr, lookup_expr_or_die, lookup_premise_or_die, lookup_subproof_or_die,
  exprs as proof_exprs,
}
use aris.Pool.Scope.{line_does_not_exist, conclusion_of_wrong_form}
use aris.Rules.Order.{Checked}
use aris.Rules.Check.{exprs_len}
use aris.Rules.Models.{Respects, all_of}
use aris.Rules.Premises.{Satisfy, AllHold, AllDerive}
use aris.Rules.Propositional.Sound.{Sound, passed-ok}
use aris.Rules.Propositional.Subproofs.{collect, premise_keys, step_keys}
use aris.Rules.Propositional.Derived.{
  try-inr, inr-inj, only_one, found_or_die, append_result-inr, SubDerives, AllSubs, collected,
}
use aris.Rules.Propositional.Graph.{Petgraph, Graph, entry, edges_to, all_premise_edges}
use aris.Rules.Propositional.Graph.Check.{
  from_graph, edges_of, subproof_edges, all_subproof_edges, by_graph, biconditional_intro,
  equivalence_intro,
}
use aris.Rules.Propositional.Graph.Slab.{Good, entry-Good}
use aris.Rules.Propositional.Graph.Sound.{
  Uniform, edges_to-Good, Usable, AllUsable, all_premise_edges-Good,
}
use aris.Rules.Propositional.Graph.Components.{from_graph-Uniform}

panic-ok :
    (b : Bool) (next : Checked)
    → (if b then next else Checked.panic) ≡ Checked.ok
    → next ≡ Checked.ok
panic-ok true next h = h
panic-ok false next h = absurd cc

module _ {R : Type 0} (p : PooledProof Expr R) (v : Expr → Bool) where
  Satisfy-append :
      (P : Expr → Type 0) (rs ss : List PjRef)
      → Satisfy p P rs
      → Satisfy p P ss
      → Satisfy p P (rs ++ ss)
  Satisfy-append P [] ss u w = w
  Satisfy-append P (r ∷ rs) ss u w = (u.0, Satisfy-append P rs ss u.1 w)

  -- What is looked up has the property of the lines.
  collected-Usable :
      (oper : Op) (rs : List PjRef) (es : List Expr)
      → Satisfy p (Usable v oper) rs
      → collect (lookup_expr_or_die p) rs ≡ inr es
      → AllUsable v oper es
  unfolding collect lookup_expr_or_die
  collected-Usable oper [] es w h = rw (← inr-inj h) (tt)
  collected-Usable oper (r ∷ rs) es w h =
      let (e, rest, q, q', l) =
        append_result-inr (lookup_expr_or_die p r) (collect (lookup_expr_or_die p) rs) es h in
      rw l (
        w.0 e (found_or_die (line_does_not_exist r) (lookup_expr p r) e q),
        collected-Usable oper rs rest w.1 q',
      )

  collected_true :
      (rs : List PjRef) (es : List Expr)
      → AllHold p v rs
      → collect (lookup_expr_or_die p) rs ≡ inr es
      → all v es ≡ true
  unfolding collect lookup_expr_or_die
  collected_true [] es w h = rw (← inr-inj h)
  collected_true (r ∷ rs) es w h =
      let (e, rest, q, q', l) =
        append_result-inr (lookup_expr_or_die p r) (collect (lookup_expr_or_die p) rs) es h in
      rw (l, w.0 e (found_or_die (line_does_not_exist r) (lookup_expr p r) e q))
        (collected_true rs rest w.1 q')

  -- Where the one premise is true, so are all expressions of the subproof.
  exprs-true :
      (sub : PooledSubproof) (k : ℕ) (prem : Expr) (es : List Expr)
      → SubDerives p v sub
      → premise_keys sub ≡ k ∷ []
      → lookup_premise p k ≡ some prem
      → collect (lookup_expr_or_die p) (proof_exprs sub) ≡ inr es
      → v prem ≡ true
      → all v es ≡ true
  unfolding proof_exprs lookup_expr
  exprs-true sub k prem es d q l c t =
      let hold : AllHold p v (map PjRef.prem (premise_keys sub)) =
        rw q ((λ e h. ap v (sym (some-inj (sym l ∙ h))) ∙ t), tt) in
      collected_true (proof_exprs sub) es
        (Satisfy-append (λ e. v e ≡ true) (map PjRef.prem (premise_keys sub))
          (map PjRef.just (step_keys sub)) hold (d.1 hold))
        c

  edges_of-Good :
      (sub : PooledSubproof) (g : Graph) (k : Graph → Checked)
      → SubDerives p v sub
      → Good v g
      → edges_of p sub g k ≡ Checked.ok
      → (g' : Graph) × Good v g' × (k g' ≡ Checked.ok)
  unfolding edges_of lookup_premise_or_die
  edges_of-Good sub g k d w h =
      let (n, q) = only_one (premise_keys sub) d.0 in
      let (prem, l, h1) = try-inr (lookup_premise_or_die p n) _ (rw q at h) in
      let (es, c, h2) = try-inr (collect (lookup_expr_or_die p) (proof_exprs sub)) _ h1 in
      let there = found_or_die (line_does_not_exist (PjRef.prem n)) (lookup_premise p n) prem l in
      (
        edges_to prem es ((entry prem g.0).1, g.1),
        edges_to-Good v prem es ((entry prem g.0).1, g.1) (exprs-true sub n prem es d q there c)
            (entry-Good v prem g w),
        h2,
      )

  all_subproof_edges-Good :
      (subs : List PooledSubproof) (g : Graph) (k : Graph → Checked)
      → AllSubs p v subs
      → Good v g
      → all_subproof_edges p subs g k ≡ Checked.ok
      → (g' : Graph) × Good v g' × (k g' ≡ Checked.ok)
  unfolding all_subproof_edges subproof_edges
  all_subproof_edges-Good [] g k d w h = (g, w, h)
  all_subproof_edges-Good (sub ∷ subs) g k d w h =
      let (g1, w1, h1) =
        edges_of-Good sub g (λ g. all_subproof_edges p subs g k) d.0 w
          (panic-ok (length (premise_keys sub) == 1)
            (edges_of p sub g (λ g. all_subproof_edges p subs g k)) h) in
      all_subproof_edges-Good subs g1 k d.1 w1 h1

  -- Operands that the check finds mutually implied are all true or all false.
  by_graph-Uniform :
      (petgraph : Petgraph) (oper : Op) (exprs : Exprs) (deps : List PjRef) (sdeps : List ℕ)
      → Respects v
      → Satisfy p (Usable v oper) deps
      → AllDerive p v sdeps
      → by_graph petgraph p oper exprs deps sdeps ≡ Checked.ok
      → Uniform v exprs
  unfolding by_graph
  by_graph-Uniform petgraph oper exprs deps sdeps r u d h =
      let (prems, q, h1) = try-inr (collect (lookup_expr_or_die p) deps) _ h in
      let (subs, q', h2) = try-inr (collect (lookup_subproof_or_die p) sdeps) _ h1 in
      let (g, q'', h3) = try-inr (all_premise_edges oper prems ([], [])) _ h2 in
      let (g', w, h4) =
        all_subproof_edges-Good subs g (from_graph petgraph exprs) (collected p v sdeps subs d q')
          (all_premise_edges-Good v r oper prems ([], []) g (collected-Usable oper deps prems u q)
            q'' (tt, tt))
          h3 in
      from_graph-Uniform petgraph v exprs g' w h4

-- A biconditional has two operands.
abbrev pub TwoOperands : Expr → Type 0
TwoOperands e = (exprs : Exprs) → e ≡ assoc Op.bicon exprs → exprs_len exprs ≡ 2

module _ (v : Expr → Bool) (r : Respects v) where
  two-Uniform :
      (exprs : Exprs) → exprs_len exprs ≡ 2 → v (assoc Op.bicon exprs) ≡ true → Uniform v exprs
  unfolding exprs_len
  two-Uniform nil h t = absurd (omega arith)
  two-Uniform (cons a nil) h t = absurd (omega arith)
  two-Uniform (cons a (cons b nil)) h t =
      both (v a) (v b) (sym (r.at_bicon (cons a (cons b nil))) ∙ t)
    where
      both :
          (x y : Bool)
          → bool_eq x y ≡ true
          → ((x && (y && true)) ≡ true) ⊎ ((not_bool x && (not_bool y && true)) ≡ true)
      both true true e = inl refl
      both true false e = absurd cc
      both false true e = absurd cc
      both false false e = inr refl
  two-Uniform (cons a (cons b (cons c es))) h t = absurd (omega arith)

  Uniform-two :
      (exprs : Exprs) → exprs_len exprs ≡ 2 → Uniform v exprs → v (assoc Op.bicon exprs) ≡ true
  unfolding exprs_len
  Uniform-two nil h u = absurd (omega arith)
  Uniform-two (cons a nil) h u = absurd (omega arith)
  Uniform-two (cons a (cons b nil)) h u = r.at_bicon (cons a (cons b nil)) ∙ both (v a) (v b) u
    where
      both :
          (x y : Bool)
          → ((x && (y && true)) ≡ true) ⊎ ((not_bool x && (not_bool y && true)) ≡ true)
          → bool_eq x y ≡ true
      both true true e = refl
      both true false (inl e) = absurd cc
      both true false (inr e) = absurd cc
      both false true (inl e) = absurd cc
      both false true (inr e) = absurd cc
      both false false e = refl
  Uniform-two (cons a (cons b (cons c es))) h u = absurd (omega arith)

  equiv-Uniform : (exprs : Exprs) → v (assoc Op.equiv exprs) ≡ true → Uniform v exprs
  equiv-Uniform exprs t =
      or-cases (all_of v exprs) (all_of (λ e. not_bool (v e)) exprs) (sym (r.at_equiv exprs) ∙ t)

  Uniform-equiv : (exprs : Exprs) → Uniform v exprs → v (assoc Op.equiv exprs) ≡ true
  Uniform-equiv exprs (inl t) = r.at_equiv exprs ∙ rw t
  Uniform-equiv exprs (inr f) = r.at_equiv exprs ∙ rw f (or_true (all_of v exprs))
    where
      or_true : (b : Bool) → (b || true) ≡ true
      or_true true = refl
      or_true false = refl

module _ {R : Type 0} (petgraph : Petgraph) (p : PooledProof Expr R) (v : Expr → Bool)
    (r : Respects v) (deps : List PjRef) (sdeps : List ℕ) (w : AllHold p v deps)
    (d : AllDerive p v sdeps) where
  usable :
      (oper : Op) (P : Expr → Type 0)
      → ((e : Expr) → P e → v e ≡ true → (exprs : Exprs) → e ≡ assoc oper exprs → Uniform v exprs)
      → (rs : List PjRef) → Satisfy p P rs
      → AllHold p v rs
      → Satisfy p (Usable v oper) rs
  usable oper P k [] u a = tt
  usable oper P k (x ∷ rs) u a =
      ((λ e h. (a.0 e h, k e (u.0 e h) (a.0 e h))), usable oper P k rs u.1 a.1)

  anything : (rs : List PjRef) → Satisfy p (λ _. Unit) rs
  anything [] = tt
  anything (x ∷ rs) = ((λ e h. tt), anything rs)

  pub equivalence_intro-Sound : Sound v (λ c. equivalence_intro petgraph p c deps sdeps)
  unfolding equivalence_intro
  equivalence_intro-Sound (assoc Op.equiv exprs) h = Uniform-equiv v r exprs (
      by_graph-Uniform p v petgraph Op.equiv exprs deps sdeps r
        (usable Op.equiv (λ _. Unit) (λ e _ t es q. equiv-Uniform v r es (ap v (sym q) ∙ t)) deps
          (anything deps) w)
        d h)
  equivalence_intro-Sound _ h = absurd cc

  pub biconditional_intro-Sound :
      Satisfy p TwoOperands deps → Sound v (λ c. biconditional_intro petgraph p c deps sdeps)
  unfolding biconditional_intro
  biconditional_intro-Sound two (assoc Op.bicon exprs) h =
      let (n, h') =
        passed-ok (exprs_len exprs == 2) _
          (conclusion_of_wrong_form (assoc Op.bicon (cons (var "_") (cons (var "_") nil)))) h in
      Uniform-two v r exprs (==_path (exprs_len exprs) 2 n) (
        by_graph-Uniform p v petgraph Op.bicon exprs deps sdeps r
          (usable Op.bicon TwoOperands
            (λ e t2 t es q. two-Uniform v r es (t2 es q) (ap v (sym q) ∙ t)) deps two w)
          d h')
  biconditional_intro-Sound two _ h = absurd cc
