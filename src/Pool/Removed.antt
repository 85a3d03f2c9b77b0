-- ===== src/Pool/Removed.antt =====
-- What `remove_line` of aris/src/proofs/pooledproof.rs leaves.
use aris.Base.{
  ==_refl, ◌≢◌, ℕ, Bool, true, false, Option, none, some, map_option, List, [], ◌∷◌, ◌≡◌, refl, ap,
  ◌∙◌, sym, Bool-cases, inl, inr, if◌then◌else◌, ◌==◌, PartialEq, nat_eq, ==_path, ==_false, ==_ne,
}
use aris.ZipperVec.{iter}
use aris.Pool.Dropped.{Dropped, filter-Dropped, filter_vec-Dropped, Dropped-none}
use aris.Pool.{
  JsRef, PooledSubproof, lookup_subproof, PjRef, PjsRef, pjs_eq, pjs_beq, pj_to_pjs, js_to_pjs,
  Justification, PooledProof, lookup, lookup_step, lookup_premise, parent_of,
}
use aris.Pool.Remove.{
  without_premise, without_line, delete, map_values, forget, remove_line_helper, remove_premise,
  remove_step, pools_remove_line, remove_line,
}

module _ {K V : Type 0} ⦃e : PartialEq K⦄ where
  lookup-delete_if :
      (j k : K) (m : List (K × V)) → lookup j (delete k m) ≡ (if j == k then none else lookup j m)
  unfolding lookup delete
  lookup-delete_if j k [] = elim (Bool-cases (j == k)) [ inl t ↦ rw t | inr f ↦ rw f ]
  lookup-delete_if j k (p ∷ m) = elim (Bool-cases (p.0 == k)) [
    | inl t ↦ rw t (lookup-delete_if j k m ∙ same p.0 t)
    | inr f ↦ rw f (other p.0 p.1 f (lookup-delete_if j k m))
  ]
    where
      same :
          (a : K)
          → (a == k) ≡ true
          → (if j == k then none else lookup j m)
            ≡ (if j == k then none else (if a == j then some p.1 else lookup j m))
      same a t = elim (Bool-cases (j == k)) [
        | inl t' ↦ rw t'
        | inr f ↦ rw (f, ==_false a j (λ q. ==_ne j k f (sym q ∙ ==_path a k t)))
      ]

      other :
          (a : K) (v : V)
          → (a == k) ≡ false
          → lookup j (delete k m) ≡ (if j == k then none else lookup j m)
          → (if a == j then some v else lookup j (delete k m))
            ≡ (if j == k then none else (if a == j then some v else lookup j m))
      other a v f h = elim (Bool-cases (j == k)) [
        | inl t ↦ rw (t, ==_false a j (λ q. ==_ne a k f (q ∙ ==_path j k t))) (h ∙ rw t)
        | inr f' ↦ rw f' (ap (λ r. if a == j then some v else r) (h ∙ rw f'))
      ]

module _ {K V W : Type 0} ⦃e : PartialEq K⦄ where
  lookup-map_values :
      (f : V → W) (k : K) (m : List (K × V)) → lookup k (map_values f m) ≡ map_option f (lookup k m)
  unfolding lookup map_values
  lookup-map_values f k [] = refl
  lookup-map_values f k (p ∷ m) = elim (Bool-cases (p.0 == k)) [
    | inl t ↦ rw t
    | inr h ↦ rw h (lookup-map_values f k m)
  ]

map_option-if :
    {A B : Type 0} (f : A → B) (b : Bool) (o : Option A)
    → map_option f (if b then none else o) ≡ (if b then none else map_option f o)
map_option-if f true o = refl
map_option-if f false o = refl

-- Both are there and related, or neither is there.
abbrev pub Matched : {A B : Type 0} → (A → B → Type 0) → Option A → Option B → Type 0
Matched S none none = Unit
Matched S none (some b) = ⊥
Matched S (some a) none = ⊥
Matched S (some a) (some b) = S a b

map-Matched :
    {A B : Type 0} (S : A → B → Type 0) (f : A → B)
    → ((a : A) → S a (f a))
    → (o : Option A) → Matched S o (map_option f o)
map-Matched S f h none = tt
map-Matched S f h (some a) = h a

-- A step that only loses its dependencies on the line.
pub record StepKept {E R : Type 0} (r : PjRef) (j j' : Justification E R) : Type 0 where
  pub expr_kept : j'.expr ≡ j.expr
  pub rule_kept : j'.rule ≡ j.rule
  pub sdeps_kept : j'.sdeps ≡ j.sdeps
  pub deps_dropped : Dropped (λ d. pj_to_pjs d == pj_to_pjs r) j.deps j'.deps

-- A subproof whose lists only lose the line.
pub record ListsKept (r : PjRef) (v v' : PooledSubproof) : Type 0 where
  pub premises_dropped :
      Dropped (λ x. PjsRef.prem x == pj_to_pjs r) (iter v.premise_list) (iter v'.premise_list)
  pub lines_dropped :
      Dropped (λ x. js_to_pjs x == pj_to_pjs r) (iter v.line_list) (iter v'.line_list)

forget-StepKept :
    {E R : Type 0} (r : PjRef) (j : Justification E R) → StepKept r j (forget (pj_to_pjs r) j)
unfolding forget pj_to_pjs
forget-StepKept (PjRef.prem k) j = record {
  expr_kept = refl;
  rule_kept = refl;
  sdeps_kept = refl;
  deps_dropped = filter-Dropped (λ d. pj_to_pjs d == PjsRef.prem k) j.deps;
}
forget-StepKept (PjRef.just k) j = record {
  expr_kept = refl;
  rule_kept = refl;
  sdeps_kept = refl;
  deps_dropped = filter-Dropped (λ d. pj_to_pjs d == PjsRef.just k) j.deps;
}

no_premise_line : (k : ℕ) (x : JsRef) → (js_to_pjs x == PjsRef.prem k) ≡ false
unfolding js_to_pjs pjs_beq
no_premise_line k (JsRef.just i) = refl
no_premise_line k (JsRef.sub i) = refl

without_premise-ListsKept :
    (k : ℕ) (v : PooledSubproof) → ListsKept (PjRef.prem k) v (without_premise k v)
unfolding without_premise pj_to_pjs pjs_beq
without_premise-ListsKept k v = record {
  premises_dropped = filter_vec-Dropped (λ x. x == k) v.premise_list;
  lines_dropped =
      Dropped-none (λ x. js_to_pjs x == PjsRef.prem k) (iter v.line_list) (no_premise_line k);
}

without_line-ListsKept :
    (k : ℕ) (v : PooledSubproof) → ListsKept (PjRef.just k) v (without_line (PjsRef.just k) v)
unfolding without_line pj_to_pjs pjs_beq
without_line-ListsKept k v = record {
  premises_dropped =
      Dropped-none (λ x. PjsRef.prem x == PjsRef.just k) (iter v.premise_list) (λ x. refl);
  lines_dropped = filter_vec-Dropped (λ x. js_to_pjs x == PjsRef.just k) v.line_list;
}

module _ {E R : Type 0} (p : PooledProof E R) where
  lookup_step-remove_line :
      (r : PjRef) (k : ℕ)
      → lookup_step (remove_line p r) k ≡ (
          if PjsRef.just k == pj_to_pjs r
          then none
          else map_option (forget (pj_to_pjs r)) (lookup_step p k))
  unfolding remove_line pools_remove_line remove_premise remove_step remove_line_helper lookup_step
      pj_to_pjs pjs_beq
  lookup_step-remove_line (PjRef.prem i) k =
      lookup-map_values (forget (PjsRef.prem i)) k p.pools.just_map
  lookup_step-remove_line (PjRef.just i) k =
      lookup-map_values (forget (PjsRef.just i)) k (delete i p.pools.just_map)
      ∙ ap (map_option (forget (PjsRef.just i))) (lookup-delete_if k i p.pools.just_map)
      ∙ map_option-if (forget (PjsRef.just i)) (k == i) (lookup k p.pools.just_map)

  lookup_premise-remove_line :
      (r : PjRef) (k : ℕ)
      → lookup_premise (remove_line p r) k
        ≡ (if PjsRef.prem k == pj_to_pjs r then none else lookup_premise p k)
  unfolding remove_line pools_remove_line remove_premise remove_step remove_line_helper
      lookup_premise pj_to_pjs pjs_beq
  lookup_premise-remove_line (PjRef.prem i) k = lookup-delete_if k i p.pools.prem_map
  lookup_premise-remove_line (PjRef.just i) k = refl

  parent_of-remove_line :
      (r : PjRef) (i : PjsRef)
      → parent_of (remove_line p r).pools i
        ≡ (if i == pj_to_pjs r then none else parent_of p.pools i)
  unfolding remove_line pools_remove_line remove_premise remove_step remove_line_helper parent_of
      pj_to_pjs
  parent_of-remove_line (PjRef.prem k) i =
      lookup-delete_if i (PjsRef.prem k) p.pools.containing_subproof
  parent_of-remove_line (PjRef.just k) i =
      lookup-delete_if i (PjsRef.just k) p.pools.containing_subproof

  subproofs-remove_line :
      (r : PjRef) (s : ℕ)
      → Matched (ListsKept r) (lookup_subproof p s) (lookup_subproof (remove_line p r) s)
  unfolding remove_line pools_remove_line remove_premise remove_step remove_line_helper
      lookup_subproof
  subproofs-remove_line (PjRef.prem k) s =
      rw (lookup-map_values (without_premise k) s p.pools.sub_map) (
        map-Matched (ListsKept (PjRef.prem k)) (without_premise k) (without_premise-ListsKept k)
          (lookup s p.pools.sub_map))
  subproofs-remove_line (PjRef.just k) s =
      rw (lookup-map_values (without_line (PjsRef.just k)) s p.pools.sub_map) (
        map-Matched (ListsKept (PjRef.just k)) (without_line (PjsRef.just k))
          (without_line-ListsKept k) (lookup s p.pools.sub_map))

  root-remove_line : (r : PjRef) → ListsKept r p.proof (remove_line p r).proof
  unfolding remove_line
  root-remove_line r = record {
    premises_dropped = filter_vec-Dropped (λ x. PjsRef.prem x == pj_to_pjs r) p.proof.premise_list;
    lines_dropped = filter_vec-Dropped (λ x. js_to_pjs x == pj_to_pjs r) p.proof.line_list;
  }

  steps-remove_line :
      (r : PjRef) (k : ℕ)
      → PjsRef.just k ≢ pj_to_pjs r
      → Matched (StepKept r) (lookup_step p k) (lookup_step (remove_line p r) k)
  steps-remove_line r k h =
      rw (lookup_step-remove_line r k, ==_false (PjsRef.just k) (pj_to_pjs r) h)
        (map-Matched (StepKept r) (forget (pj_to_pjs r)) (forget-StepKept r) (lookup_step p k))

  step_gone :
      (r : PjRef) (k : ℕ) → PjsRef.just k ≡ pj_to_pjs r → lookup_step (remove_line p r) k ≡ none
  step_gone r k h = lookup_step-remove_line r k ∙ rw h (rw (==_refl (pj_to_pjs r)) refl)

  abbrev pub LineRemoved : PjRef → Type 0
  LineRemoved r =
      ((k : ℕ) → PjsRef.just k ≡ pj_to_pjs r → lookup_step (remove_line p r) k ≡ none)
      × ((k : ℕ)
          → PjsRef.just k ≢ pj_to_pjs r
          → Matched (StepKept r) (lookup_step p k) (lookup_step (remove_line p r) k))
      × ((k : ℕ)
          → lookup_premise (remove_line p r) k
            ≡ (if PjsRef.prem k == pj_to_pjs r then none else lookup_premise p k))
      × ((i : PjsRef)
          → parent_of (remove_line p r).pools i
            ≡ (if i == pj_to_pjs r then none else parent_of p.pools i))
      × ((s : ℕ)
          → Matched (ListsKept r) (lookup_subproof p s) (lookup_subproof (remove_line p r) s))
      × ListsKept r p.proof (remove_line p r).proof

  -- Removing a line takes it from its pool and from the parents, and nothing else from them. Each other
  -- step stays, with its expression, rule and references to subproofs, and with its dependencies but
  -- those on the line, in their order. The same subproofs are in the pool, and their lists of premises
  -- and of lines, and those of the root, are as before but for the line.
  pub remove_line_lem : (r : PjRef) → LineRemoved r
  remove_line_lem r = (
    step_gone r,
    steps-remove_line r,
    lookup_premise-remove_line r,
    parent_of-remove_line r,
    subproofs-remove_line r,
    root-remove_line r,
  )
