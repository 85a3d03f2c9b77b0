-- ===== src/Pool/Placed/Add.antt =====
-- The additions to a proof of aris/src/proofs/pooledproof.rs whose lists and parents agree.
use aris.Base.{
  ℕ, suc, ◌<◌, true, false, Option, none, some, List, ◌≡◌, ◌≢◌, sym, ◌∙◌, ap, inl, inr, Bool-cases,
  some-inj, ◌==◌, nat_eq, ==_path, ==_ne, ==_refl, if◌then◌else◌,
}
use mathlib.Core.List.{map}
use aris.ZipperVec.{iter}
use aris.Pool.{
  JsRef, PjsRef, pjs_eq, js_to_pjs, Justification, PooledSubproof, PooledProof, new_subproof,
  lookup_subproof, lookup_step,
}
use aris.Pool.Maps.{Room}
use aris.Pool.Add.{Placement, self_of, add_premise, add_subproof, add_step}
use aris.Pool.Added.{add_premise_lem, add_subproof_lem, add_subproof-still_valid}
use aris.Pool.AddStep.{add_step_lem}
use aris.Pool.Parents.{WellFormed}
use aris.Pool.Placed.{Known, Placed, Grown-Placed, among-refs}
use aris.Pool.Relative.{js_eq}
use aris.Pool.Sees.{among}
use aris.Pool.Placed.Holder.{
  Last, same_holder, of_js-ne-prem, js_of_just, js_of_sub, of_js-just, of_js-sub, no_line, sub-kept,
  from_end, new-parent, self_at, step-kept,
}

module _ {E R : Type 0} where
  pub add_premise-Placed :
      (p : PooledProof E R) (self : Option ℕ) (e : E) (sub : PooledSubproof) (idx : ℕ)
      (p' : PooledProof E R)
      → Room p.pools.prem_map
      → self_of p self ≡ some sub
      → Placed p
      → add_premise p self e ≡ some (idx, p')
      → Placed p'
  add_premise-Placed p self e sub idx p' r h placed a =
      let (i, q, sub', b, _, _, at_self, _, lines, _, others, steps, frame) =
        add_premise_lem p self e sub r h in
      let same : q ≡ p' = ap (λ x. x.1) (some-inj (sym b ∙ a)) in
      rw (sym same) (
        Grown-Placed p q (λ t x. true ≡ false)
          (record {
            lines_from = λ t now x o g. elim (same_holder t self) [
              | inl u ↦
                  let now_sub' : now ≡ sub' = some-inj (sym o ∙ ap (self_of q) u ∙ at_self) in
                  inr (
                    sub,
                    ap (self_of p) u ∙ h,
                    among-refs x sub
                        ∙ ap (λ v. among (js_to_pjs x) (map js_to_pjs (iter v))) (sym lines)
                        ∙ sym (among-refs x sub')
                        ∙ rw now_sub' at g,
                  )
              | inr c ↦ inr (now, sym (frame t c) ∙ o, g)
            ];
            new_line = λ t x n. absurd cc;
            old_line = λ x known. (
              others (js_to_pjs x) (inr (of_js-ne-prem x i)),
              kept q at_self steps frame x known,
            );
            parent_known = λ x s u. kept q at_self steps frame x (
                placed.parent_known x s (sym (others (js_to_pjs x) (inr (of_js-ne-prem x i))) ∙ u));
          })
          placed)
    where
      kept :
          (q : PooledProof E R) {sub' : PooledSubproof}
          → self_of q self ≡ some sub'
          → q.pools.just_map ≡ p.pools.just_map
          → ((t : Option ℕ) → t ≢ self → self_of q t ≡ self_of p t)
          → (x : JsRef) → Known p x
          → Known q x
      kept q at_self steps frame (JsRef.just k) known = step-kept p q k steps known
      kept q {sub' = sub'} at_self steps frame (JsRef.sub k) known =
          sub-kept p q self sub sub' h at_self k (frame (some k)) known

  -- Adding a step, to a subproof that exists in a well-formed proof, keeps the lists and the parents in
  -- agreement: the parent of each line is the subproof in whose list it stands, and each line of a
  -- list, or with a parent, is in the pool.
  pub add_step-Placed :
      (n : ℕ) (p : PooledProof E R) (self : Option ℕ) (j : Justification E R) (sub : PooledSubproof)
      (idx : ℕ) (p' : PooledProof E R)
      → Room p.pools.just_map
      → WellFormed p.pools
      → self_of p self ≡ some sub
      → 0 < n
      → ((s : ℕ) → self ≡ some s → suc s < n)
      → Placed p
      → add_step n p self j ≡ some (idx, p')
      → Placed p'
  add_step-Placed n p self j sub idx p' r w h pos fuel placed a =
      let (
        i, q, sub', sdeps, _, b, fresh, found, _, _, at_self, lines, _, parent, others, _, frame,
      ) =
        add_step_lem n p self j sub r w h pos fuel in
      let same : q ≡ p' = ap (λ x. x.1) (some-inj (sym b ∙ a)) in
      let here : Known q (JsRef.just i) = (record j { sdeps = sdeps }, found i ∙ rw (==_refl i)) in
      let absent : (x : JsRef) → Known p x → js_to_pjs x ≢ PjsRef.just i =
        λ x known c. unknown i fresh (rw (of_js-just x i c) at known) in
      let kept : (x : JsRef) → Known p x → Known q x = kept_lines q i sdeps at_self found frame in
      rw (sym same) (
        Grown-Placed p q (Last (JsRef.just i) self)
          (record {
            lines_from = λ t now x o g.
                from_end p q self sub sub' h at_self (JsRef.just i) t now x lines (frame t) o g;
            new_line = λ t x (c, u). rw c (
              new-parent p q self (JsRef.just i) t u (rw (js_of_just i) parent)
                  (λ n. others (js_to_pjs (JsRef.just i)) (inl n))
                  (λ s v. unknown i fresh (placed.parent_known (JsRef.just i) s v)),
              here,
            );
            old_line = λ x known. (others (js_to_pjs x) (inr (absent x known)), kept x known);
            parent_known = λ x s u. elim (Bool-cases (x == JsRef.just i)) [
              | inl e ↦ rw (==_path x (JsRef.just i) e) here
              | inr f ↦ kept x (
                  placed.parent_known x s (
                    sym (
                      others (js_to_pjs x) (inr (λ c. ==_ne x (JsRef.just i) f (of_js-just x i c))))
                    ∙ u))
            ];
          })
          placed)
    where
      unknown : (i : ℕ) → lookup_step p i ≡ none → Known p (JsRef.just i) → {A : Type 0} → A
      unknown i fresh (j, u) = absurd cc

      kept_lines :
          (q : PooledProof E R) (i : ℕ) (sdeps : List ℕ) {sub' : PooledSubproof}
          → self_of q self ≡ some sub'
          → ((k : ℕ)
              → lookup_step q k
                ≡ (if k == i then some (record j { sdeps = sdeps }) else lookup_step p k))
          → ((t : Option ℕ) → t ≢ self → self_of q t ≡ self_of p t)
          → (x : JsRef) → Known p x
          → Known q x
      kept_lines q i sdeps at_self found frame (JsRef.just k) (o, u) = elim (Bool-cases (k == i)) [
        | inl e ↦ (record j { sdeps = sdeps }, found k ∙ rw e)
        | inr f ↦ (o, found k ∙ rw f u)
      ]
      kept_lines q i sdeps {sub' = sub'} at_self found frame (JsRef.sub k) known =
          sub-kept p q self sub sub' h at_self k (frame (some k)) known

  -- Adding a subproof, to a subproof that exists, keeps the lists and the parents in agreement.
  pub add_subproof-Placed :
      (stays : Placement) (p : PooledProof E R) (self : Option ℕ) (sub : PooledSubproof) (idx : ℕ)
      (p' : PooledProof E R)
      → Room p.pools.sub_map
      → self_of p self ≡ some sub
      → Placed p
      → add_subproof stays p self ≡ some (idx, p')
      → Placed p'
  add_subproof-Placed stays p self sub idx p' r h placed a =
      let (i, q, sub', b, fresh, here, at_self, lines, _, parent, _, others, steps, _, frame) =
        add_subproof_lem stays p self sub r h (add_subproof-still_valid stays p self a) in
      let same : q ≡ p' = ap (λ x. x.1) (some-inj (sym b ∙ a)) in
      let known_here : Known q (JsRef.sub i) = (new_subproof, here) in
      let absent : (x : JsRef) → Known p x → js_to_pjs x ≢ PjsRef.sub i =
        λ x known c. unknown i fresh (rw (of_js-sub x i c) at known) in
      let kept : (x : JsRef) → Known p x → Known q x = kept_lines q i fresh at_self steps frame in
      rw (sym same) (
        Grown-Placed p q (Last (JsRef.sub i) self)
          (record {
            lines_from = λ t now x o g. elim (same_holder t (some i)) [
              | inl e ↦ no_line x (rw (some-inj (sym o ∙ ap (self_of q) e ∙ self_at q i here)) at g)
              | inr c ↦
                  from_end p q self sub sub' h at_self (JsRef.sub i) t now x lines
                    (λ d. frame t d c) o g
            ];
            new_line = λ t x (c, u). rw c (
              new-parent p q self (JsRef.sub i) t u (rw (js_of_sub i) parent)
                  (λ n. others (js_to_pjs (JsRef.sub i)) (inl n))
                  (λ s v. unknown i fresh (placed.parent_known (JsRef.sub i) s v)),
              known_here,
            );
            old_line = λ x known. (others (js_to_pjs x) (inr (absent x known)), kept x known);
            parent_known = λ x s u. elim (Bool-cases (x == JsRef.sub i)) [
              | inl e ↦ rw (==_path x (JsRef.sub i) e) known_here
              | inr f ↦ kept x (
                  placed.parent_known x s (
                    sym
                      (others (js_to_pjs x) (inr (λ c. ==_ne x (JsRef.sub i) f (of_js-sub x i c))))
                    ∙ u))
            ];
          })
          placed)
    where
      unknown : (i : ℕ) → lookup_subproof p i ≡ none → Known p (JsRef.sub i) → {A : Type 0} → A
      unknown i fresh (old, u) = absurd cc

      kept_lines :
          (q : PooledProof E R) (i : ℕ) {sub' : PooledSubproof}
          → lookup_subproof p i ≡ none
          → self_of q self ≡ some sub'
          → q.pools.just_map ≡ p.pools.just_map
          → ((t : Option ℕ) → t ≢ self → t ≢ some i → self_of q t ≡ self_of p t)
          → (x : JsRef) → Known p x
          → Known q x
      kept_lines q i fresh at_self steps frame (JsRef.just k) known = step-kept p q k steps known
      kept_lines q i {sub' = sub'} fresh at_self steps frame (JsRef.sub k) known =
          sub-kept p q self sub sub' h at_self k
            (λ c. frame (some k) c (λ e. unknown i fresh (rw (some-inj e) at known))) known
