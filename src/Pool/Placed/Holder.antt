-- ===== src/Pool/Placed/Holder.antt =====
-- Lines of a list, after an addition to a proof of aris/src/proofs/pooledproof.rs at the end of it.
use aris.Base.{
  ℕ, true, Option, none, some, [], ◌∷◌, ◌++◌, ◌≡◌, ◌≢◌, ◌⊎◌, refl, sym, ◌∙◌, ap, inl, inr,
  Option-cases, Bool-cases, some-inj, ◌==◌, nat_eq, ==_path, ==_ne,
}
use aris.ZipperVec.{iter}
use aris.Pool.{
  JsRef, PjsRef, pjs_eq, js_to_pjs, PooledSubproof, PooledProof, lookup, parent_of, new_subproof,
  lookup_subproof, lookup_step,
}
use aris.Pool.Add.{self_of}
use aris.Pool.Placed.{Known, refs-extended}
use aris.Pool.Relative.{js_eq}
use aris.Pool.Scope.{refs}
use aris.Pool.Sees.{among}

pub same_holder : (t self : Option ℕ) → (t ≡ self) ⊎ (t ≢ self)
same_holder none none = inl refl
same_holder none (some s) = inr (λ h. cc)
same_holder (some t) none = inr (λ h. cc)
same_holder (some t) (some s) = elim (Bool-cases (t == s)) [
  | inl e ↦ inl (ap some (==_path t s e))
  | inr f ↦ inr (λ h. ==_ne t s f (some-inj h))
]

pub of_js-ne-prem : (x : JsRef) (k : ℕ) → js_to_pjs x ≢ PjsRef.prem k
unfolding js_to_pjs
of_js-ne-prem (JsRef.just n) k h = cc
of_js-ne-prem (JsRef.sub n) k h = cc

pub js_of_just : (k : ℕ) → js_to_pjs (JsRef.just k) ≡ PjsRef.just k
unfolding js_to_pjs
js_of_just k = refl

pub js_of_sub : (k : ℕ) → js_to_pjs (JsRef.sub k) ≡ PjsRef.sub k
unfolding js_to_pjs
js_of_sub k = refl

pub of_js-just : (x : JsRef) (k : ℕ) → js_to_pjs x ≡ PjsRef.just k → x ≡ JsRef.just k
unfolding js_to_pjs
of_js-just (JsRef.just n) k h = cc
of_js-just (JsRef.sub n) k h = absurd cc

pub of_js-sub : (x : JsRef) (k : ℕ) → js_to_pjs x ≡ PjsRef.sub k → x ≡ JsRef.sub k
unfolding js_to_pjs
of_js-sub (JsRef.just n) k h = absurd cc
of_js-sub (JsRef.sub n) k h = cc

-- The line stands last in the list of `self`.
abbrev pub Last : JsRef → Option ℕ → Option ℕ → JsRef → Type 0
Last l self t x = (x ≡ l) × (t ≡ self)

module _ {E R : Type 0} (p q : PooledProof E R) (self : Option ℕ) (sub sub' : PooledSubproof)
    (h : self_of p self ≡ some sub) (at_self : self_of q self ≡ some sub') where
  -- A subproof that is there stays, perhaps with other lists.
  pub sub-kept :
      (k : ℕ)
      → (some k ≢ self → self_of q (some k) ≡ self_of p (some k))
      → (old : PooledSubproof) × (lookup_subproof p k ≡ some old)
      → (now : PooledSubproof) × (lookup_subproof q k ≡ some now)
  unfolding self_of
  sub-kept k frame (old, l) = elim (same_holder (some k) self) [
    | inl e ↦ (sub', ap (self_of q) e ∙ at_self)
    | inr c ↦ (old, frame c ∙ l)
  ]

  -- The lists are as they were but for a line at the end of that of `self`.
  pub from_end :
      (l : JsRef) (t : Option ℕ) (now : PooledSubproof) (x : JsRef)
      → iter sub'.line_list ≡ iter sub.line_list ++ l ∷ []
      → (t ≢ self → self_of q t ≡ self_of p t)
      → self_of q t ≡ some now
      → among (js_to_pjs x) (refs now) ≡ true
      → Last l self t x
        ⊎ ((old : PooledSubproof) × (self_of p t ≡ some old)
            × (among (js_to_pjs x) (refs old) ≡ true))
  from_end l t now x lines frame o g = elim (same_holder t self) [
    | inl e ↦
        let same : now ≡ sub' = some-inj (sym o ∙ ap (self_of q) e ∙ at_self) in
        elim (refs-extended x l sub sub' lines (rw same at g)) [
          | inl c ↦ inl (c, e)
          | inr g' ↦ inr (sub, ap (self_of p) e ∙ h, g')
        ]
    | inr c ↦ inr (now, sym (frame c) ∙ o, g)
  ]

module _ {E R : Type 0} (p q : PooledProof E R) (self : Option ℕ) where
  -- A new line has the parent that it is given.
  pub new-parent :
      (x : JsRef) (t : Option ℕ)
      → t ≡ self
      → ((s : ℕ) → self ≡ some s → parent_of q.pools (js_to_pjs x) ≡ some s)
      → (self ≡ none → parent_of q.pools (js_to_pjs x) ≡ parent_of p.pools (js_to_pjs x))
      → ((s : ℕ) → parent_of p.pools (js_to_pjs x) ≢ some s)
      → parent_of q.pools (js_to_pjs x) ≡ t
  new-parent x none e parent other free = elim (Option-cases (parent_of p.pools (js_to_pjs x))) [
    | inl n ↦ other (sym e) ∙ n
    | inr (s, u) ↦ absurd (free s u)
  ]
  new-parent x (some s) e parent other free = parent s (sym e)

pub no_line : {A : Type 0} (x : JsRef) → among (js_to_pjs x) (refs new_subproof) ≡ true → A
unfolding refs iter new_subproof
no_line x h = absurd cc

module _ {E R : Type 0} where
  pub self_at :
      (q : PooledProof E R) (i : ℕ) {sub : PooledSubproof}
      → lookup_subproof q i ≡ some sub
      → self_of q (some i) ≡ some sub
  unfolding self_of
  self_at q i h = h

  pub step-kept :
      (p q : PooledProof E R) (k : ℕ)
      → q.pools.just_map ≡ p.pools.just_map
      → Known p (JsRef.just k)
      → Known q (JsRef.just k)
  unfolding lookup_step
  step-kept p q k steps (j, u) = (j, ap (lookup k) steps ∙ u)
  -- Adding a premise, to a subproof that exists, keeps the lists and the parents in agreement.
