-- ===== src/Pool/Placed.antt =====
-- When the lists and the parents in aris/src/proofs/pooledproof.rs agree: the parent of a line is
-- the subproof in whose list it stands, and the line is in the pool.
pub mod Holder
pub mod Add
use mathlib.Core.List.{map}
use aris.Base.{
  ℕ, Bool, true, false, ◌||◌, Option, none, some, List, [], ◌∷◌, ◌++◌, ◌≡◌, ◌⊎◌, refl, sym, ◌∙◌, ap,
  inl, inr, ◌==◌, ==_path, any-append, or_assoc, or_false,
}
use aris.ZipperVec.{iter}
use aris.Pool.{
  JsRef, PjsRef, pjs_eq, pjs_beq, js_to_pjs, Justification, PooledSubproof, PooledProof, parent_of,
  lookup_subproof, lookup_step,
}
use aris.Pool.Add.{self_of}
use aris.Pool.Scope.{refs}
use aris.Pool.Sees.{among}

module _ {E R : Type 0} where
  abbrev pub Known : PooledProof E R → JsRef → Type 0
  Known p (JsRef.just k) = (j : Justification E R) × (lookup_step p k ≡ some j)
  Known p (JsRef.sub k) = (sub : PooledSubproof) × (lookup_subproof p k ≡ some sub)

  -- A holder is the root, `none`, or a subproof of the pool.
  pub record Placed (p : PooledProof E R) : Type 0 where
    pub agrees :
        (t : Option ℕ) (sub : PooledSubproof) (x : JsRef)
        → self_of p t ≡ some sub
        → among (js_to_pjs x) (refs sub) ≡ true
        → (parent_of p.pools (js_to_pjs x) ≡ t) × Known p x
    pub parent_known : (x : JsRef) (s : ℕ) → parent_of p.pools (js_to_pjs x) ≡ some s → Known p x

  -- `q` has the lines of `p`, and the new ones `New`, each with the holder that it stands in.
  pub record Grown (p q : PooledProof E R) (New : Option ℕ → JsRef → Type 0) : Type 0 where
    pub lines_from :
        (t : Option ℕ) (sub : PooledSubproof) (x : JsRef)
        → self_of q t ≡ some sub
        → among (js_to_pjs x) (refs sub) ≡ true
        → New t x
          ⊎ ((old : PooledSubproof) × (self_of p t ≡ some old)
              × (among (js_to_pjs x) (refs old) ≡ true))
    pub new_line :
        (t : Option ℕ) (x : JsRef) → New t x → (parent_of q.pools (js_to_pjs x) ≡ t) × Known q x
    pub old_line :
        (x : JsRef)
        → Known p x
        → (parent_of q.pools (js_to_pjs x) ≡ parent_of p.pools (js_to_pjs x)) × Known q x
    pub parent_known : (x : JsRef) (s : ℕ) → parent_of q.pools (js_to_pjs x) ≡ some s → Known q x

  pub Grown-Placed :
      (p q : PooledProof E R) (New : Option ℕ → JsRef → Type 0)
      → Grown p q New
      → Placed p
      → Placed q
  Grown-Placed p q New g placed = record {
    agrees = λ t sub x l a. elim (g.lines_from t sub x l a) [
      | inl n ↦ g.new_line t x n
      | inr (old, o, b) ↦
          let (u, known) = placed.agrees t old x o b in
          let (same, known') = g.old_line x known in (same ∙ u, known')
    ];
    parent_known = g.parent_known;
  }

-- Premises are not among the lines.
past_premises :
    (x : JsRef) (keys : List ℕ) (lines : List PjsRef)
    → among (js_to_pjs x) (map PjsRef.prem keys ++ lines) ≡ among (js_to_pjs x) lines
unfolding js_to_pjs pjs_beq
past_premises x [] lines = refl
past_premises (JsRef.just k) (n ∷ keys) lines = past_premises (JsRef.just k) keys lines
past_premises (JsRef.sub k) (n ∷ keys) lines = past_premises (JsRef.sub k) keys lines

pub among-refs :
    (x : JsRef) (sub : PooledSubproof)
    → among (js_to_pjs x) (refs sub) ≡ among (js_to_pjs x) (map js_to_pjs (iter sub.line_list))
unfolding refs
among-refs x sub = past_premises x (iter sub.premise_list) (map js_to_pjs (iter sub.line_list))

among-map_last :
    (x : PjsRef) (lines : List JsRef) (l : JsRef)
    → among x (map js_to_pjs (lines ++ (l ∷ [])))
      ≡ (among x (map js_to_pjs lines) || js_to_pjs l == x)
among-map_last x [] l = or_false (js_to_pjs l == x)
among-map_last x (y ∷ lines) l =
    ap (js_to_pjs y == x ||◌) (among-map_last x lines l)
    ∙ sym (or_assoc (js_to_pjs y == x) (among x (map js_to_pjs lines)) (js_to_pjs l == x))

js_to_pjs-inj : (a b : JsRef) → js_to_pjs a ≡ js_to_pjs b → a ≡ b
unfolding js_to_pjs
js_to_pjs-inj (JsRef.just a) (JsRef.just b) h = cc
js_to_pjs-inj (JsRef.sub a) (JsRef.sub b) h = cc
js_to_pjs-inj (JsRef.just a) (JsRef.sub b) h = absurd cc
js_to_pjs-inj (JsRef.sub a) (JsRef.just b) h = absurd cc

-- A line added at the end of the list.
pub refs-extended :
    (x l : JsRef) (sub sub' : PooledSubproof)
    → iter sub'.line_list ≡ iter sub.line_list ++ l ∷ []
    → among (js_to_pjs x) (refs sub') ≡ true
    → (x ≡ l) ⊎ (among (js_to_pjs x) (refs sub) ≡ true)
refs-extended x l sub sub' q h =
    last (among (js_to_pjs x) (refs sub)) (js_to_pjs l == js_to_pjs x)
      (λ e. js_to_pjs-inj x l (sym (==_path (js_to_pjs l) (js_to_pjs x) e)))
      (ap (λ b. b || js_to_pjs l == js_to_pjs x) (among-refs x sub)
        ∙ sym (among-map_last (js_to_pjs x) (iter sub.line_list) l)
        ∙ ap (λ lines. among (js_to_pjs x) (map js_to_pjs lines)) (sym q)
        ∙ sym (among-refs x sub')
        ∙ h)
  where
    last : (a b : Bool) → (b ≡ true → x ≡ l) → (a || b) ≡ true → (x ≡ l) ⊎ (a ≡ true)
    last true b k h = inr refl
    last false true k h = inl (k refl)
    last false false k h = absurd cc
