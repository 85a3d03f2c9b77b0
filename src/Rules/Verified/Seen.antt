-- ===== src/Rules/Verified/Seen.antt =====
-- What is right about the lines that a line of aris/src/proofs.rs may refer to.
use mathlib.Core.List.{map}
use aris.Base.{
  ℕ, Bool, true, false, Option, none, some, List, [], ◌∷◌, ◌++◌, ◌≡◌, ◌||◌, arith, refl, Bool-cases,
  inl, inr, ◌==◌, nat_eq, ==_path, ==_refl,
}
use aris.Expr.{Expr}
use aris.Pool.{
  PjRef, JsRef, PjsRef, pjs_eq, pjs_beq, pj_to_pjs, js_to_pjs, PooledSubproof, PooledProof,
  parent_of,
}
use aris.Pool.Scope.{refs, named}
use aris.Pool.Lines.{lookup_expr, direct_lines}
use aris.Pool.Sees.{Sees, at_root, beside, outside, before, among}
use aris.Pool.Reference.{MayReference}
use aris.Pool.Verify.{MayReferenceAll}
use aris.Rules.Premises.{AllHold, AllDerive, Derives}

-- A subproof with its key, or the root.
abbrev pub Holder : Type 0
Holder = Option (ℕ × PooledSubproof)

abbrev pub lines_of : {R : Type 0} → PooledProof Expr R → Holder → List PjsRef
lines_of p none = refs p.proof
lines_of p (some (s, sub)) = refs sub

module _ {R : Type 0} (p : PooledProof Expr R) (v : Expr → Bool) where
  abbrev pub Holds : PjRef → Type 0
  Holds r = (e : Expr) → lookup_expr p r ≡ some e → v e ≡ true

  -- A premise or a step is true, and a subproof derives its steps.
  abbrev pub Good : PjsRef → Type 0
  Good (PjsRef.prem k) = Holds (PjRef.prem k)
  Good (PjsRef.just k) = Holds (PjRef.just k)
  Good (PjsRef.sub s) = Derives p v s

  Good-pj_to_pjs : (r : PjRef) → Good (pj_to_pjs r) → Holds r
  unfolding pj_to_pjs
  Good-pj_to_pjs (PjRef.prem k) g = g
  Good-pj_to_pjs (PjRef.just k) g = g

  pub all_Good :
      (r : PjRef) (deps : List PjRef) (sdeps : List ℕ)
      → ((d : PjsRef) → MayReference p r d → Good d)
      → MayReferenceAll p r (map pj_to_pjs deps ++ map PjsRef.sub sdeps)
      → AllHold p v deps × AllDerive p v sdeps
  all_Good r [] [] w m = (tt, tt)
  all_Good r [] (s ∷ sdeps) w m = (tt, (w (PjsRef.sub s) m.0, (all_Good r [] sdeps w m.1).1))
  all_Good r (d ∷ deps) sdeps w m =
      let (a, b) = all_Good r deps sdeps w m.1 in ((Good-pj_to_pjs d (w (pj_to_pjs d) m.0), a), b)

  -- A list of lines, which has no premise.
  prem-among : (k : ℕ) (lines : List JsRef) → among (PjsRef.prem k) (map js_to_pjs lines) ≡ false
  unfolding js_to_pjs pjs_beq
  prem-among k [] = refl
  prem-among k (JsRef.just n ∷ lines) = prem-among k lines
  prem-among k (JsRef.sub n ∷ lines) = prem-among k lines

  pub premises-Good :
      (k : ℕ) (keys : List ℕ) (lines : List JsRef)
      → AllHold p v (map PjRef.prem keys)
      → among (PjsRef.prem k) (map PjsRef.prem keys ++ map js_to_pjs lines) ≡ true
      → Good (PjsRef.prem k)
  unfolding pjs_beq
  premises-Good k [] lines w h = absurd (let f = prem-among k lines in cc)
  premises-Good k (n ∷ keys) lines w h = elim (Bool-cases (n == k)) [
    | inl t ↦ rw (← ==_path n k t) w.0
    | inr f ↦ premises-Good k keys lines w.1 (rw f at h)
  ]

  pub steps_hold :
      (lines : List JsRef)
      → ((k : ℕ) → among (PjsRef.just k) (map js_to_pjs lines) ≡ true → Good (PjsRef.just k))
      → AllHold p v (map PjRef.just (direct_lines lines))
  unfolding direct_lines js_to_pjs pjs_beq
  steps_hold [] w = tt
  steps_hold (JsRef.just n ∷ lines) w =
      (w n (ground (arith, ==_refl n)), steps_hold lines (λ k h. w k (later (n == k) h)))
    where
      later : {b : Bool} (a : Bool) → b ≡ true → (a || b) ≡ true
      later true h = refl
      later false h = h
  steps_hold (JsRef.sub n ∷ lines) w = steps_hold lines w

  pub past_premises :
      (k : ℕ) (keys : List ℕ) (lines : List JsRef)
      → among (PjsRef.just k) (map js_to_pjs lines) ≡ true
      → among (PjsRef.just k) (map PjsRef.prem keys ++ map js_to_pjs lines) ≡ true
  unfolding pjs_beq
  past_premises k [] lines h = h
  past_premises k (n ∷ keys) lines h = past_premises k keys lines h

  -- What the subproof may refer to is right.
  abbrev pub Outer : Holder → Type 0
  Outer none = Unit
  Outer (some (s, sub)) =
      (d : PjsRef) → Sees p (named p (parent_of p.pools (PjsRef.sub s))) (PjsRef.sub s) d → Good d

  pub seen-Good :
      (h : Holder) (x d : PjsRef)
      → Outer h
      → ((y : PjsRef) → among y (before x (lines_of p h)) ≡ true → Good y)
      → Sees p h x d
      → Good d
  seen-Good none x d o b (at_root a) = b d a
  seen-Good (some (s, sub)) x d o b (beside a) = b d a
  seen-Good (some (s, sub)) x d o b (outside w) = o d w
