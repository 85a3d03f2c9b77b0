-- ===== src/Rules/Verified/Lines.antt =====
-- The lines of a proof of aris/src/proofs.rs, one after the other, each by the lines that it may
-- refer to.
use aris.Base.{ℕ, ◌+◌, zero, suc, ◌<◌, ◌≤◌, Bool, true, none, some, ◌≡◌, refl, arith}
use aris.Expr.{Expr}
use aris.ZipperVec.{iter}
use aris.Pool.{
  PjRef, JsRef, PjsRef, pj_to_pjs, js_to_pjs, PooledSubproof, PooledProof, parent_of,
  lookup_subproof,
}
use aris.Pool.Add.{self_of}
use aris.Pool.Parents.{Descending}
use aris.Pool.Scope.{refs, named}
use aris.Pool.Placed.{Placed}
use aris.Pool.Sees.{Sees, among, before}
use aris.Pool.Reference.{MayReference}
use aris.Rules.Propositional.Subproofs.{premise_keys}
use aris.Rules.Verified.{OnePremise}
use aris.Rules.Verified.Along.{along}
use aris.Rules.Verified.Seen.{
  Good, Holder, lines_of, Outer, seen-Good, premises-Good, steps_hold, past_premises,
}

abbrev pub depth : Holder → ℕ
depth none = 0
depth (some (s, sub)) = suc s

module _ {R : Type 0} (p : PooledProof Expr R) where
  abbrev pub IsHeld : Holder → Type 0
  IsHeld none = Unit
  IsHeld (some (s, sub)) = lookup_subproof p s ≡ some sub

  -- The parent of each line of the holder is the holder.
  parent-named :
      (h : Holder) (x : JsRef)
      → Placed p
      → IsHeld h
      → among (js_to_pjs x) (lines_of p h) ≡ true
      → named p (parent_of p.pools (js_to_pjs x)) ≡ h
  unfolding named self_of
  parent-named none x placed w a = rw ((placed.agrees none p.proof x refl a).0)
  parent-named (some (s, sub)) x placed w a = rw ((placed.agrees (some s) sub x w a).0, w)

  deeper :
      (h : Holder) (u : ℕ)
      → Placed p
      → Descending p.pools
      → IsHeld h
      → among (PjsRef.sub u) (lines_of p h) ≡ true
      → depth h < suc u
  unfolding js_to_pjs self_of
  deeper none u placed d w a = omega arith
  deeper (some (s, sub)) u placed d w a =
      let less = d u s ((placed.agrees (some s) sub (JsRef.sub u) w a).0) in omega arith

module _ {R : Type 0} (p : PooledProof Expr R) (v : Expr → Bool) where
  -- A step is right once the lines are that it may refer to.
  abbrev pub Stepwise : Type 0
  Stepwise =
      (k : ℕ)
      → ((d : PjsRef) → MayReference p (PjRef.just k) d → Good p v d)
      → Good p v (PjsRef.just k)

  abbrev pub Premises : Holder → Type 0
  Premises h = (k : ℕ) → among (PjsRef.prem k) (lines_of p h) ≡ true → Good p v (PjsRef.prem k)

  abbrev pub LinesGood : Holder → Type 0
  LinesGood h = (x : PjsRef) → among x (lines_of p h) ≡ true → Good p v x

  -- What `good_from` needs of the subproofs in the holder.
  abbrev pub Within : Holder → Type 0
  Within h =
      (u : ℕ) (sub : PooledSubproof)
      → depth h < suc u
      → lookup_subproof p u ≡ some sub
      → Outer p v (some (u, sub))
      → Premises (some (u, sub))
      → LinesGood (some (u, sub))

  module _ (placed : Placed p) (d : Descending p.pools) (one : OnePremise p)
      (stepwise : Stepwise) where
    good_from : (h : Holder) → IsHeld p h → Outer p v h → Premises h → Within h → LinesGood h
    unfolding js_to_pjs pj_to_pjs refs
    good_from h w o prems inner = along (Good p v) (lines_of p h) go
      where
        seen :
            (x : JsRef)
            → among (js_to_pjs x) (lines_of p h) ≡ true
            → ((y : PjsRef) → among y (before (js_to_pjs x) (lines_of p h)) ≡ true → Good p v y)
            → (e : PjsRef) → Sees p (named p (parent_of p.pools (js_to_pjs x))) (js_to_pjs x) e
            → Good p v e
        seen x a b e m =
            seen-Good p v h (js_to_pjs x) e o b (rw (parent-named p h x placed w a) at m)

        go :
            (x : PjsRef)
            → among x (lines_of p h) ≡ true
            → ((y : PjsRef) → among y (before x (lines_of p h)) ≡ true → Good p v y)
            → Good p v x
        go (PjsRef.prem k) a b = prems k a
        go (PjsRef.just k) a b = stepwise k (seen (JsRef.just k) a b)
        go (PjsRef.sub u) a b = λ sub q. (
          one u sub q,
          λ hold. steps_hold p v (iter sub.line_list) (λ k among_lines.
              inner u sub (deeper p h u placed d w a) q (seen (JsRef.sub u) a b)
                (λ k. premises-Good p v k (premise_keys sub) (iter sub.line_list) hold)
                (PjsRef.just k)
                (past_premises p v k (premise_keys sub) (iter sub.line_list) among_lines)),
        )

    -- Below a bound of the keys, with what is left up to the bound as fuel.
    pub good_lines :
        (n bound : ℕ) (h : Holder)
        → ((t : ℕ) (sub : PooledSubproof) → lookup_subproof p t ≡ some sub → t < bound)
        → bound ≤ n + depth h
        → IsHeld p h
        → Outer p v h
        → Premises h
        → LinesGood h
    good_lines zero bound h low le w o prems =
        good_from h w o prems (λ u sub lt q. let b = low u sub q in absurd (omega arith))
    good_lines (suc n) bound h low le w o prems =
        good_from h w o prems (λ u sub lt q. good_lines n bound (some (u, sub)) low (omega arith) q)
