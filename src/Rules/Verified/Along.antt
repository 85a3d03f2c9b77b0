-- ===== src/Rules/Verified/Along.antt =====
-- What stands before a line in a list of lines of aris/src/proofs.rs, as a principle of induction.
use aris.Base.{
  Bool, true, false, ◌||◌, List, [], ◌∷◌, ◌++◌, ◌≡◌, refl, sym, ◌∙◌, Bool-cases, inl, inr, ◌==◌,
  ==_path, ==_refl, append_assoc, any-append, ◌⊎◌, arith,
}
use aris.Pool.{PjsRef, pjs_eq}
use aris.Pool.Sees.{before, among}

-- What stands before a line in a list that goes on with it is in the first part.
before-first :
    (x y : PjsRef) (done rest : List PjsRef)
    → among y (before x (done ++ (x ∷ rest))) ≡ true
    → among y done ≡ true
before-first x y [] rest h = let r = ==_refl x in absurd (let h' = rw r at h in cc)
before-first x y (d ∷ done) rest h = elim (Bool-cases (d == x)) [
  | inl t ↦ absurd (let h' = rw t at h in cc)
  | inr f ↦ elim (Bool-cases (d == y)) [
    | inl e ↦ rw e
    | inr e ↦ rw e (before-first x y done rest (rw (f, e) at h))
  ]
]

in_middle : (x : PjsRef) (done rest : List PjsRef) → among x (done ++ (x ∷ rest)) ≡ true
in_middle x done rest = any-append _ done (x ∷ rest) ∙ ground (arith, ==_refl x)

in_last :
    (y x : PjsRef) (done : List PjsRef)
    → among y (done ++ (x ∷ [])) ≡ true
    → (among y done ≡ true) ⊎ (x ≡ y)
in_last y x done h =
    either (among y done) (x == y) (==_path x y) (sym (any-append _ done (x ∷ [])) ∙ h)
  where
    either : (a b : Bool) → (b ≡ true → x ≡ y) → (a || (b || false)) ≡ true → (a ≡ true) ⊎ (x ≡ y)
    either true b k h = inl refl
    either false true k h = inr (k refl)
    either false false k h = absurd cc

module _ (G : PjsRef → Type 0) (lines : List PjsRef) where
  -- It holds of a line of the list once it holds of those before it.
  abbrev pub GoesOn : Type 0
  GoesOn =
      (x : PjsRef)
      → among x lines ≡ true
      → ((y : PjsRef) → among y (before x lines) ≡ true → G y)
      → G x

  onwards :
      (done rest : List PjsRef)
      → lines ≡ done ++ rest
      → GoesOn
      → ((y : PjsRef) → among y done ≡ true → G y)
      → (y : PjsRef) → among y rest ≡ true
      → G y
  onwards done [] q step w y h = absurd cc
  onwards done (x ∷ rest) q step w y h =
      let here : G x =
        step x (rw q (in_middle x done rest))
          (λ z b. w z (before-first x z done rest (rw q at b))) in
      elim (Bool-cases (x == y)) [
        | inl e ↦ rw (← ==_path x y e) here
        | inr f ↦
            onwards (done ++ (x ∷ [])) rest (q ∙ sym (append_assoc done (x ∷ []) rest)) step
              (λ z a. elim (in_last z x done a) [ inl b ↦ w z b | inr e ↦ rw (← e) here ]) y
              (rw f at h)
      ]

  pub along : GoesOn → (y : PjsRef) → among y lines ≡ true → G y
  along step = onwards [] lines refl step (λ y h. absurd cc)
