-- ===== src/Pool/Maps.antt =====
-- The maps of aris/src/proofs/pooledproof.rs: reading after writing, and the next key.
use aris.Base.{
  ℕ, suc, ◌+◌, ◌^◌, ◌%◌, ◌<◌, ◌≤◌, none, some, List, [], ◌∷◌, ◌≡◌, ◌≢◌, ap, ◌∙◌, sym, if◌then◌else◌,
  ◌==◌, PartialEq, nat_eq, ltb, Bool-cases, Option-cases, inl, inr, arith, ==_refl, ==_path,
  ==_false, ==_ne, some-inj,
}
use aris.Pool.{lookup, store, last_key, next_key, key_after}

module _ {K V : Type 0} ⦃e : PartialEq K⦄ where
  pub lookup-store : (k : K) (v : V) (m : List (K × V)) → lookup k (store k v m) ≡ some v
  unfolding lookup store
  lookup-store k v [] = rw (==_refl k)
  lookup-store k v (p ∷ m) = elim (Bool-cases (p.0 == k)) [
    | inl t ↦ rw (t, ==_refl k)
    | inr f ↦ rw (f, f) (lookup-store k v m)
  ]

  pub lookup-store_other :
      (j k : K) (v : V) (m : List (K × V)) → j ≢ k → lookup j (store k v m) ≡ lookup j m
  unfolding lookup store
  lookup-store_other j k v [] h = rw (==_false k j (λ q. h (sym q)))
  lookup-store_other j k v (p ∷ m) h = elim (Bool-cases (p.0 == k)) [
    | inl t ↦
        rw (t, ==_false k j (λ q. h (sym q)), ==_false p.0 j (λ q. h (sym q ∙ ==_path p.0 k t)))
    | inr f ↦ rw f (ap (λ r. if p.0 == j then some p.1 else r) (lookup-store_other j k v m h))
  ]

  pub lookup-store_if :
      (j k : K) (v : V) (m : List (K × V))
      → lookup j (store k v m) ≡ (if j == k then some v else lookup j m)
  lookup-store_if j k v m = elim (Bool-cases (j == k)) [
    | inl t ↦ rw t (ap (λ i. lookup i (store k v m)) (==_path j k t) ∙ lookup-store k v m)
    | inr f ↦ rw f (lookup-store_other j k v m (==_ne j k f))
  ]

module _ {V : Type 0} where
  -- There is a key after the greatest one.
  abbrev pub Room : List (ℕ × V) → Type 0
  Room m = (l : ℕ) → last_key m ≡ some l → suc l < 2 ^ 64

  last_key-cons :
      (p : ℕ × V) (m : List (ℕ × V))
      → (l : ℕ) × (last_key (p ∷ m) ≡ some l) × (p.0 ≤ l) × ((k : ℕ) → last_key m ≡ some k → k ≤ l)
  unfolding last_key
  last_key-cons p m = elim (Option-cases (last_key m)) [
    | inl n ↦ (p.0, rw n, omega arith, λ k h. absurd (let h' = rw n at h in cc))
    | inr (l, s) ↦ elim (Bool-cases (ltb l p.0)) [
      | inl t ↦ (p.0, rw (s, t), omega arith, λ k h. let q = some-inj (sym s ∙ h) in ground arith)
      | inr f ↦ (l, rw (s, f), ground arith, λ k h. let q = some-inj (sym s ∙ h) in omega arith)
    ]
  ]

  pub last_key-bound :
      (k : ℕ) (v : V) (m : List (ℕ × V))
      → lookup k m ≡ some v
      → (l : ℕ) × (last_key m ≡ some l) × (k ≤ l)
  unfolding lookup
  last_key-bound k v [] h = absurd cc
  last_key-bound k v (p ∷ m) h =
      let (l, q, b, c) = last_key-cons p m in
      elim (Bool-cases (p.0 == k)) [
        | inl t ↦ (l, q, omega (arith, ==_path p.0 k t))
        | inr f ↦
            let (l', q', b') = last_key-bound k v m (rw f at h) in (l, q, omega (arith, c l' q'))
      ]

  pub next_key-eq : (l : ℕ) (m : List (ℕ × V)) → last_key m ≡ some l → next_key m ≡ (l + 1) % 2 ^ 64
  unfolding next_key key_after
  next_key-eq l m q = ap key_after q

  -- The next key is greater than every key.
  pub next_key-above :
      (k : ℕ) (v : V) (m : List (ℕ × V)) → Room m → lookup k m ≡ some v → k < next_key m
  next_key-above k v m r h =
      let (l, q, b) = last_key-bound k v m h in let room = r l q in omega (arith, next_key-eq l m q)

  pub next_key_fresh : (m : List (ℕ × V)) → Room m → lookup (next_key m) m ≡ none
  next_key_fresh m r = elim (Option-cases (lookup (next_key m) m)) [
    | inl n ↦ n
    | inr (v, s) ↦ absurd (omega (arith, next_key-above (next_key m) v m r s))
  ]
