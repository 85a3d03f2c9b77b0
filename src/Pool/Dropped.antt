-- ===== src/Pool/Dropped.antt =====
-- Lists from which aris/src/proofs/pooledproof.rs drops the elements with a property.
use aris.Base.{
  transport, Bool, true, false, not as not_bool, List, [], ◌∷◌, ◌≡◌, sym, Bool-cases, inl, inr,
}
use aris.ZipperVec.{ZipperVec, iter}
use aris.ZipperVec.Edit.{iter-from_vec}
use aris.Pool.Remove.{filter, filter_vec}

-- The second list is the first without the elements with a property, in the same order.
pub data Dropped {A : Type 0} (p : A → Bool) : List A → List A → Type 0 where
  end : Dropped p [] []
  drops : (x : A) (xs ys : List A) → p x ≡ true → Dropped p xs ys → Dropped p (x ∷ xs) ys
  keeps : (x : A) (xs ys : List A) → p x ≡ false → Dropped p xs ys → Dropped p (x ∷ xs) (x ∷ ys)

pub filter-Dropped :
    {A : Type 0} (p : A → Bool) (xs : List A) → Dropped p xs (filter (λ x. not_bool (p x)) xs)
unfolding filter
filter-Dropped p [] = end
filter-Dropped {A} p (x ∷ xs) =
    let rest : List A = filter (λ x. not_bool (p x)) xs in
    elim (Bool-cases (p x)) [
      | inl t ↦ rw t (drops x xs rest t (filter-Dropped p xs))
      | inr f ↦ rw f (keeps x xs rest f (filter-Dropped p xs))
    ]

pub filter_vec-Dropped :
    {A : Type 0} (p : A → Bool) (v : ZipperVec A)
    → Dropped p (iter v) (iter (filter_vec (λ x. not_bool (p x)) v))
unfolding filter_vec
filter_vec-Dropped p v =
    transport (Dropped p (iter v)) (sym (iter-from_vec (filter (λ x. not_bool (p x)) (iter v))))
      (filter-Dropped p (iter v))

-- Where nothing has the property, the list is the same.
pub Dropped-none :
    {A : Type 0} (p : A → Bool) (xs : List A) → ((x : A) → p x ≡ false) → Dropped p xs xs
Dropped-none p [] h = end
Dropped-none p (x ∷ xs) h = keeps x xs xs (h x) (Dropped-none p xs h)
