-- ===== src/Prelude/Sorting.antt =====
-- `sort_by` of the standard library, with the lexicographic comparison of sequences.
pub mod Keys
pub mod Pairs
use Prim.Native.Nat.{suc, compare, Ordering}
use mathlib.Core.Path.{◌≡◌, refl, sym, ap₂}
use mathlib.Core.Logic.{◌⊎◌, inl, inr}
use mathlib.Core.Bool.{Bool, true, false}
use mathlib.Core.List.{List, [], ◌∷◌, Perm, Mem, Pairwise, Pairwise-singleton, forall_mem-cons}
use mathlib.Core.List.Perm
use native.Mathlib.Omega.{arith}
use hashline_rs.Prelude.Lists.{length}
use hashline_rs.Prelude.Tests.{if◌then◌else◌, Bool-cases}

-- `Ordering::then_with`
abbrev pub then_with : Ordering → Ordering → Ordering
then_with Ordering.lt next = Ordering.lt
then_with Ordering.eq next = next
then_with Ordering.gt next = Ordering.gt

abbrev pub flipped : Ordering → Ordering
flipped Ordering.lt = Ordering.gt
flipped Ordering.eq = Ordering.eq
flipped Ordering.gt = Ordering.lt

abbrev pub not_greater : Ordering → Bool
not_greater Ordering.gt = false
not_greater _ = true

-- what a total order's comparison does
pub record IsOrder {ℓ} {A : Type ℓ} (cmp : A → A → Ordering) : Type ℓ where
  pub flip : (a b : A) → cmp b a ≡ flipped (cmp a b)
  pub same : (a b : A) → cmp a b ≡ Ordering.eq → a ≡ b
  pub trans : (a b c : A) → cmp a b ≡ Ordering.lt → cmp b c ≡ Ordering.lt → cmp a c ≡ Ordering.lt

pub compare-IsOrder : IsOrder compare
compare-IsOrder = record {
  flip = λ a b. ground arith;
  same = λ a b h. ground arith;
  trans = λ a b c h k. ground arith;
}

-- the comparison of two sequences: the first difference decides, and a prefix comes first
module _ {ℓ} {A : Type ℓ} (cmp : A → A → Ordering) where
  abbrev pub list_cmp : List A → List A → Ordering
  list_cmp [] [] = Ordering.eq
  list_cmp [] (y ∷ ys) = Ordering.lt
  list_cmp (x ∷ xs) [] = Ordering.gt
  list_cmp (x ∷ xs) (y ∷ ys) = then_with (cmp x y) (list_cmp xs ys)

  module _ (o : IsOrder cmp) where
    list_cmp-flip : (a b : List A) → list_cmp b a ≡ flipped (list_cmp a b)
    list_cmp-flip [] [] = refl
    list_cmp-flip [] (y ∷ ys) = refl
    list_cmp-flip (x ∷ xs) [] = refl
    list_cmp-flip (x ∷ xs) (y ∷ ys) =
        rw (o.flip x y, list_cmp-flip xs ys) (flipped-then (cmp x y) (list_cmp xs ys))
      where
        flipped-then :
            (c d : Ordering) → then_with (flipped c) (flipped d) ≡ flipped (then_with c d)
        flipped-then Ordering.lt d = refl
        flipped-then Ordering.eq d = refl
        flipped-then Ordering.gt d = refl

    list_cmp-same : (a b : List A) → list_cmp a b ≡ Ordering.eq → a ≡ b
    list_cmp-same [] [] h = refl
    list_cmp-same [] (y ∷ ys) h = cc
    list_cmp-same (x ∷ xs) [] h = cc
    list_cmp-same (x ∷ xs) (y ∷ ys) h =
        let (first, rest) = both (cmp x y) (list_cmp xs ys) h in
        ap₂ ◌∷◌ (o.same x y first) (list_cmp-same xs ys rest)
      where
        both :
            (c d : Ordering) → then_with c d ≡ Ordering.eq → (c ≡ Ordering.eq) × (d ≡ Ordering.eq)
        both Ordering.lt d e = cc
        both Ordering.eq d e = (refl, e)
        both Ordering.gt d e = cc

    less :
        (c d : Ordering)
        → then_with c d ≡ Ordering.lt
        → (c ≡ Ordering.lt) ⊎ ((c ≡ Ordering.eq) × (d ≡ Ordering.lt))
    less Ordering.lt d e = inl refl
    less Ordering.eq d e = inr (refl, e)
    less Ordering.gt d e = cc

    list_cmp_trans :
        (a b c : List A)
        → list_cmp a b ≡ Ordering.lt
        → list_cmp b c ≡ Ordering.lt
        → list_cmp a c ≡ Ordering.lt
    list_cmp_trans [] [] c h k = k
    list_cmp_trans [] (y ∷ ys) [] h k = cc
    list_cmp_trans [] (y ∷ ys) (z ∷ zs) h k = refl
    list_cmp_trans (x ∷ xs) [] c h k = cc
    list_cmp_trans (x ∷ xs) (y ∷ ys) [] h k = cc
    list_cmp_trans (x ∷ xs) (y ∷ ys) (z ∷ zs) h k = elim (less (cmp x y) (list_cmp xs ys) h) [
      | inl p ↦ elim (less (cmp y z) (list_cmp ys zs) k) [
        | inl q ↦ rw (o.trans x y z p q) refl
        | inr (q, _) ↦
            let e = o.same y z q in let f : cmp x z ≡ Ordering.lt = rw (sym e) p in rw f refl
      ]
      | inr (p, p2) ↦
          let e = o.same x y p in
          elim (less (cmp y z) (list_cmp ys zs) k) [
            | inl q ↦ let f : cmp x z ≡ Ordering.lt = rw e q in rw f refl
            | inr (q, q2) ↦
                let f : cmp x z ≡ Ordering.eq = rw e q in rw f (list_cmp_trans xs ys zs p2 q2)
          ]
    ]

    pub list_cmp-IsOrder : IsOrder list_cmp
    list_cmp-IsOrder = record { flip = list_cmp-flip; same = list_cmp-same; trans = list_cmp_trans }

-- a stable insertion sort under a Boolean order
module _ {ℓ} {A : Type ℓ} (le : A → A → Bool) where
  abbrev pub insert_by : A → List A → List A
  insert_by x [] = x ∷ []
  insert_by x (y ∷ ys) = let rest = insert_by x ys in if le x y then x ∷ y ∷ ys else y ∷ rest

  unfoldable pub sort_by : List A → List A
  sort_by [] = []
  sort_by (x ∷ xs) = insert_by x (sort_by xs)

  pub insert_by-perm : (x : A) (l : List A) → Perm (insert_by x l) (x ∷ l)
  insert_by-perm x [] = Perm.rfl
  insert_by-perm x (y ∷ ys) = elim (Bool-cases (le x y)) [
    | inl p ↦ rw p Perm.rfl
    | inr p ↦ rw p (Perm.trans (Perm.cons y (insert_by-perm x ys)) (Perm.swap x y ys))
  ]

  length-insert_by : (x : A) (l : List A) → length (insert_by x l) ≡ suc (length l)
  length-insert_by x [] = refl
  length-insert_by x (y ∷ ys) = ground (arith, length-insert_by x ys)

  pub length-sort_by : (l : List A) → length (sort_by l) ≡ length l
  unfolding sort_by
  length-sort_by [] = refl
  length-sort_by (x ∷ xs) = omega (arith, length-insert_by x (sort_by xs), length-sort_by xs)

  -- of any two elements one may come first, and coming first carries over
  pub record IsTotal : Type ℓ where
    pub total : (a b : A) → le a b ≡ false → le b a ≡ true
    pub trans : (a b c : A) → le a b ≡ true → le b c ≡ true → le a c ≡ true

  abbrev pub Sorted : List A → Type ℓ
  Sorted = Pairwise (λ a b. le a b ≡ true)

  pub sort_by-perm : (l : List A) → Perm (sort_by l) l
  unfolding sort_by
  sort_by-perm [] = Perm.rfl
  sort_by-perm (x ∷ xs) = Perm.trans (insert_by-perm x (sort_by xs)) (Perm.cons x (sort_by-perm xs))

  below_cons :
      {a b : A} {l : List A}
      → le a b ≡ true
      → ((x : A) → Mem x l → le a x ≡ true)
      → (x : A) → Mem x (b ∷ l)
      → le a x ≡ true
  below_cons {a} p h = (forall_mem-cons (λ x. hlevel)).1 (p, h)

  module _ (laws : IsTotal) where
    pub below_head :
        {a b : A} {l : List A}
        → le a b ≡ true
        → Sorted (b ∷ l)
        → (x : A) → Mem x (b ∷ l)
        → le a x ≡ true
    below_head {a} {b} p (Pairwise.cons h _) = below_cons p (λ x m. laws.trans a b x p (h x m))

    insert_by-Sorted : (x : A) {l : List A} → Sorted l → Sorted (insert_by x l)
    insert_by-Sorted x Pairwise.nil = Pairwise-singleton _ x
    insert_by-Sorted x (Pairwise.cons {a = y} {l = ys} below s) = elim (Bool-cases (le x y)) [
      | inl p ↦ let whole = Pairwise.cons below s in rw p (Pairwise.cons (below_head p whole) whole)
      | inr p ↦ rw p (
          Pairwise.cons
            (λ z m.
              below_cons (laws.total x y p) below z ((Perm.mem_iff (insert_by-perm x ys)).0 m))
            (insert_by-Sorted x s))
    ]

    pub sort_by-Sorted : (l : List A) → Sorted (sort_by l)
    unfolding sort_by
    sort_by-Sorted [] = Pairwise.nil
    sort_by-Sorted (x ∷ xs) = insert_by-Sorted x (sort_by-Sorted xs)
