-- ===== src/Prelude/Sorting/Keys.antt =====
-- Sorting by a key under a total order: the result depends on the elements alone, where no two of them
-- share a key.
use Prim.Native.Nat.{Ordering}
use mathlib.Core.Path.{◌≡◌, refl, sym, ap, ap₂, ◌∙◌}
use mathlib.Core.Logic.{◌⊎◌, inl, inr}
use mathlib.Core.Bool.{Bool, true, false}
use mathlib.Core.List.{List, [], ◌∷◌, Perm, Mem, mem-cons_self, mem-cons_of_mem}
use mathlib.Core.List.Pairwise
use mathlib.Core.List.Perm
use hashline_rs.Prelude.Tests.{Bool-cases}
use hashline_rs.Prelude.Sorting.{
  below_head, IsOrder, flipped, not_greater, IsTotal, Sorted, sort_by, sort_by-perm, sort_by-Sorted,
}

not_greater_cases : (o : Ordering) → not_greater o ≡ true → (o ≡ Ordering.lt) ⊎ (o ≡ Ordering.eq)
not_greater_cases Ordering.lt h = inl refl
not_greater_cases Ordering.eq h = inr refl
not_greater_cases Ordering.gt h = cc

module _ {ℓ κ} {A : Type ℓ} {B : Type κ} {cmp : B → B → Ordering} (o : IsOrder cmp)
    (key : A → B) where
  abbrev pub key_le : A → A → Bool
  key_le a b = not_greater (cmp (key a) (key b))

  pub key_le-IsTotal : IsTotal key_le
  key_le-IsTotal = record {
    total = λ a b h. rw (o.flip (key a) (key b)) (other (cmp (key a) (key b)) h);
    trans = λ a b c h k.
        chain a b c (not_greater_cases (cmp (key a) (key b)) h)
          (not_greater_cases (cmp (key b) (key c)) k) k;
  }
    where
      other : (c : Ordering) → not_greater c ≡ false → not_greater (flipped c) ≡ true
      other Ordering.lt h = cc
      other Ordering.eq h = cc
      other Ordering.gt h = refl

      chain :
          (a b c : A)
          → (cmp (key a) (key b) ≡ Ordering.lt) ⊎ (cmp (key a) (key b) ≡ Ordering.eq)
          → (cmp (key b) (key c) ≡ Ordering.lt) ⊎ (cmp (key b) (key c) ≡ Ordering.eq)
          → key_le b c ≡ true
          → key_le a c ≡ true
      chain a b c (inl p) (inl q) k = rw (o.trans (key a) (key b) (key c) p q) refl
      chain a b c (inl p) (inr q) k =
          let f : cmp (key a) (key c) ≡ Ordering.lt = rw (sym (o.same (key b) (key c) q)) p in
          rw f refl
      chain a b c (inr p) q k = rw (o.same (key a) (key b) p) k

  -- both ways means one key
  key_le_antisymm : (a b : A) → key_le a b ≡ true → key_le b a ≡ true → key a ≡ key b
  key_le_antisymm a b h k = elim (not_greater_cases (cmp (key a) (key b)) h) [
    | inl p ↦
        let f : cmp (key b) (key a) ≡ Ordering.gt = o.flip (key a) (key b) ∙ ap flipped p in
        absurd (clash (cmp (key b) (key a)) f k)
    | inr p ↦ o.same (key a) (key b) p
  ]
    where
      clash : (c : Ordering) → c ≡ Ordering.gt → not_greater c ≡ true → ⊥
      clash Ordering.lt e n = cc
      clash Ordering.eq e n = cc
      clash Ordering.gt e n = cc

  -- no two elements of the list share a key
  abbrev pub KeysDiffer : List A → Type (ℓ ⊔ κ)
  KeysDiffer l = (a b : A) → Mem a l → Mem b l → key a ≡ key b → a ≡ b

  first_le :
      {a b : A} {l r : List A} → Sorted key_le (a ∷ l) → Perm (b ∷ r) (a ∷ l) → key_le a b ≡ true
  first_le {a} {b} s p =
      below_head key_le key_le-IsTotal (le_refl a) s b ((Perm.mem_iff p).0 mem-cons_self)
    where
      le_refl : (a : A) → key_le a a ≡ true
      le_refl a = elim (Bool-cases (key_le a a)) [
        | inl at_once ↦ at_once
        | inr never ↦ key_le-IsTotal.total a a never
      ]

  pub Sorted-unique :
      {l r : List A} → KeysDiffer l → Sorted key_le l → Sorted key_le r → Perm l r → l ≡ r
  Sorted-unique {l = []} d _ _ p = Perm.nil-eq p
  Sorted-unique {l = a ∷ l} {r = []} d _ _ p = Perm.eq-nil p
  Sorted-unique {l = a ∷ l} {r = b ∷ r} d sl sr p =
      let keys = key_le_antisymm a b (first_le sl (Perm.symm p)) (first_le sr p) in
      let heads = d a b mem-cons_self ((Perm.mem_iff p).1 mem-cons_self) keys in
      let tails = Perm.cons_inv (Perm.trans p (Perm.symm (Perm.cons' heads Perm.rfl))) in
      let rest : KeysDiffer l = λ x y m n e. d x y (mem-cons_of_mem a m) (mem-cons_of_mem a n) e in
      ap₂ ◌∷◌ heads (Sorted-unique {l = l} rest (Pairwise.of_cons sl) (Pairwise.of_cons sr) tails)

  -- Sorting two arrangements of the same elements, no two of which share a key, gives one list.
  pub sort_by_unique :
      (l r : List A) → KeysDiffer l → Perm l r → sort_by key_le l ≡ sort_by key_le r
  sort_by_unique l r d p =
      let left = sort_by-perm key_le l in
      Sorted-unique (λ x y m n e. d x y ((Perm.mem_iff left).0 m) ((Perm.mem_iff left).0 n) e)
        (sort_by-Sorted key_le key_le-IsTotal l) (sort_by-Sorted key_le key_le-IsTotal r)
        (Perm.trans left (Perm.trans p (Perm.symm (sort_by-perm key_le r))))
