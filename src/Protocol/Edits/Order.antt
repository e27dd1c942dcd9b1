-- ===== src/Protocol/Edits/Order.antt =====
-- Sorting an edit batch without conflicts puts each operation before those that begin where it
-- ends, or later.
use hashline_rs.Prelude.{
  ◌≤◌, ◌≡◌, true, false, List, [], ◌∷◌, none, arith, All, All-zip, AllPairs, Bool-cases, inl, inr,
  Option-cases,
}
use hashline_rs.Protocol.Edits.{
  ValidatedEdit, edits_overlap, overlap_with, first_overlap, key_le, insert_by_key, sort_by_key,
}

abbrev pub Apart : ValidatedEdit → ValidatedEdit → Type 0
Apart a b = edits_overlap a b ≡ false

abbrev Follows : ValidatedEdit → ValidatedEdit → Type 0
Follows a b = (key_le a b ≡ true) × Apart a b

key_le_total : (a b : ValidatedEdit) → key_le a b ≡ false → key_le b a ≡ true
key_le_total a b h = ground arith

key_le_trans : (a b c : ValidatedEdit) → key_le a b ≡ true → key_le b c ≡ true → key_le a c ≡ true
key_le_trans a b c h k = ground arith

Apart-symm : (a b : ValidatedEdit) → Apart a b → Apart b a
unfolding edits_overlap
Apart-symm a b h = ground arith

module _ {ℓ} (P : ValidatedEdit → Type ℓ) where
  pub All-insert_by_key :
      (x : ValidatedEdit) (ys : List ValidatedEdit) → P x → All P ys → All P (insert_by_key x ys)
  unfolding insert_by_key
  All-insert_by_key x [] p h = (p, tt)
  All-insert_by_key x (y ∷ ys) p (q, h) = elim (Bool-cases (key_le x y)) [
    | inl e ↦ rw e (p, (q, h))
    | inr e ↦ rw e (q, All-insert_by_key x ys p h)
  ]

  pub All-sort_by_key : (xs : List ValidatedEdit) → All P xs → All P (sort_by_key xs)
  unfolding sort_by_key
  All-sort_by_key [] h = tt
  All-sort_by_key (x ∷ xs) (p, h) = All-insert_by_key x (sort_by_key xs) p (All-sort_by_key xs h)

insert_by_key-Follows :
    (x : ValidatedEdit) (ys : List ValidatedEdit)
    → All (Apart x) ys
    → AllPairs Follows ys
    → AllPairs Follows (insert_by_key x ys)
unfolding insert_by_key
insert_by_key-Follows x [] _ _ = (tt, tt)
insert_by_key-Follows x (y ∷ ys) (a, as') (f, fs) = elim (Bool-cases (key_le x y)) [
  | inl e ↦ rw (e) (((e, a), All-zip (λ z p q. (key_le_trans x y z e p.0, q)) ys f as'), (f, fs))
  | inr e ↦ rw (e) (
    All-insert_by_key (Follows y) x ys (key_le_total x y e, Apart-symm x y a) f,
    insert_by_key-Follows x ys as' fs,
  )
]

sort_by_key-Follows :
    (xs : List ValidatedEdit) → AllPairs Apart xs → AllPairs Follows (sort_by_key xs)
unfolding sort_by_key
sort_by_key-Follows [] h = tt
sort_by_key-Follows (x ∷ xs) (a, as') =
    insert_by_key-Follows x (sort_by_key xs) (All-sort_by_key (Apart x) xs a)
      (sort_by_key-Follows xs as')

overlap_with-Apart :
    (x : ValidatedEdit) (ys : List ValidatedEdit)
    → overlap_with edits_overlap x ys ≡ none
    → All (Apart x) ys
unfolding overlap_with
overlap_with-Apart x [] h = tt
overlap_with-Apart x (y ∷ ys) h = (ground arith, overlap_with-Apart x ys (ground arith))

-- The two loops over the batch find no pair exactly when no two operations conflict.
pub first_overlap-Apart :
    (xs : List ValidatedEdit) → first_overlap edits_overlap xs ≡ none → AllPairs Apart xs
unfolding first_overlap
first_overlap-Apart [] h = tt
first_overlap-Apart (x ∷ xs) h = elim (Option-cases (overlap_with edits_overlap x xs)) [
  | inl e ↦ (overlap_with-Apart x xs e, first_overlap-Apart xs (ground arith))
  | inr (pair, e) ↦ absurd (ground arith)
]

abbrev pub IsForward : ValidatedEdit → Type 0
IsForward e = e.start_ordinal ≤ e.end_ordinal

-- the first operation ends before the second one begins
abbrev pub Before : ValidatedEdit → ValidatedEdit → Type 0
Before a b = a.end_ordinal ≤ b.start_ordinal

Follows-Before : (a b : ValidatedEdit) → IsForward a → IsForward b → Follows a b → Before a b
unfolding edits_overlap
Follows-Before a b fa fb h = ground arith

All-Before : (xs : List ValidatedEdit) → All IsForward xs → AllPairs Follows xs → AllPairs Before xs
All-Before [] _ _ = tt
All-Before (x ∷ xs) (f, fs) (h, hs) =
    (All-zip (λ y p q. Follows-Before x y f p q) xs fs h, All-Before xs fs hs)

-- In a batch without conflicts, sorted, every operation ends before each later one begins.
pub sort_by_key-Before :
    (xs : List ValidatedEdit)
    → All IsForward xs
    → first_overlap edits_overlap xs ≡ none
    → AllPairs Before (sort_by_key xs)
sort_by_key-Before xs f h =
    All-Before (sort_by_key xs) (All-sort_by_key IsForward xs f)
      (sort_by_key-Follows xs (first_overlap-Apart xs h))
