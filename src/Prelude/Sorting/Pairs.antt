-- ===== src/Prelude/Sorting/Pairs.antt =====
-- Total orders made of others: the reverse, and pairs of which the first parts decide.
use Prim.Native.Nat.{Ordering}
use mathlib.Core.Path.{◌≡◌, refl, sym, ap₂}
use mathlib.Core.Logic.{◌⊎◌, inl, inr}
use hashline_rs.Prelude.Sorting.{IsOrder, flipped, then_with}

pub greater_flips : (o : Ordering) → flipped o ≡ Ordering.lt → o ≡ Ordering.gt
greater_flips Ordering.lt h = cc
greater_flips Ordering.eq h = cc
greater_flips Ordering.gt h = refl

pub reverse-IsOrder {ℓ} :
    {A : Type ℓ} {cmp : A → A → Ordering} → IsOrder cmp → IsOrder (λ a b. cmp b a)
reverse-IsOrder o = record {
  flip = λ a b. o.flip b a;
  same = λ a b h. sym (o.same b a h);
  trans = λ a b c h k. o.trans c b a k h;
}

module _ {ℓ κ} {A : Type ℓ} {B : Type κ} (first : A → A → Ordering)
    (second : B → B → Ordering) where
  abbrev pub pair_cmp : A × B → A × B → Ordering
  pair_cmp (a, b) (c, d) = then_with (first a c) (second b d)

  module _ (o : IsOrder first) (p : IsOrder second) where
    pub pair_cmp-IsOrder : IsOrder pair_cmp
    pair_cmp-IsOrder = record {
      flip = λ (a, b) (c, d). rw (o.flip a c, p.flip b d) (turned (first a c) (second b d));
      same = λ (a, b) (c, d) h. both a b c d h;
      trans = λ (a, b) (c, d) (e, f) h k. chain a b c d e f h k;
    }
      where
        turned : (x y : Ordering) → then_with (flipped x) (flipped y) ≡ flipped (then_with x y)
        turned Ordering.lt y = refl
        turned Ordering.eq y = refl
        turned Ordering.gt y = refl

        equal :
            (x y : Ordering) → then_with x y ≡ Ordering.eq → (x ≡ Ordering.eq) × (y ≡ Ordering.eq)
        equal Ordering.lt y e = cc
        equal Ordering.eq y e = (refl, e)
        equal Ordering.gt y e = cc

        both :
            (a : A) (b : B) (c : A) (d : B)
            → then_with (first a c) (second b d) ≡ Ordering.eq
            → ◌≡◌ {A = A × B} (a, b) (c, d)
        both a b c d h =
            let (x, y) = equal (first a c) (second b d) h in
            ap₂ (λ l r. (l, r)) (o.same a c x) (p.same b d y)

        less :
            (x y : Ordering)
            → then_with x y ≡ Ordering.lt
            → (x ≡ Ordering.lt) ⊎ ((x ≡ Ordering.eq) × (y ≡ Ordering.lt))
        less Ordering.lt y e = inl refl
        less Ordering.eq y e = inr (refl, e)
        less Ordering.gt y e = cc

        chain :
            (a : A) (b : B) (c : A) (d : B) (e : A) (f : B)
            → then_with (first a c) (second b d) ≡ Ordering.lt
            → then_with (first c e) (second d f) ≡ Ordering.lt
            → then_with (first a e) (second b f) ≡ Ordering.lt
        chain a b c d e f h k = elim (less (first a c) (second b d) h) [
          | inl x ↦ elim (less (first c e) (second d f) k) [
            | inl y ↦ rw (o.trans a c e x y) refl
            | inr (y, _) ↦ let z : first a e ≡ Ordering.lt = rw (sym (o.same c e y)) x in rw z refl
          ]
          | inr (x, x2) ↦ elim (less (first c e) (second d f) k) [
            | inl y ↦ let z : first a e ≡ Ordering.lt = rw (o.same a c x) y in rw z refl
            | inr (y, y2) ↦
                let z : first a e ≡ Ordering.eq = rw (o.same a c x) y in rw z (p.trans b d f x2 y2)
          ]
        ]
