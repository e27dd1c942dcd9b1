-- ===== src/Protocol/Codec/Position/RoundTrip.antt =====
-- Printing and reading a position are inverse to one another.
use hashline_rs.Prelude.{
  ℕ, ◌≤◌, ◌≡◌, refl, ◌∙◌, true, false, [], ◌∷◌, ◌++◌, arith, ◌==◌, some, ok, ◌>>=◌, >>=-eq-ok,
  Bytes, u64_max, all, Bool-cases, Option-cases, inl, inr,
}
use hashline_rs.Protocol.Codec.Decimal.{
  decimal, DecimalComponent, is_ascii_digit, parse_canonical_decimal, reject_zero_line,
}
use hashline_rs.Protocol.Codec.Decimal.RoundTrip.{
  parse_canonical_decimal-decimal, parse_canonical_decimal-canonical, decimal-all_digits,
}
use hashline_rs.Protocol.Codec.Position.{Position, new, display, split_once, contains, from_str}

-- The values that a `Position` of the program can hold: a line from one up, and two u64 numbers.
pub record InRange (p : Position) : Type 0 where
  pub line_pos : 1 ≤ p.line
  pub line_max : p.line ≤ u64_max
  pub byte_max : p.byte ≤ u64_max

split_once_at :
    (a b : Bytes) → all is_ascii_digit a ≡ true → split_once b'@' (a ++ b'@' ∷ b) ≡ some (a, b)
unfolding split_once
split_once_at [] b h = refl
split_once_at (c ∷ a) b h = ground (arith, split_once_at a b)

contains_digits : (b : Bytes) → all is_ascii_digit b ≡ true → contains b'@' b ≡ false
unfolding contains
contains_digits [] h = refl
contains_digits (c ∷ b) h = ground (arith, contains_digits b)

-- Every position is read back from its display.
pub Position-from_str-display : (p : Position) → InRange p → from_str (display p) ≡ ok p
unfolding from_str display
Position-from_str-display p r =
    rw
      (
        split_once_at _ _ (decimal-all_digits p.line),
        contains_digits _ (decimal-all_digits p.byte),
        parse_canonical_decimal-decimal DecimalComponent.line p.line r.line_max,
        parse_canonical_decimal-decimal DecimalComponent.byte p.byte r.byte_max,
      )
      (unfold reject_zero_line in ground arith)

split_once_inv : (s : Bytes) {a b : Bytes} → split_once b'@' s ≡ some (a, b) → s ≡ a ++ b'@' ∷ b
unfolding split_once
split_once_inv [] h = cc h
split_once_inv (c ∷ s) {a} {b} h = elim (Bool-cases (c == b'@')) [
  | inl e ↦ ground arith
  | inr e ↦ elim (Option-cases (split_once b'@' s)) [
    | inl n ↦ ground arith
    | inr ((a', b'), f) ↦ ground (arith, split_once_inv s {a = a'} {b = b'} f)
  ]
]

new_inv : (l b : ℕ) {p : Position} → new l b ≡ ok p → (1 ≤ l) × (p.line ≡ l) × (p.byte ≡ b)
new_inv l b h = ground arith

-- the two numbers, behind the separator
components :
    (l b : Bytes) {p : Position}
    → (do
      line ← parse_canonical_decimal l DecimalComponent.line
      byte ← parse_canonical_decimal b DecimalComponent.byte
      new line byte)
      ≡ ok p
    → (l ≡ decimal p.line) × (b ≡ decimal p.byte) × InRange p
components l b {p} h =
    let (x, read_line, h') = >>=-eq-ok (parse_canonical_decimal l DecimalComponent.line) _ h in
    let (y, read_byte, built) = >>=-eq-ok (parse_canonical_decimal b DecimalComponent.byte) _ h' in
    let (pos, lines, bytes) = new_inv x y built in
    let (cl, ml) = parse_canonical_decimal-canonical DecimalComponent.line l read_line in
    let (cb, mb) = parse_canonical_decimal-canonical DecimalComponent.byte b read_byte in
    (rw lines cl, rw bytes cb, omega arith)

-- A text is accepted only as the display of the position that it is read as, and that is in range.
pub Position-from_str-canonical :
    (s : Bytes) {p : Position} → from_str s ≡ ok p → (s ≡ display p) × InRange p
unfolding from_str display
Position-from_str-canonical s {p} h = elim (Option-cases (split_once b'@' s)) [
  | inl n ↦ ground arith
  | inr ((a, b), f) ↦
      let run : (do
        line ← parse_canonical_decimal a DecimalComponent.line
        byte ← parse_canonical_decimal b DecimalComponent.byte
        new line byte)
          ≡ ok p =
        ground arith in
      let (l, r, range) = components a b run in (split_once_inv s f ∙ rw (l, r) refl, range)
]
