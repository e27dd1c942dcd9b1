-- ===== src/Protocol/Lines/Starts.antt =====
-- The line starts of a text: where they lie, how many there are, and that the text can be cut at
-- each of them.
use hashline_rs.Prelude.{
  ℕ, zero, suc, ◌+◌, ◌-◌, ◌≤◌, ◌<◌, ◌≡◌, refl, List, [], ◌∷◌, ◌++◌, append_assoc, some, arith, ◌==◌,
  Bytes, length, length-append, All, Bool-cases, inl, inr, get_elem?, get_or, ok,
}
use hashline_rs.Protocol.Codec.Position.{Position}
use hashline_rs.Protocol.Text.Splice.{IsUtf8, IsCut, IsCut-behind_ascii, IsCut-zero, IsCut-length}
use hashline_rs.Protocol.Lines.{newline, starts_after, reference_line_starts, boundary_ordinal}

starts_after-IsCut :
    (pre s : Bytes) → IsUtf8 (pre ++ s) → All (IsCut (pre ++ s)) (starts_after (length pre) s)
unfolding starts_after
starts_after-IsCut pre [] h = tt
starts_after-IsCut pre (b ∷ s) h =
    let moved : (pre ++ b ∷ []) ++ s ≡ pre ++ b ∷ s = append_assoc pre (b ∷ []) s in
    let count : length (pre ++ b ∷ []) ≡ length pre + 1 =
      omega (arith, length-append pre (b ∷ [])) in
    let h' : IsUtf8 ((pre ++ b ∷ []) ++ s) = rw moved h in
    let rest = rw (count, moved) at (starts_after-IsCut (pre ++ b ∷ []) s h') in
    elim (Bool-cases (b == newline)) [
      | inl e ↦
          let small : b < 0x80 = ground arith in
          rw (e) (rw (count, moved) at (IsCut-behind_ascii pre s b small h'), rest)
      | inr e ↦ rw (e) rest
    ]

-- A valid text can be cut at each of its line starts.
pub reference_line_starts-IsCut : (s : Bytes) → IsUtf8 s → All (IsCut s) (reference_line_starts s)
unfolding reference_line_starts
reference_line_starts-IsCut s h = (IsCut-zero s h, starts_after-IsCut [] s h)

-- The byte of a boundary: the start of the numbered line, counted from zero, or the end of the text.
abbrev pub byte_at : Bytes → ℕ → ℕ
byte_at text ordinal = get_or (reference_line_starts text) ordinal (length text)

module _ (end : ℕ) where
  bounds :
      (i o : ℕ) (s : Bytes)
      → end ≡ i + length s
      → (i ≤ get_or (starts_after i s) o end) × (get_or (starts_after i s) o end ≤ end)
  unfolding starts_after
  bounds i o [] h = omega arith
  bounds i zero (b ∷ s) h = ground (arith, bounds (i + 1) zero s)
  bounds i (suc o) (b ∷ s) h = ground (arith, bounds (i + 1) o s, bounds (i + 1) (suc o) s)

  ascending :
      (i o p : ℕ) (s : Bytes)
      → end ≡ i + length s
      → o ≤ p
      → get_or (starts_after i s) o end ≤ get_or (starts_after i s) p end
  unfolding starts_after
  ascending i o p [] e h = omega arith
  ascending i zero zero (b ∷ s) e h = omega arith
  ascending i zero (suc p) (b ∷ s) e h =
      ground (arith, bounds (i + 1) p s, ascending (i + 1) zero (suc p) s)
  ascending i (suc o) zero (b ∷ s) e h = absurd (omega arith)
  ascending i (suc o) (suc p) (b ∷ s) e h =
      ground (arith, ascending (i + 1) o p s, ascending (i + 1) (suc o) (suc p) s)

-- Boundaries ascend with their ordinals, and none lies behind the end of the text.
pub byte_at_mono : (s : Bytes) (o p : ℕ) → o ≤ p → byte_at s o ≤ byte_at s p
unfolding reference_line_starts
byte_at_mono s zero p h = omega arith
byte_at_mono s (suc o) zero h = absurd (omega arith)
byte_at_mono s (suc o) (suc p) h = ascending (length s) 0 o p s (omega arith) (omega arith)

pub byte_at-le : (s : Bytes) (o : ℕ) → byte_at s o ≤ length s
unfolding reference_line_starts
byte_at-le s zero = omega arith
byte_at-le s (suc o) = (bounds (length s) 0 o s (omega arith)).1

get_or-IsCut :
    (s : Bytes) (l : List ℕ) (o : ℕ)
    → All (IsCut s) l
    → IsCut s (length s)
    → IsCut s (get_or l o (length s))
get_or-IsCut s [] o h k = k
get_or-IsCut s (x ∷ l) zero (h, hs) k = h
get_or-IsCut s (x ∷ l) (suc o) (h, hs) k = get_or-IsCut s l o hs k

-- A valid text can be cut at every boundary.
pub byte_at-IsCut : (s : Bytes) (o : ℕ) → IsUtf8 s → IsCut s (byte_at s o)
byte_at-IsCut s o h =
    get_or-IsCut s (reference_line_starts s) o (reference_line_starts-IsCut s h) (IsCut-length s h)

get_or_of_is_at : (l : List ℕ) (i d b : ℕ) → get_elem? l i ≡ some b → get_or l i d ≡ b
get_or_of_is_at [] i d b h = cc
get_or_of_is_at (x ∷ l) zero d b h = ground arith
get_or_of_is_at (x ∷ l) (suc i) d b h = get_or_of_is_at l i d b h

pub get_or_past : (l : List ℕ) (i d : ℕ) → length l ≤ i → get_or l i d ≡ d
get_or_past [] i d h = refl
get_or_past (x ∷ l) zero d h = absurd (omega arith)
get_or_past (x ∷ l) (suc i) d h = get_or_past l i d (omega arith)

-- An accepted position names the byte of the boundary that it resolves to.
pub boundary_ordinal-byte_at :
    (s : Bytes) (p : Position) {o : ℕ}
    → boundary_ordinal s (reference_line_starts s) p ≡ ok o
    → p.byte ≡ byte_at s o
unfolding boundary_ordinal
boundary_ordinal-byte_at s p {o} h = ground (
  arith,
  get_or_of_is_at (reference_line_starts s) (p.line - 1) (length s) p.byte,
  get_or_past (reference_line_starts s) (length (reference_line_starts s)) (length s),
)

pub byte_at-zero : (s : Bytes) → byte_at s 0 ≡ 0
unfolding reference_line_starts
byte_at-zero s = refl

-- A text has at most one line more than it has bytes.
pub length-starts_after-le : (i : ℕ) (s : Bytes) → length (starts_after i s) ≤ length s
unfolding starts_after
length-starts_after-le i [] = omega arith
length-starts_after-le i (b ∷ s) = ground (arith, length-starts_after-le (i + 1) s)
