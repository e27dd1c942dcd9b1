-- ===== src/Protocol/Edits/Output.antt =====
-- The output of an accepted batch: its exact length, and that it is text that the policy accepts.
use hashline_rs.Prelude.{
  ℕ, ◌+◌, ◌-◌, ◌≤◌, ◌≡◌, ◌≢◌, refl, ap, List, [], ◌∷◌, ◌++◌, append_assoc, append-nil, some, arith,
  ltb, if◌then◌else◌, Bytes, All, AllPairs, All-append, All-take, All-drop, Lacks, position-none,
  Bool-cases, Option-cases, inl, inr, length, length-append, length-drop, length-slice, slice, drop,
}
use hashline_rs.Protocol.Text.Splice.{IsUtf8, IsUtf8-append, IsUtf8-slice}
use hashline_rs.Protocol.Lines.Starts.{byte_at, byte_at_mono, byte_at-le, byte_at-IsCut}
use hashline_rs.Protocol.Edits.{
  ValidatedEdit, is_insertion, final_length, checked_total, removed_bytes, added_bytes, sort_by_key,
  splice, insert_by_key,
}
use hashline_rs.Protocol.Edits.Order.{Before}
use hashline_rs.Protocol.Edits.Validated.{IsValidated}

pub sum_of : (ValidatedEdit → ℕ) → List ValidatedEdit → ℕ
sum_of size [] = 0
sum_of size (e ∷ es) = size e + sum_of size es

-- the operation begins at the boundary or behind it
abbrev pub Ahead : ℕ → ValidatedEdit → Type 0
Ahead ordinal e = ordinal ≤ e.start_ordinal

module _ (source : Bytes) where
  -- The output from a boundary on: what lies before each operation, its content, and the rest.
  unfoldable pub pieces : ℕ → List ValidatedEdit → Bytes
  pieces ordinal [] = drop (byte_at source ordinal) source
  pieces ordinal (e ∷ es) =
      slice (byte_at source ordinal) (byte_at source e.start_ordinal) source
      ++ (e.content ++ pieces e.end_ordinal es)

  empty_slice : (a : ℕ) → slice a a source ≡ []
  empty_slice a = let e : a - a ≡ 0 = omega arith in rw e refl

  cursor_step :
      (e : ValidatedEdit) (cursor : ℕ)
      → IsValidated source e
      → cursor ≤ e.start_byte
      → (if is_insertion e
          then (if ltb cursor e.start_byte then e.start_byte else cursor)
          else e.end_byte)
        ≡ byte_at source e.end_ordinal
  cursor_step e cursor v h =
      let s = v.start_eq in
      let t = v.end_eq in
      elim (Bool-cases (is_insertion e)) [
        | inl i ↦
            let same : e.start_ordinal ≡ e.end_ordinal = ground arith in
            let u : byte_at source e.start_ordinal ≡ byte_at source e.end_ordinal =
              ap (byte_at source) same in
            rw (i) (ground arith)
        | inr i ↦ rw (i) t
      ]

  kept_step :
      (e : ValidatedEdit) (output : Bytes) (cursor : ℕ)
      → cursor ≤ e.start_byte
      → (if ltb cursor e.start_byte then output ++ slice cursor e.start_byte source else output)
        ≡ output ++ slice cursor e.start_byte source
  kept_step e output cursor h = elim (Bool-cases (ltb cursor e.start_byte)) [
    | inl b ↦ rw (b) refl
    | inr b ↦
        let same : cursor ≡ e.start_byte = ground arith in
        rw (b, same, empty_slice e.start_byte, append-nil) refl
  ]

  -- The loop over a sorted batch puts these pieces together.
  pub splice-pieces :
      (es : List ValidatedEdit) (output : Bytes) (ordinal : ℕ)
      → All (IsValidated source) es
      → AllPairs Before es
      → All (Ahead ordinal) es
      → splice source es output (byte_at source ordinal) ≡ output ++ pieces ordinal es
  unfolding splice pieces
  splice-pieces [] output ordinal _ _ _ = refl
  splice-pieces (e ∷ es) output ordinal (v, vs) (b, bs) (a, as') =
      let reach : byte_at source ordinal ≤ e.start_byte =
        rw v.start_eq (byte_at_mono source ordinal e.start_ordinal a) in
      rw
        (
          kept_step e output (byte_at source ordinal) reach,
          cursor_step e (byte_at source ordinal) v reach,
          splice-pieces es
              ((output ++ slice (byte_at source ordinal) e.start_byte source) ++ e.content)
              e.end_ordinal vs bs b,
          v.start_eq,
          append_assoc,
          append_assoc,
        )
        refl

  pub length-pieces :
      (es : List ValidatedEdit) (ordinal : ℕ)
      → All (IsValidated source) es
      → AllPairs Before es
      → All (Ahead ordinal) es
      → length (pieces ordinal es) + sum_of removed_bytes es + byte_at source ordinal
        ≡ length source + sum_of added_bytes es
  unfolding pieces sum_of
  length-pieces [] ordinal _ _ _ =
      omega (arith, length-drop (byte_at source ordinal) source, byte_at-le source ordinal)
  length-pieces (e ∷ es) ordinal (v, vs) (b, bs) (a, as') = omega (
    arith,
    v.start_eq,
    v.end_eq,
    byte_at_mono source ordinal e.start_ordinal a,
    byte_at_mono source e.start_ordinal e.end_ordinal v.forward,
    byte_at-le source e.start_ordinal,
    length-append (slice (byte_at source ordinal) (byte_at source e.start_ordinal) source)
        (e.content ++ pieces e.end_ordinal es),
    length-append e.content (pieces e.end_ordinal es),
    length-slice (byte_at source ordinal) (byte_at source e.start_ordinal) source,
    length-pieces es e.end_ordinal vs bs b,
  )

  pub IsUtf8-pieces :
      (es : List ValidatedEdit) (ordinal : ℕ)
      → IsUtf8 source
      → All (IsValidated source) es
      → AllPairs Before es
      → All (Ahead ordinal) es
      → IsUtf8 (pieces ordinal es)
  unfolding pieces
  IsUtf8-pieces [] ordinal u _ _ _ = (byte_at-IsCut source ordinal u).2
  IsUtf8-pieces (e ∷ es) ordinal u (v, vs) (b, bs) (a, as') =
      IsUtf8-append (slice (byte_at source ordinal) (byte_at source e.start_ordinal) source)
        (e.content ++ pieces e.end_ordinal es)
        (IsUtf8-slice source (byte_at source ordinal) (byte_at source e.start_ordinal)
          (byte_at_mono source ordinal e.start_ordinal a) (byte_at-IsCut source ordinal u)
          (byte_at-IsCut source e.start_ordinal u))
        (IsUtf8-append e.content (pieces e.end_ordinal es) v.utf8
          (IsUtf8-pieces es e.end_ordinal u vs bs b))

  pub Lacks-pieces :
      (es : List ValidatedEdit) (ordinal : ℕ)
      → Lacks 0 source
      → All (IsValidated source) es
      → Lacks 0 (pieces ordinal es)
  unfolding pieces
  Lacks-pieces [] ordinal l _ = All-drop (λ c. c ≢ 0) (byte_at source ordinal) source l
  Lacks-pieces (e ∷ es) ordinal l (v, vs) =
      All-append (λ c. c ≢ 0)
        (slice (byte_at source ordinal) (byte_at source e.start_ordinal) source)
        (e.content ++ pieces e.end_ordinal es)
        (All-take (λ c. c ≢ 0) (byte_at source e.start_ordinal - byte_at source ordinal)
          (drop (byte_at source ordinal) source)
          (All-drop (λ c. c ≢ 0) (byte_at source ordinal) source l))
        (All-append (λ c. c ≢ 0) e.content (pieces e.end_ordinal es)
          (position-none 0 e.content v.no_nul) (Lacks-pieces es e.end_ordinal l vs))

-- sorting keeps the sums
sum_of-insert_by_key :
    (size : ValidatedEdit → ℕ) (x : ValidatedEdit) (ys : List ValidatedEdit)
    → sum_of size (insert_by_key x ys) ≡ size x + sum_of size ys
unfolding sum_of insert_by_key
sum_of-insert_by_key size x [] = refl
sum_of-insert_by_key size x (y ∷ ys) = ground (arith, sum_of-insert_by_key size x ys)

pub sum_of-sort_by_key :
    (size : ValidatedEdit → ℕ) (xs : List ValidatedEdit)
    → sum_of size (sort_by_key xs) ≡ sum_of size xs
unfolding sum_of sort_by_key
sum_of-sort_by_key size [] = refl
sum_of-sort_by_key size (x ∷ xs) =
    omega (arith, sum_of-insert_by_key size x (sort_by_key xs), sum_of-sort_by_key size xs)

-- a checked sum that succeeds is the sum
checked_total-sum_of :
    (size : ValidatedEdit → ℕ) (total : ℕ) (es : List ValidatedEdit) {r : ℕ}
    → checked_total size total es ≡ some r
    → r ≡ total + sum_of size es
unfolding sum_of checked_total
checked_total-sum_of size total [] h = ground arith
checked_total-sum_of size total (e ∷ es) {r} h =
    ground (arith, checked_total-sum_of size (total + size e) es {r = r})

pub final_length-sums :
    (source : Bytes) (es : List ValidatedEdit) {n : ℕ}
    → final_length source es ≡ some n
    → n + sum_of removed_bytes es ≡ length source + sum_of added_bytes es
unfolding final_length
final_length-sums source es {n} h = elim (Option-cases (checked_total removed_bytes 0 es)) [
  | inl e ↦ absurd (ground arith)
  | inr (r, e) ↦ elim (Option-cases (checked_total added_bytes 0 es)) [
    | inl f ↦ absurd (ground arith)
    | inr (a, f) ↦ ground (
      arith,
      checked_total-sum_of removed_bytes 0 es {r = r} e,
      checked_total-sum_of added_bytes 0 es {r = a} f,
    )
  ]
]
