-- ===== src/Snapshot/Agreement.antt =====
-- A built snapshot agrees with the reference model on its text.
use hashline_rs.Prelude.{
  ℕ, ◌+◌, ◌-◌, ◌≤◌, ◌≡◌, refl, ◌⊎◌, inl, inr, List, [], ◌∷◌, Option, none, some, Result, ok, err,
  Bool-cases, true, false, ltb, if◌then◌else◌, map_err, Bool, Bytes, length, u64_max, checked_add,
  arith, get_elem?,
}
use hashline_rs.Crates.{Crates, CratesLaws, positions}
use hashline_rs.Protocol.Codec.Position.{Position}
use hashline_rs.Protocol.Errors.{ContractError, max_file_bytes, validate_file_size}
use hashline_rs.Protocol.Text.{validate_text}
use hashline_rs.Protocol.Text.Policy.{IsText, IsText→validate_text}
use hashline_rs.Protocol.Lines
use hashline_rs.Protocol.Lines.{newline, starts_after, reference_line_starts}
use hashline_rs.Protocol.Lines.Starts.{length-starts_after-le}
use hashline_rs.Snapshot.Offsets.{
  LineOffsets, OffsetKind, u32, u64, kind_max, kind_bytes, OffsetError, capacity, starts_behind,
  build_with_kind, build, table, offsets, get, for_byte_len,
}
use hashline_rs.Snapshot.Stamp.{FileStamp}
use hashline_rs.Snapshot.{
  Snapshot, SnapshotError, contract, offset_failure, line_offsets, line_start, boundary_ordinal,
  try_from_bytes, from_validated_with_stamp, from_bytes, from_validated_bytes, content_id,
}

-- What every constructor establishes, and filling the cell keeps.
pub record WellFormed (c : Crates) (s : Snapshot) : Type 0 where
  pub valid : validate_text s.text ≡ ok s.text
  pub id_eq : s.id ≡ content_id c s.text
  pub byte_len_eq : s.byte_len ≡ length s.text
  pub line_count_eq : s.line_count ≡ length (reference_line_starts s.text)
  pub cell : (s.offsets ≡ none) ⊎ (s.offsets ≡ some (build c s.text s.line_count s.byte_len))

-- whether there is memory for the line table of the text
abbrev pub room : Crates → Bytes → Bool
room c text =
    c.try_reserve (length (reference_line_starts text)) (kind_bytes (for_byte_len (length text)))

abbrev pub HasRoom : Crates → Bytes → Type 0
HasRoom c text = room c text ≡ true

abbrev pub IsRefused : Crates → Bytes → Type 0
IsRefused c text = room c text ≡ false

-- the error where there is none
abbrev pub no_room : Bytes → SnapshotError
no_room text = offset_failure (capacity (length (reference_line_starts text)))

pub room_cases : (c : Crates) (text : Bytes) → HasRoom c text ⊎ IsRefused c text
room_cases c text = Bool-cases (room c text)

starts_behind-positions :
    (k : OffsetKind) (i : ℕ) (s : Bytes)
    → i + length s ≤ kind_max k
    → starts_behind k (positions newline i s) ≡ ok (starts_after i s)
unfolding starts_behind positions starts_after
starts_behind-positions k i [] h = refl
starts_behind-positions u32 i (b ∷ s) h = ground (arith, starts_behind-positions u32 (i + 1) s)
starts_behind-positions u64 i (b ∷ s) h = ground (arith, starts_behind-positions u64 (i + 1) s)

length-positions : (i : ℕ) (s : Bytes) → length (positions newline i s) ≡ length (starts_after i s)
unfolding positions starts_after
length-positions i [] = refl
length-positions i (b ∷ s) = ground (arith, length-positions (i + 1) s)

-- text that passed validation is within the cap
pub validate_text-le :
    (s : Bytes) {t : Bytes} → validate_text s ≡ ok t → (length s ≤ max_file_bytes) × (t ≡ s)
unfolding validate_text
validate_text-le s h = (ground arith, ground arith)

offsets-table : (k : OffsetKind) (l : List ℕ) → offsets (table k l) ≡ l
unfolding offsets
offsets-table u32 l = refl
offsets-table u64 l = refl

module _ (c : Crates) (laws : CratesLaws c) where
  -- The checks of the snapshot's constructor are those of the reference model.
  pub try_from_bytes-validate_text : (bytes : Bytes) → try_from_bytes c bytes ≡ validate_text bytes
  unfolding try_from_bytes validate_text
  try_from_bytes-validate_text bytes =
      ground (arith, laws.memchr_law 0 bytes, laws.simd_from_utf8_law bytes)

  line_count_of :
      (s : Bytes) → length (c.memchr_iter newline s) + 1 ≡ length (reference_line_starts s)
  unfolding reference_line_starts
  line_count_of s = rw (laws.memchr_iter_law newline s, length-positions 0 s) (omega arith)

  line_count_fits :
      (s : Bytes)
      → length s ≤ max_file_bytes
      → checked_add u64_max (length (c.memchr_iter newline s)) 1
        ≡ some (length (reference_line_starts s))
  unfolding reference_line_starts
  line_count_fits s h =
      rw (laws.memchr_iter_law newline s, length-positions 0 s)
        (ground (arith, length-starts_after-le 0 s))

  abbrev pub built : Bytes → Option FileStamp → Snapshot
  built text stamp = record {
    text = text;
    id = content_id c text;
    stamp = stamp;
    byte_len = length text;
    line_count = length (reference_line_starts text);
    offsets = none;
  }

  pub built-WellFormed :
      (text : Bytes) (stamp : Option FileStamp)
      → validate_text text ≡ ok text
      → WellFormed c (built text stamp)
  built-WellFormed text stamp h = record {
    valid = h;
    id_eq = refl;
    byte_len_eq = refl;
    line_count_eq = refl;
    cell = inl refl;
  }

  pub from_validated_lem :
      (text : Bytes) (stamp : Option FileStamp)
      → validate_text text ≡ ok text
      → from_validated_with_stamp c text stamp ≡ ok (built text stamp)
  unfolding from_validated_with_stamp
  from_validated_lem text stamp h = rw (line_count_fits text (validate_text-le text h).0) refl

  -- of text, the constructor without the text checks builds the same snapshot
  pub from_validated_bytes_lem :
      (bytes : Bytes) → IsText bytes → from_validated_bytes c bytes ≡ ok (built bytes none)
  unfolding from_validated_bytes validate_file_size
  from_validated_bytes_lem bytes t =
      ground (arith, t.small, from_validated_lem bytes none (IsText→validate_text bytes t))

  -- Bytes that the text policy refuses are refused with its error.
  pub from_bytes-refused :
      (bytes : Bytes) {e : ContractError}
      → validate_text bytes ≡ err e
      → from_bytes c bytes ≡ err (contract e)
  unfolding from_bytes
  from_bytes-refused bytes h = rw (try_from_bytes-validate_text bytes, h) refl

  -- Of bytes that the text policy accepts, a well-formed snapshot of those very bytes is built, with
  -- no stamp.
  pub from_bytes-WellFormed :
      (bytes : Bytes)
      → IsText bytes
      → (s : Snapshot) × (from_bytes c bytes ≡ ok s)
        × WellFormed c s
        × (s.text ≡ bytes)
        × (s.stamp ≡ none)
  unfolding from_bytes
  from_bytes-WellFormed bytes t =
      let h = IsText→validate_text bytes t in
      (
        built bytes none,
        rw (try_from_bytes-validate_text bytes, h) (from_validated_lem bytes none h),
        built-WellFormed bytes none h,
        refl,
        refl,
      )

  build-reference :
      (text : Bytes)
      → length text ≤ max_file_bytes
      → HasRoom c text
      → build c text (length (reference_line_starts text)) (length text)
        ≡ ok (table (for_byte_len (length text)) (reference_line_starts text))
  unfolding build build_with_kind reference_line_starts
  build-reference text small there =
      let counted : ltb u64_max (length (reference_line_starts text)) ≡ false =
        ground (arith, length-starts_after-le 0 text) in
      rw
        (
          counted,
          there,
          laws.memchr_iter_law newline text,
          starts_behind-positions (for_byte_len (length text)) 0 text (fits (length text) small),
        )
        (ground arith)
    where
      fits : (n : ℕ) → n ≤ max_file_bytes → 0 + n ≤ kind_max (for_byte_len n)
      fits n h = unfold for_byte_len in ground arith

  -- without the memory
  build-refused :
      (text : Bytes)
      → length text ≤ max_file_bytes
      → IsRefused c text
      → build c text (length (reference_line_starts text)) (length text)
        ≡ err (capacity (length (reference_line_starts text)))
  unfolding build build_with_kind reference_line_starts
  build-refused text small refused =
      let counted : ltb u64_max (length (reference_line_starts text)) ≡ false =
        ground (arith, length-starts_after-le 0 text) in
      rw (counted, refused) refl

  module _ (s : Snapshot) (wf : WellFormed c s) where
    abbrev reference_table : LineOffsets
    reference_table = table (for_byte_len (length s.text)) (reference_line_starts s.text)

    pub text_small : length s.text ≤ max_file_bytes
    text_small = (validate_text-le s.text wf.valid).0

    pub lines_small : s.line_count ≤ max_file_bytes + 1
    lines_small =
        unfold reference_line_starts in
        omega (arith, wf.line_count_eq, length-starts_after-le 0 s.text, text_small)

    -- what a line table that is built gives is what the cell gives
    line_offsets-build :
        {answer : Result OffsetError LineOffsets}
        → build c s.text (length (reference_line_starts s.text)) (length s.text) ≡ answer
        → line_offsets c s ≡ map_err offset_failure answer
    unfolding line_offsets
    line_offsets-build {answer} e =
        let made : build c s.text s.line_count s.byte_len ≡ answer =
          rw (wf.line_count_eq, wf.byte_len_eq) e in
        elim wf.cell [ inl empty ↦ rw (empty, made) refl | inr filled ↦ rw (filled, made) refl ]

    -- The line table of a well-formed snapshot is there, filled before or now, if memory is.
    pub line_offsets_lem : HasRoom c s.text → line_offsets c s ≡ ok reference_table
    line_offsets_lem there = line_offsets-build (build-reference s.text text_small there)

    pub line_offsets-refused : IsRefused c s.text → line_offsets c s ≡ err (no_room s.text)
    line_offsets-refused refused = line_offsets-build (build-refused s.text text_small refused)

    get-reference : (i : ℕ) → get reference_table i ≡ get_elem? (reference_line_starts s.text) i
    unfolding get
    get-reference i =
        rw (offsets-table (for_byte_len (length s.text)) (reference_line_starts s.text)) refl

    -- `line_start` is the reference model's table, without an error.
    pub line_start_lem :
        (line : ℕ)
        → 1 ≤ line
        → HasRoom c s.text
        → line_start c s line ≡ ok (get_elem? (reference_line_starts s.text) (line - 1))
    unfolding line_start
    line_start_lem line h there = ground (arith, line_offsets_lem there, get-reference (line - 1))

    pub line_start-refused :
        (line : ℕ) → 1 ≤ line → IsRefused c s.text → line_start c s line ≡ err (no_room s.text)
    unfolding line_start
    line_start-refused line h refused = ground (arith, line_offsets-refused refused)

    -- where memory is, positions are resolved as in the reference model
    pub boundary_ordinal_lem :
        (p : Position)
        → 1 ≤ p.line
        → HasRoom c s.text
        → boundary_ordinal c s p
          ≡ map_err contract (Lines.boundary_ordinal s.text (reference_line_starts s.text) p)
    unfolding boundary_ordinal Lines.boundary_ordinal
    boundary_ordinal_lem p h there = ground (
      arith,
      line_offsets_lem there,
      get-reference (p.line - 1),
      wf.line_count_eq,
      wf.byte_len_eq,
      lines_small,
    )

    -- On a well-formed snapshot, a position with a line from one up is resolved by the compact line
    -- table as by the reference model, errors included, if there is memory for the table, and is
    -- refused for want of it otherwise.
    pub boundary_ordinal-reference :
        (p : Position)
        → 1 ≤ p.line
        → boundary_ordinal c s p ≡ (
            if room c s.text
            then map_err contract (Lines.boundary_ordinal s.text (reference_line_starts s.text) p)
            else err (no_room s.text))
    unfolding boundary_ordinal
    boundary_ordinal-reference p h = elim (room_cases c s.text) [
      | inl there ↦ rw there (boundary_ordinal_lem p h there)
      | inr refused ↦ rw (refused, line_offsets-refused refused) refl
    ]
