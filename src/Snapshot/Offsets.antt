-- ===== src/Snapshot/Offsets.antt =====
-- `LineOffsets` of src/snapshot.rs: line starts in four or eight bytes each.
use hashline_rs.Prelude.{
  ℕ, ◌-◌, ◌^◌, List, [], ◌∷◌, Option, ltb, leb, ◌==◌, if◌then◌else◌, Result, ok, err, ◌>>=◌, ◌>>◌,
  ok_or, Bytes, length, get_elem?, u64_max, checked_add, checked_mul, not,
}
use hashline_rs.Crates.{Crates}
use hashline_rs.Protocol.Lines.{newline}

abbrev pub u32_max : ℕ
u32_max = 2 ^ 32 - 1

pub data OffsetKind : Type 0 where
  u32 u64 : OffsetKind

pub data OffsetError : Type 0 where
  line_count_address_space capacity : ℕ → OffsetError
  offset_width : ℕ → OffsetKind → OffsetError
  line_count_mismatch : ℕ → ℕ → OffsetError
  metadata_size_overflow address_invariant : OffsetError

pub data LineOffsets : Type 0 where
  table32 table64 : List ℕ → LineOffsets

-- `OffsetKind::for_byte_len`
unfoldable pub for_byte_len : ℕ → OffsetKind
for_byte_len byte_len = if leb byte_len u32_max then u32 else u64

-- `OffsetKind::bytes`
abbrev pub kind_bytes : OffsetKind → ℕ
kind_bytes u32 = 4
kind_bytes u64 = 8

abbrev pub kind_max : OffsetKind → ℕ
kind_max u32 = u32_max
kind_max u64 = u64_max

-- `u32::try_from(start)` or `u64::try_from(start)`
abbrev pub fit : OffsetKind → ℕ → Result OffsetError ℕ
fit k start = if leb start (kind_max k) then ok start else err (offset_width start k)

-- the loop over the newlines
unfoldable pub starts_behind : OffsetKind → List ℕ → Result OffsetError (List ℕ)
starts_behind k [] = ok []
starts_behind k (at ∷ rest) = do
  start ← ok_or (offset_width at k) (checked_add u64_max at 1)
  fitted ← fit k start
  starts ← starts_behind k rest
  ok (fitted ∷ starts)

abbrev pub table : OffsetKind → List ℕ → LineOffsets
table u32 offsets = table32 offsets
table u64 offsets = table64 offsets

-- `build_with_kind`
unfoldable pub build_with_kind : Crates → Bytes → ℕ → OffsetKind → Result OffsetError LineOffsets
unfolding starts_behind
build_with_kind c text line_count k = do
  -- `usize::try_from`
  if ltb u64_max line_count then err (line_count_address_space line_count) else ok tt
  if c.try_reserve line_count (kind_bytes k) then ok tt else err (capacity line_count)
  starts ← starts_behind k (c.memchr_iter newline text)
  if not (length (0 ∷ starts) == line_count)
      then err (line_count_mismatch line_count (length (0 ∷ starts)))
      else ok (table k (0 ∷ starts))

-- `LineOffsets::build`
unfoldable pub build : Crates → Bytes → ℕ → ℕ → Result OffsetError LineOffsets
unfolding build_with_kind for_byte_len
build c text line_count byte_len = build_with_kind c text line_count (for_byte_len byte_len)

unfoldable pub offsets : LineOffsets → List ℕ
offsets (table32 l) = l
offsets (table64 l) = l

unfoldable pub get : LineOffsets → ℕ → Option ℕ
unfolding offsets
get t index = get_elem? (offsets t) index

unfoldable pub kind : LineOffsets → OffsetKind
kind (table32 l) = u32
kind (table64 l) = u64

-- `resident_bytes`
unfoldable pub resident_bytes : LineOffsets → Result OffsetError ℕ
unfolding offsets kind
resident_bytes t =
    ok_or metadata_size_overflow (checked_mul u64_max (length (offsets t)) (kind_bytes (kind t)))
