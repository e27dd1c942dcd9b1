-- ===== src/Snapshot.antt =====
-- `Snapshot` of src/snapshot.rs: validated text with its identity and a lazily built table of line
-- starts. `usize` and `u64` are one width, so the conversions between them never fail; a failed
-- allocation is an answer in Snapshot/Load only.
pub mod Stamp
pub mod Offsets
pub mod Agreement
pub mod Load
use hashline_rs.Prelude.{
  ℕ, zero, suc, ◌+◌, ◌-◌, ◌≡◌, refl, Bool, true, false, not, ◌&&◌, List, [], ◌∷◌, Option, none,
  some, ltb, leb, ◌==◌, if◌then◌else◌, Result, ok, err, ◌>>=◌, ◌>>◌, ok_or, map_err, Bytes, length,
  u64_max, checked_add, checked_sub, slice,
}
use hashline_rs.Crates.{Crates}
use hashline_rs.Paths.{FilePath}
use hashline_rs.Protocol.Codec.Position.{Position}
use hashline_rs.Protocol.Codec.SnapshotId.{SnapshotId}
use hashline_rs.Protocol.Errors.{
  ContractError, nul_file, invalid_utf8, invalid_position, reversed_range, validate_file_size,
}
use hashline_rs.Protocol.Lines.{newline, is_at}
use hashline_rs.Snapshot.Stamp.{FileStamp}
use hashline_rs.Snapshot.Offsets.{
  OffsetError, address_invariant, OffsetKind, LineOffsets, LineOffsets, get, kind, build,
  resident_bytes,
}

-- What the program looks at in an `io::Error`.
pub data ErrorKind : Type 0 where
  not_found_kind permission_denied_kind already_exists_kind interrupted_kind other_kind : ErrorKind

pub record IoError : Type 0 where
  pub error_kind : ErrorKind
  pub text : Bytes

pub data SnapshotError : Type 0 where
  io : Bytes → FilePath → IoError → SnapshotError
  contract : ContractError → SnapshotError
  concurrent_modification : FilePath → SnapshotError
  address_space allocation : ℕ → SnapshotError
  line_count_overflow : SnapshotError
  offset_failure : OffsetError → SnapshotError

pub record Snapshot : Type 0 where
  pub text : Bytes
  pub id : SnapshotId
  pub stamp : Option FileStamp
  pub byte_len : ℕ
  pub line_count : ℕ
  -- the `OnceLock`: empty until the first use
  pub offsets : Option (Result OffsetError LineOffsets)

-- `Snapshot::offsets`: what `get_or_init` returns
unfoldable pub line_offsets : Crates → Snapshot → Result SnapshotError LineOffsets
line_offsets c s = elim s.offsets [
  | some built ↦ map_err offset_failure built
  | none ↦ map_err offset_failure (build c s.text s.line_count s.byte_len)
]

-- The same call as a step of the snapshot: the cell is filled once.
unfoldable pub materialize_offsets : Crates → Snapshot → Result SnapshotError OffsetKind × Snapshot
unfolding line_offsets
materialize_offsets c s =
    let answer = (line_offsets c s >>= λ table. ok (kind table)) in
    elim s.offsets [
      | some built ↦ (answer, s)
      | none ↦ (answer, record s { offsets = some (build c s.text s.line_count s.byte_len) })
    ]

-- `resident_line_metadata_bytes`
unfoldable pub resident_line_metadata_bytes : Snapshot → Result SnapshotError ℕ
resident_line_metadata_bytes s = elim s.offsets [
  | none ↦ ok 0
  | some built ↦
      (map_err offset_failure built >>= λ table. map_err offset_failure (resident_bytes table))
]

-- `line_start`
unfoldable pub line_start : Crates → Snapshot → ℕ → Result SnapshotError (Option ℕ)
unfolding line_offsets
line_start c s line = elim (checked_sub line 1) [
  | none ↦ ok none
  | some index ↦ (line_offsets c s >>= λ table. ok (get table index))
]

-- `Snapshot::boundary_ordinal`
unfoldable pub boundary_ordinal : Crates → Snapshot → Position → Result SnapshotError ℕ
unfolding line_offsets
boundary_ordinal c s p =
    (line_offsets c s >>= λ table.
    if leb p.line s.line_count
    then elim (checked_sub p.line 1) [
      | none ↦ err (offset_failure address_invariant)
      | some zero_based ↦
          if is_at (get table zero_based) p.byte
          then ok zero_based
          else err (contract (invalid_position p))
    ]
    else if is_at (checked_add u64_max s.line_count 1) p.line && p.byte == s.byte_len
    then ok s.line_count
    else err (contract (invalid_position p)))

unfoldable pub validate_boundary : Crates → Snapshot → Position → Result SnapshotError (Unit {0})
unfolding boundary_ordinal
validate_boundary c s p = (boundary_ordinal c s p >>= λ _. ok tt)

-- `text.get(start..end)`: `None` for a range that the text does not have
abbrev pub get_range : Bytes → ℕ → ℕ → Option Bytes
get_range text start end =
    if leb start end && leb end (length text) then some (slice start end text) else none

-- `Snapshot::slice`
unfoldable pub slice_between : Crates → Snapshot → Position → Position → Result SnapshotError Bytes
unfolding boundary_ordinal
slice_between c s start end = do
  start_ordinal ← boundary_ordinal c s start
  end_ordinal ← boundary_ordinal c s end
  if ltb end_ordinal start_ordinal
      then err (contract (reversed_range start end))
      else ok_or (offset_failure address_invariant) (get_range s.text start.byte end.byte)

-- `content_id`
unfoldable pub content_id : Crates → Bytes → SnapshotId
content_id c bytes = c.xxh3_128_with_seed bytes c.process_random_seed

-- `ValidatedText::try_from_bytes`
unfoldable pub try_from_bytes : Crates → Bytes → Result ContractError Bytes
unfolding validate_file_size
try_from_bytes c bytes =
    (validate_file_size (length bytes) >>= λ _. elim (c.memchr 0 bytes) [
      | some at ↦ err (nul_file at)
      | none ↦ elim (c.simd_from_utf8 bytes) [ some at ↦ err (invalid_utf8 at) | none ↦ ok bytes ]
    ])

-- `from_validated_with_stamp`
unfoldable pub from_validated_with_stamp :
    Crates → Bytes → Option FileStamp → Result SnapshotError Snapshot
unfolding content_id
from_validated_with_stamp c text stamp = do
  line_count ←
      ok_or line_count_overflow (checked_add u64_max (length (c.memchr_iter newline text)) 1)
  ok (record {
    text = text;
    id = content_id c text;
    stamp = stamp;
    byte_len = length text;
    line_count = line_count;
    offsets = none;
  })

unfoldable pub from_bytes : Crates → Bytes → Result SnapshotError Snapshot
unfolding try_from_bytes from_validated_with_stamp
from_bytes c bytes = do
  text ← map_err contract (try_from_bytes c bytes)
  from_validated_with_stamp c text none

-- `from_validated_bytes`: the text policy is the caller's, the size cap is checked
unfoldable pub from_validated_bytes : Crates → Bytes → Result SnapshotError Snapshot
unfolding validate_file_size from_validated_with_stamp
from_validated_bytes c bytes = do
  map_err contract (validate_file_size (length bytes))
  from_validated_with_stamp c bytes none

unfoldable pub with_stamp : Snapshot → FileStamp → Snapshot
with_stamp s stamp = record s { stamp = some stamp }
