-- ===== src/Protocol/Codec/WriteExpect.antt =====
-- `WriteExpect` of src/protocol.rs: the literal `absent`, or the identity that is to be replaced.
use hashline_rs.Prelude.{
  ◌≤◌, ◌≡◌, refl, ap, sym, Bytes, codes, Result, ok, err, map_err, ◌>>=◌, bytes_eq, bytes_eq→eq,
  if◌then◌else◌, Bool-cases, inl, inr, arith, u128_max, length,
}
use hashline_rs.Protocol.Codec.SnapshotId
use hashline_rs.Protocol.Codec.SnapshotId.{SnapshotId, SnapshotIdParseError}
use hashline_rs.Protocol.Codec.SnapshotId.RoundTrip

pub data WriteExpect : Type 0 where
  absent : WriteExpect
  snapshot : SnapshotId → WriteExpect

pub data WriteExpectParseError : Type 0 where
  invalid : WriteExpectParseError

abbrev absent_token : Bytes
absent_token = codes "absent"

unfoldable pub display : WriteExpect → Bytes
display absent = absent_token
display (snapshot id) = SnapshotId.display id

unfoldable pub from_str : Bytes → Result WriteExpectParseError WriteExpect
from_str input =
    if bytes_eq input absent_token
    then ok absent
    else map_err (λ _. invalid) (SnapshotId.from_str input >>= λ id. ok (snapshot id))

-- the identities that a `WriteExpect` can hold
abbrev pub InRange : WriteExpect → Type 0
InRange absent = Unit
InRange (snapshot id) = id ≤ u128_max

-- Every precondition is read back from its display: no identity is shown as `absent`.
pub WriteExpect-from_str-display : (e : WriteExpect) → InRange e → from_str (display e) ≡ ok e
unfolding from_str display
WriteExpect-from_str-display absent r = refl
WriteExpect-from_str-display (snapshot id) r =
    elim (Bool-cases (bytes_eq (SnapshotId.display id) absent_token)) [
      | inl same ↦
          let q : SnapshotId.display id ≡ absent_token = bytes_eq→eq _ _ same in
          absurd (omega (arith, ap length q, SnapshotId.RoundTrip.length-display id))
      | inr other ↦ rw (other, SnapshotId.RoundTrip.SnapshotId-from_str-display id r) refl
    ]

-- the branch that reads an identity
named :
    (s : Bytes) (r : Result SnapshotIdParseError SnapshotId) {e : WriteExpect}
    → SnapshotId.from_str s ≡ r
    → map_err (λ _. invalid) (r >>= λ id. ok (snapshot id)) ≡ ok e
    → (display e ≡ s) × InRange e
unfolding display
named s (ok id) {e} read h =
    let (shown, small) = SnapshotId.RoundTrip.SnapshotId-from_str-canonical s read in
    let q : snapshot id ≡ e = ground arith in rw (← q) (shown, small)
named s (err x) read h = cc

-- A text is accepted only as the display of the precondition that it is read as.
pub WriteExpect-from_str-canonical :
    (s : Bytes) {e : WriteExpect} → from_str s ≡ ok e → (display e ≡ s) × InRange e
unfolding from_str display
WriteExpect-from_str-canonical s {e} h = elim (Bool-cases (bytes_eq s absent_token)) [
  | inl same ↦
      let q : absent ≡ e = ground arith in rw (← q) (sym (bytes_eq→eq s absent_token same), tt)
  | inr other ↦ named s (SnapshotId.from_str s) refl (ground arith)
]
