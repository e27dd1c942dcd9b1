-- ===== src/Tests/Codec.antt =====
-- Positions, identities, write preconditions and texts.
use hashline_rs.Prelude.{◌≡◌, ◌↔◌, ◌≤◌, refl, ok, codes, u128_max, arith}
use hashline_rs.Protocol.Codec.Position
use hashline_rs.Protocol.Codec.Position.{Position}
use hashline_rs.Protocol.Codec.Position.RoundTrip.{
  InRange, Position-from_str-display, Position-from_str-canonical,
}
use hashline_rs.Protocol.Codec.Decimal.{parse_canonical_decimal}
use hashline_rs.Protocol.Codec.SnapshotId
use hashline_rs.Protocol.Codec.SnapshotId.RoundTrip.{
  SnapshotId-from_str-display, SnapshotId-from_str-canonical,
}
use hashline_rs.Protocol.Codec.WriteExpect
use hashline_rs.Protocol.Codec.WriteExpect.{
  WriteExpect, absent, snapshot, WriteExpect-from_str-display, WriteExpect-from_str-canonical,
}
use hashline_rs.Protocol.Text.{validate_text}
use hashline_rs.Protocol.Text.Policy.{IsText, validate_text_iff}
use hashline_rs.Tests.Samples.{greek}

abbrev place : Position
place = record { line = 12; byte = 345 }

Position-from_str-display_example : Position.from_str (Position.display place) ≡ ok place
Position-from_str-display_example = Position-from_str-display place (omega arith)

Position-from_str-canonical_example : (codes "12@345" ≡ Position.display place) × InRange place
unfolding Position.from_str parse_canonical_decimal
Position-from_str-canonical_example = Position-from_str-canonical (codes "12@345") {p = place} refl

SnapshotId-from_str-display_example : SnapshotId.from_str (SnapshotId.display 0xbeef) ≡ ok 0xbeef
SnapshotId-from_str-display_example = SnapshotId-from_str-display 0xbeef (omega arith)

SnapshotId-from_str-canonical_example :
    (SnapshotId.display 0xbeef ≡ codes "0000000000000000000000000000beef") × (0xbeef ≤ u128_max)
unfolding SnapshotId.from_str
SnapshotId-from_str-canonical_example =
    SnapshotId-from_str-canonical (codes "0000000000000000000000000000beef") {id = 0xbeef} refl

WriteExpect-from_str-display_example :
    WriteExpect.from_str (WriteExpect.display (snapshot 5)) ≡ ok (snapshot 5)
WriteExpect-from_str-display_example = WriteExpect-from_str-display (snapshot 5) (omega arith)

WriteExpect-from_str-canonical_example :
    (WriteExpect.display absent ≡ codes "absent") × WriteExpect.InRange absent
unfolding WriteExpect.from_str
WriteExpect-from_str-canonical_example =
    WriteExpect-from_str-canonical (codes "absent") {e = absent} refl

validate_text_iff_example : (validate_text greek ≡ ok greek) ↔ IsText greek
validate_text_iff_example = validate_text_iff greek
