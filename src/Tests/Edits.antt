-- ===== src/Tests/Edits.antt =====
-- Edit batches, snapshots and the engine.
use hashline_rs.Prelude.{◌≡◌, refl, none, ok, map_err, codes, position, arith, inl}
use hashline_rs.Crates.{plain_crates, plain_crates-laws}
use hashline_rs.Protocol.Codec.Position.{Position}
use hashline_rs.Protocol.Errors.{validate_file_size}
use hashline_rs.Protocol.Text.{validate_text, from_utf8}
use hashline_rs.Protocol.Lines
use hashline_rs.Protocol.Lines.{reference_line_starts}
use hashline_rs.Protocol.Edits.{apply_reference_edits, validate_operation}
use hashline_rs.Protocol.Edits.Accepted.{Outcome, apply_reference_edits-Outcome}
use hashline_rs.Protocol.Versioned.{apply_versioned_reference_edits}
use hashline_rs.Snapshot.{
  Snapshot, boundary_ordinal, contract, content_id, from_bytes, try_from_bytes,
}
use hashline_rs.Snapshot.Agreement.{
  WellFormed, from_bytes-WellFormed, try_from_bytes-validate_text, boundary_ordinal-reference,
}
use hashline_rs.Engine.{apply_edits_fast}
use hashline_rs.Engine.Refinement.{apply_edits_fast-reference}
use hashline_rs.Tests.Samples.{
  greek, greek-valid, greek-IsText, replacements, replacements-text, edit_request,
}

apply_reference_edits-Outcome_example : Outcome greek replacements (codes "alpha\nins\nX\ngamma\n")
unfolding apply_reference_edits validate_text reference_line_starts validate_operation
    Lines.boundary_ordinal validate_file_size position from_utf8
apply_reference_edits-Outcome_example =
    apply_reference_edits-Outcome greek replacements replacements-text refl

try_from_bytes-validate_text_example : try_from_bytes plain_crates greek ≡ validate_text greek
try_from_bytes-validate_text_example =
    try_from_bytes-validate_text plain_crates plain_crates-laws greek

from_bytes-WellFormed_example :
    (s : Snapshot) × (from_bytes plain_crates greek ≡ ok s)
    × WellFormed plain_crates s
    × (s.text ≡ greek)
    × (s.stamp ≡ none)
from_bytes-WellFormed_example =
    from_bytes-WellFormed plain_crates plain_crates-laws greek greek-IsText

abbrev pub greek_snapshot : Snapshot
greek_snapshot = record {
  text = greek;
  id = 7;
  stamp = none;
  byte_len = 17;
  line_count = 4;
  offsets = none;
}

pub greek_snapshot-WellFormed : WellFormed plain_crates greek_snapshot
unfolding content_id reference_line_starts
greek_snapshot-WellFormed = record {
  valid = greek-valid;
  id_eq = refl;
  byte_len_eq = refl;
  line_count_eq = refl;
  cell = inl refl;
}

abbrev misplaced : Position
misplaced = record { line = 2; byte = 5 }

boundary_ordinal-reference_example :
    boundary_ordinal plain_crates greek_snapshot misplaced
    ≡ map_err contract (Lines.boundary_ordinal greek (reference_line_starts greek) misplaced)
boundary_ordinal-reference_example =
    boundary_ordinal-reference plain_crates plain_crates-laws greek_snapshot
      greek_snapshot-WellFormed misplaced (omega arith)

apply_edits_fast-reference_example :
    apply_edits_fast plain_crates greek_snapshot edit_request
    ≡ apply_versioned_reference_edits greek 7 edit_request
apply_edits_fast-reference_example =
    apply_edits_fast-reference plain_crates plain_crates-laws greek_snapshot
      greek_snapshot-WellFormed edit_request (omega arith)
