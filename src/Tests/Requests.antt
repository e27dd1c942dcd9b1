-- ===== src/Tests/Requests.antt =====
-- Requests and what they are refused with.
use hashline_rs.Prelude.{◌≡◌, ◌↔◌, refl, false, none, some, err, ok, codes, List, position, arith}
use hashline_rs.Protocol.Codec.WriteExpect.{absent, snapshot}
use hashline_rs.Protocol.Errors.{ProtocolError, ContextLine}
use hashline_rs.Protocol.Requests.{
  GrepRequest, WriteRequest, PageCursor, content, validate_grep, validate_edit, validate_write,
}
use hashline_rs.Protocol.Requests.Limits.{IsGrepRequest, validate_grep_iff}
use hashline_rs.Protocol.Context.{reference_context}
use hashline_rs.Protocol.Context.Window.{IsWindow, reference_context-IsWindow}
use hashline_rs.Protocol.Versioned.{
  apply_versioned_reference_edits, validate_reference_cursor, validate_reference_write,
}
use hashline_rs.Protocol.Versioned.Conflicts.{
  current_header, IsConflict, IsExisting, apply_versioned_reference_edits-stale,
  validate_reference_cursor-stale, validate_reference_write-exists, validate_reference_write-stale,
}
use hashline_rs.Tests.Samples.{greek, greek-IsText, edit_request}

abbrev search_request : GrepRequest
search_request = record {
  pattern = codes "x";
  path = none;
  glob = none;
  ignore_case = false;
  before_context = none;
  after_context = some 2;
  context = none;
  max_matches = 10;
  output_mode = content;
}

validate_grep_iff_example : (validate_grep search_request ≡ ok tt) ↔ IsGrepRequest search_request
validate_grep_iff_example = validate_grep_iff search_request

reference_context-IsWindow_example :
    (context : List ContextLine) × (reference_context greek 4 ≡ ok context)
    × IsWindow greek 4 context
reference_context-IsWindow_example = reference_context-IsWindow greek 4 greek-IsText

apply_versioned_reference_edits-stale_example :
    (e : ProtocolError) × (apply_versioned_reference_edits greek 8 edit_request ≡ err e)
    × IsConflict 7 (current_header (codes "a.txt") 8 greek) greek 2 e
unfolding validate_edit position
apply_versioned_reference_edits-stale_example =
    apply_versioned_reference_edits-stale greek 8 greek-IsText edit_request refl (omega arith)

abbrev old_cursor : PageCursor
old_cursor = record { snapshot = 7; next = record { line = 2; byte = 6 } }

validate_reference_cursor-stale_example :
    (e : ProtocolError) × (validate_reference_cursor (codes "a.txt") greek 8 old_cursor ≡ err e)
    × IsConflict 7 (current_header (codes "a.txt") 8 greek) greek 2 e
validate_reference_cursor-stale_example =
    validate_reference_cursor-stale greek 8 greek-IsText (codes "a.txt") old_cursor (omega arith)

abbrev new_file : WriteRequest
new_file = record { file_path = codes "a.txt"; content = codes "x\n"; expect = absent }

validate_reference_write-exists_example :
    (e : ProtocolError) × (validate_reference_write (some (greek, 8)) new_file ≡ err e)
    × IsExisting (current_header (codes "a.txt") 8 greek) greek e
unfolding validate_write position
validate_reference_write-exists_example =
    validate_reference_write-exists greek 8 greek-IsText new_file refl refl

abbrev old_write : WriteRequest
old_write = record new_file { expect = snapshot 5 }

validate_reference_write-stale_example :
    (e : ProtocolError) × (validate_reference_write (some (greek, 8)) old_write ≡ err e)
    × IsConflict 5 (current_header (codes "a.txt") 8 greek) greek 1 e
unfolding validate_write position
validate_reference_write-stale_example =
    validate_reference_write-stale greek 8 greek-IsText old_write 5 refl refl (omega arith)
