-- ===== src/Tests/Samples.antt =====
-- The texts and requests of the other tests.
use hashline_rs.Prelude.{true, ◌≡◌, refl, List, [], ◌∷◌, ok, Bytes, codes, position, All}
use hashline_rs.Protocol.Text.{validate_text, from_utf8}
use hashline_rs.Protocol.Text.Policy.{IsText, validate_text→IsText}
use hashline_rs.Protocol.Edits.{EditOperation}
use hashline_rs.Protocol.Edits.Validated.{HasText}
use hashline_rs.Protocol.Text.Splice.{from_utf8→IsUtf8}
use hashline_rs.Protocol.Requests.{EditRequest}
use hashline_rs.Paths.{new}
use hashline_rs.Persist.{full}
use hashline_rs.Workspace.{Workspace}

abbrev pub greek : Bytes
greek = codes "alpha\nbeta\ngamma\n"

pub greek-valid : validate_text greek ≡ ok greek
unfolding validate_text position from_utf8
greek-valid = refl

pub greek-IsText : IsText greek
greek-IsText = (validate_text→IsText greek greek-valid).0

-- the second line replaced, and a line put in before it
abbrev pub replacements : List EditOperation
replacements =
    (record {
      start = record { line = 2; byte = 6 };
      end = record { line = 3; byte = 11 };
      content = codes "X\n";
    })
    ∷ (record {
      start = record { line = 2; byte = 6 };
      end = record { line = 2; byte = 6 };
      content = codes "ins\n";
    })
    ∷ []

pub replacements-text : All HasText replacements
unfolding from_utf8
replacements-text =
    (from_utf8→IsUtf8 (codes "X\n") refl, (from_utf8→IsUtf8 (codes "ins\n") refl, tt))

abbrev pub edit_request : EditRequest
edit_request = record { file_path = codes "a.txt"; snapshot = 7; edits = replacements }

-- a restricted workspace
abbrev pub workspace : Workspace
workspace = record { root = new (codes "/w"); restrict = true; durability = full }
