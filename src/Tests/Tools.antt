-- ===== src/Tests/Tools.antt =====
-- The edit and write tools.
use hashline_rs.Prelude.{refl, [], codes, arith}
use hashline_rs.Crates.{plain_crates, plain_crates-laws}
use hashline_rs.Os.Always.{Always}
use hashline_rs.Protocol.Codec.WriteExpect.{snapshot}
use hashline_rs.Protocol.Requests.{WriteRequest}
use hashline_rs.Protocol.Text.{from_utf8}
use hashline_rs.Protocol.Text.Splice.{from_utf8→IsUtf8}
use hashline_rs.Tools.Edit
use hashline_rs.Tools.Edit.Requested.{EditRequested, run-EditRequested}
use hashline_rs.Tools.Write
use hashline_rs.Tools.Write.Requested.{WriteRequested, run-WriteRequested}
use hashline_rs.Tests.Samples.{replacements-text, edit_request, workspace}

run-EditRequested_example :
    Always
      (EditRequested plain_crates workspace edit_request)
      []
      (Edit.run plain_crates 9 workspace edit_request)
run-EditRequested_example =
    run-EditRequested plain_crates plain_crates-laws workspace edit_request replacements-text
      (omega arith) 9

abbrev overwrite : WriteRequest
overwrite = record { file_path = codes "a.txt"; content = codes "new\n"; expect = snapshot 7 }

run-WriteRequested_example :
    Always
      (WriteRequested plain_crates workspace overwrite)
      []
      (Write.run plain_crates 9 workspace overwrite)
unfolding from_utf8
run-WriteRequested_example =
    run-WriteRequested plain_crates plain_crates-laws workspace overwrite
      (from_utf8→IsUtf8 (codes "new\n") refl) 9
