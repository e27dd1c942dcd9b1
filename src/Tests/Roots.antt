-- ===== src/Tests/Roots.antt =====
-- A client that names its roots, and one that calls a tool.
use hashline_rs.Prelude.{true, false, [], ◌∷◌, some, ok, err, refl, codes, ◌+◌, arith}
use hashline_rs.Crates.{plain_crates}
use hashline_rs.Search.Grep.Request.{GrepCrates}
use hashline_rs.Server.Dispatch.{Json, dispatch}
use hashline_rs.Server.Dispatch.ReadOnly.{OnlyRead, dispatch-OnlyRead}
use hashline_rs.Tests.Searches.{match_all, all_files}
use hashline_rs.Os.Ending.{Ends}
use hashline_rs.Protocol.Errors.{max_file_bytes}
use hashline_rs.Server.Dispatch.Ending.{dispatch-Ends}
use hashline_rs.Os.Always.{Always}
use hashline_rs.Paths.{new}
use hashline_rs.Persist.{full}
use hashline_rs.Server.{HashlineServer, Peer, adopt_client_roots}
use hashline_rs.Server.Roots.{Adopted, adopt_client_roots-Adopted}

abbrev server : HashlineServer
server = record { root = new (codes "/w"); root_pinned = false; restrict = true; durability = full }

abbrev peer : Peer
peer = record {
  advertises_roots = some true;
  list_roots = ok (codes "https://example.com/x" ∷ codes "file:///home/p" ∷ []);
}

adopt_client_roots-Adopted_example :
    Always (Adopted (λ s. s) server peer) [] (adopt_client_roots (λ s. s) server peer)
adopt_client_roots-Adopted_example = adopt_client_roots-Adopted (λ s. s) server peer

-- arguments that are those of a glob
abbrev json : Json (Unit {0})
json = record {
  read_arguments = λ v. err [];
  edit_arguments = λ v. err [];
  write_arguments = λ v. err [];
  grep_arguments = λ v. err [];
  glob_arguments = λ v. ok all_files;
  pretty_error = λ e. ok e.message;
  pretty_edit = λ s. ok [];
  pretty_write = λ s. ok [];
}

abbrev no_grep : GrepCrates
no_grep = record { build_matcher = λ pattern fold. err []; build_overrides = λ root glob. err [] }

dispatch-OnlyRead_example :
    Always OnlyRead [] (dispatch plain_crates no_grep match_all json 9 server (codes "glob") tt)
dispatch-OnlyRead_example =
    dispatch-OnlyRead plain_crates no_grep match_all json 9 server (codes "glob") tt refl

-- with at most five interruptions
dispatch-Ends_example :
    Ends 5
      (dispatch plain_crates no_grep match_all json (max_file_bytes + 7) server (codes "glob") tt)
dispatch-Ends_example =
    dispatch-Ends plain_crates no_grep match_all json (max_file_bytes + 7) server 5 (codes "glob")
      tt (omega arith)
