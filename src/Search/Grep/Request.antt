-- ===== src/Search/Grep/Request.antt =====
-- `grep::run` of src/grep.rs, with the crates that it calls as parameters.
use hashline_rs.Prelude.{
  ℕ, ◌*◌, Bool, true, false, List, [], ◌∷◌, ◌++◌, Option, none, some, if◌then◌else◌, min, max,
  Result, ok, err, map_err, Bytes, codes, u64_max,
}
use hashline_rs.Crates.{Crates}
use hashline_rs.Paths.{Component, normal, FilePath, display}
use hashline_rs.Os.{Task, ret, call, ◌>>=◌, ◌>>◌, file_type, walk, read_file, FileType, regular}
use hashline_rs.Protocol.Errors.{ProtocolError, from, new, not_found, invalid_pattern}
use hashline_rs.Protocol.Requests.{GrepRequest, effective_context, validate_grep}
use hashline_rs.Snapshot.{IoError}
use hashline_rs.Workspace.{Workspace, resolve_workspace_path}
use hashline_rs.Search.Glob.{or_dot}
use hashline_rs.Search.Grep.{FileHit}
use hashline_rs.Search.Grep.Report.{assemble_output}
use hashline_rs.Search.Grep.Files.{
  Searcher, Skipped, no_skips, SearchOptions, explicit_file, search_file,
}
use hashline_rs.Search.Grep.Files.Walk.{SearchContext, visit_walk, finish_walk, fresh_walk}

-- `build_matcher` with the searcher that runs it, and the compilation of the glob override: the text of
-- an error, or what they make
pub record GrepCrates : Type 0 where
  pub build_matcher : Bytes → Bool → Result Bytes Searcher
  pub build_overrides : FilePath → Bytes → Result Bytes (Unit {0})

abbrev last_name : List Component → Option FilePath
last_name [] = none
last_name (normal name ∷ []) = some (record { absolute = false; components = normal name ∷ [] })
last_name (c ∷ []) = none
last_name (c ∷ d ∷ cs) = last_name (d ∷ cs)

-- `file_name().map_or_else(..)`
unfoldable pub section_name : FilePath → FilePath
section_name root = elim (last_name root.components) [ none ↦ root | some name ↦ name ]

-- the hits of a single file
abbrev hits_of : Option FileHit → List FileHit
hits_of none = []
hits_of (some hit) = hit ∷ []

abbrev single_report :
    SearchOptions → ℕ → Result ProtocolError (Option FileHit) × Skipped → Result ProtocolError Bytes
single_report o max_matches (err e, skipped) = err e
single_report o max_matches (ok found, skipped) =
    ok (assemble_output o.mode (hits_of found) max_matches skipped.binary skipped.invalid_utf8)

-- the search of a path that is a file
unfoldable pub search_single :
    Crates → Searcher → SearchOptions → ℕ → FilePath → Task ProtocolError Bytes
unfolding search_file section_name assemble_output
search_single c searcher o max_matches root = call (read_file root) (λ answer. ret (
    single_report o max_matches
      (search_file c searcher o root (section_name root) explicit_file no_skips answer)))

abbrev pub check_overrides : GrepCrates → FilePath → Option Bytes → Result ProtocolError (Unit {0})
check_overrides g root none = ok tt
check_overrides g root (some glob) =
    map_err
      (λ text. new invalid_pattern (codes "Invalid glob \"" ++ (glob ++ (codes "\": " ++ text))))
      (g.build_overrides root glob)

-- the search of a tree
unfoldable pub search_tree :
    Crates
    → GrepCrates
    → Searcher
    → GrepRequest
    → ℕ
    → FilePath
    → SearchOptions
    → Task ProtocolError Bytes
unfolding visit_walk finish_walk
search_tree c g searcher input max_matches root o = do
  ret (check_overrides g root input.glob)
  let ctx : SearchContext = record {
    searcher = searcher;
    root = root;
    options = o;
    quit_threshold = min (max_matches * 8) u64_max;
  }
  call (walk root)
      (λ entries. visit_walk c ctx entries fresh_walk >>= λ w. ret (finish_walk ctx max_matches w))

abbrev pub check_found : FilePath → Result IoError FileType → Result ProtocolError Bool
check_found root (err e) = err (new not_found (codes "Search path not found: " ++ display root))
check_found root (ok regular) = ok true
check_found root (ok _) = ok false

-- `grep::run`
unfoldable pub run : Crates → GrepCrates → Workspace → GrepRequest → Task ProtocolError Bytes
unfolding validate_grep effective_context search_single search_tree
run c g w input = do
  ret (map_err from (validate_grep input))
  searcher ← ret (
      map_err
        (λ text.
          new invalid_pattern
            (codes "Invalid regex pattern \"" ++ (input.pattern ++ (codes "\": " ++ text))))
        (g.build_matcher input.pattern input.ignore_case))
  let (before, after) = effective_context input
  let o : SearchOptions = record { before = before; after = after; mode = input.output_mode }
  let max_matches = max input.max_matches 1
  root ← resolve_workspace_path w (or_dot input.path)
  single ← call (file_type root) (λ meta. ret (check_found root meta))
  if single
      then search_single c searcher o max_matches root
      else search_tree c g searcher input max_matches root o
