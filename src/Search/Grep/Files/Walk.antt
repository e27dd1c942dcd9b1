-- ===== src/Search/Grep/Files/Walk.antt =====
-- The tree walk of src/grep.rs. The workers' visits are taken in the order in which they
-- change the shared state; which entries are visited, and by whom, is the walker's matter, also behind
-- a visit that asks it to stop.
use Prim.Native.Nat.{compare}
use hashline_rs.Prelude.{
  ℕ, ◌+◌, Bool, true, false, not, List, [], ◌∷◌, ◌++◌, map, Option, none, some, if◌then◌else◌, ltb,
  Result, ok, err, Bytes,
}
use hashline_rs.Prelude.Sorting.{list_cmp, not_greater, sort_by}
use hashline_rs.Crates.{Crates}
use hashline_rs.Paths.{Component, cur_dir, parent_dir, normal, FilePath, strip_prefix}
use hashline_rs.Os.{Task, ret, call, ◌>>=◌, read_file, FileType, regular, WalkEntry}
use hashline_rs.Protocol.Errors.{ProtocolError}
use hashline_rs.Snapshot.{IoError}
use hashline_rs.Search.Grep.{FileHit}
use hashline_rs.Search.Grep.Report.{assemble_output}
use hashline_rs.Search.Grep.Files.{
  Searcher, Skipped, no_skips, SearchOptions, tree_entry, search_file,
}

-- The state that the workers of one walk share, with the hits that they hand over.
pub record Walking : Type 0 where
  pub total : ℕ
  pub skipped : Skipped
  pub error : Option ProtocolError
  pub hits : List FileHit

pub data WalkState : Type 0 where
  continue quit : WalkState

-- `SearchContext`, as far as it does not change
pub record SearchContext : Type 0 where
  pub searcher : Searcher
  pub root : FilePath
  pub options : SearchOptions
  pub quit_threshold : ℕ

-- `strip_prefix(root).unwrap_or(path)`
abbrev pub relative_to : FilePath → FilePath → FilePath
relative_to root path = elim (strip_prefix path root) [ none ↦ path | some rel ↦ rel ]

-- the first error is kept
abbrev pub first_error : Option ProtocolError → ProtocolError → Option ProtocolError
first_error none e = some e
first_error (some first) e = some first

-- the match on the result of `search_file`
unfoldable pub settle_visit :
    SearchContext → Walking → Result ProtocolError (Option FileHit) × Skipped → Walking × WalkState
settle_visit ctx w (ok (some hit), skipped) = (
  record {
    total = w.total + hit.matches;
    skipped = skipped;
    error = w.error;
    hits = w.hits ++ hit ∷ [];
  },
  if ltb ctx.quit_threshold (w.total + hit.matches) then quit else continue,
)
settle_visit ctx w (ok none, skipped) = (record w { skipped = skipped }, continue)
settle_visit ctx w (err e, skipped) = (
  record { total = w.total; skipped = skipped; error = first_error w.error e; hits = w.hits },
  quit,
)

abbrev pub is_file : Option FileType → Bool
is_file (some regular) = true
is_file _ = false

-- A visited entry: one that is passed over, or a file with what reading it has answered.
pub data Visit : Type 0 where
  passed : Visit
  read : FilePath → Result IoError Bytes → Visit

-- `GrepVisitor::visit`
unfoldable pub visit : Crates → SearchContext → Walking → Visit → Walking × WalkState
unfolding search_file settle_visit
visit c ctx w passed = (w, continue)
visit c ctx w (read path answer) = settle_visit ctx w (
    search_file c ctx.searcher ctx.options path (relative_to ctx.root path) tree_entry w.skipped
      answer)

unfoldable pub visit_all : Crates → SearchContext → List Visit → Walking → Walking
unfolding visit
visit_all c ctx [] w = w
visit_all c ctx (v ∷ visits) w = visit_all c ctx visits (visit c ctx w v).0

-- the reading of an entry, where the walker has not failed on it and it is a regular file
unfoldable pub visit_of : Option WalkEntry → Task ProtocolError Visit
visit_of none = ret (ok passed)
visit_of (some entry) =
    if not (is_file entry.entry_type)
    then ret (ok passed)
    else call (read_file entry.entry_path) (λ answer. ret (ok (read entry.entry_path answer)))

unfoldable pub visit_walk :
    Crates → SearchContext → List (Option WalkEntry) → Walking → Task ProtocolError Walking
unfolding visit_of visit
visit_walk c ctx [] w = ret (ok w)
visit_walk c ctx (entry ∷ entries) w =
    visit_of entry >>= λ v. visit_walk c ctx entries (visit c ctx w v).0

-- how the standard library orders components: the root, `.`, `..`, then names by their bytes
abbrev component_key : Component → Bytes
component_key cur_dir = 1 ∷ []
component_key parent_dir = 2 ∷ []
component_key (normal name) = 3 ∷ name

abbrev pub path_key : FilePath → List Bytes
path_key p =
    if p.absolute then (0 ∷ []) ∷ map component_key p.components else map component_key p.components

-- `a.rel.cmp(&b.rel)`
abbrev pub rel_le : FileHit → FileHit → Bool
rel_le a b = not_greater (list_cmp (list_cmp compare) (path_key a.rel) (path_key b.rel))

-- behind the walk
unfoldable pub finish_walk : SearchContext → ℕ → Walking → Result ProtocolError Bytes
unfolding assemble_output sort_by
finish_walk ctx max_matches w = elim w.error [
  | some e ↦ err e
  | none ↦ ok (
      assemble_output ctx.options.mode (sort_by rel_le w.hits) max_matches w.skipped.binary
        w.skipped.invalid_utf8)
]

abbrev pub fresh_walk : Walking
fresh_walk = record { total = 0; skipped = no_skips; error = none; hits = [] }
