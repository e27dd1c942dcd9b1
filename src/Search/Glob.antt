-- ===== src/Search/Glob.antt =====
-- `glob::run` of src/glob.rs, with the order and the summary of src/protocol.rs. The directory walk of
-- the `ignore` crate is a call, and the matcher of `globset` a parameter.
pub mod Listing
use Prim.Native.Nat.{compare, Ordering}
use hashline_rs.Prelude.{
  ℕ, Bool, true, false, not, ◌&&◌, List, [], ◌∷◌, ◌++◌, Option, none, some, if◌then◌else◌, ltb,
  ◌==◌, Result, ok, err, map_err, Bytes, codes, length, take, get_or, bytes_eq, ◌-◌,
}
use hashline_rs.Prelude.Sorting.{then_with, list_cmp, not_greater, sort_by}
use hashline_rs.Paths.{FilePath, strip_prefix, display}
use hashline_rs.Os.{
  Task, ret, call, ◌>>=◌, ◌>>◌, file_type, walk, FileType, directory, regular, WalkEntry,
}
use hashline_rs.Protocol.Codec.Decimal.{decimal}
use hashline_rs.Protocol.Errors.{ProtocolError, from, new, not_found, not_a_file, invalid_pattern}
use hashline_rs.Protocol.Requests.{GlobRequest, validate_glob}
use hashline_rs.Protocol.Text.{from_utf8}
use hashline_rs.Snapshot.{IoError}
use hashline_rs.Snapshot.Stamp.{ℤ, pos, negsuc}
use hashline_rs.Workspace.{Workspace, resolve_workspace_path}

-- `GlobBuilder::new(pattern).literal_separator(true).build()`: a matcher, or the text of an error
abbrev pub GlobCompiler : Type 0
GlobCompiler = Bytes → Result Bytes (FilePath → Bool)

pub record GlobEntry : Type 0 where
  pub path : Bytes
  pub modified : ℤ

abbrev pub ℤ_cmp : ℤ → ℤ → Ordering
ℤ_cmp (pos a) (pos b) = compare a b
ℤ_cmp (pos a) (negsuc b) = Ordering.gt
ℤ_cmp (negsuc a) (pos b) = Ordering.lt
ℤ_cmp (negsuc a) (negsuc b) = compare b a

-- the closure of `sort_by`
abbrev pub entry_cmp : GlobEntry → GlobEntry → Ordering
entry_cmp left right =
    then_with (ℤ_cmp right.modified left.modified) (list_cmp compare left.path right.path)

unfoldable pub sort_reference_glob_entries : List GlobEntry → List GlobEntry
unfolding sort_by
sort_reference_glob_entries entries = sort_by (λ a b. not_greater (entry_cmp a b)) entries

abbrev pub bool_text : Bool → Bytes
bool_text true = codes "true"
bool_text false = codes "false"

pub record GlobSummary : Type 0 where
  pub files : ℕ
  pub truncated : Bool

-- `GlobSummary::render`
unfoldable pub render_summary : GlobSummary → Bytes
render_summary s =
    codes "[hashline files="
    ++ (decimal s.files ++ (codes " truncated=" ++ (bool_text s.truncated ++ codes "]")))

-- `Path::new(prefix).join(relative)` as a text, of a relative path
unfoldable pub join_text : Bytes → Bytes → Bytes
join_text prefix relative =
    if bytes_eq prefix []
    then relative
    else if get_or prefix (length prefix - 1) 0 == b'/'
    then prefix ++ relative
    else prefix ++ b'/' ∷ relative

abbrev or_epoch : Option ℤ → ℤ
or_epoch none = pos 0
or_epoch (some time) = time

abbrev is_regular : Option FileType → Bool
is_regular (some regular) = true
is_regular _ = false

-- the path to show, where it is UTF-8
abbrev shown_path : Option Bytes → FilePath → Bytes
shown_path none relative = display relative
shown_path (some prefix) relative = join_text prefix (display relative)

entry_at : Bytes → Option ℤ → Option GlobEntry
entry_at path modified = elim (from_utf8 path) [
  | some invalid ↦ none
  | none ↦ some (record { path = path; modified = or_epoch modified })
]

-- the body of the loop over the walk: the entry that is pushed, where there is one
unfoldable pub entry_of :
    (FilePath → Bool) → FilePath → Option Bytes → Option WalkEntry → Option GlobEntry
unfolding entry_at join_text
entry_of matches root prefix none = none
entry_of matches root prefix (some entry) =
    if not (is_regular entry.entry_type) then none else elim (strip_prefix entry.entry_path root) [
      | none ↦ none
      | some relative ↦
          if not (matches relative)
          then none
          else entry_at (shown_path prefix relative) entry.modified
    ]

unfoldable pub entries_of :
    (FilePath → Bool) → FilePath → Option Bytes → List (Option WalkEntry) → List GlobEntry
unfolding entry_of
entries_of matches root prefix [] = []
entries_of matches root prefix (entry ∷ walked) =
    let rest = entries_of matches root prefix walked in
    elim (entry_of matches root prefix entry) [ none ↦ rest | some found ↦ found ∷ rest ]

abbrev pub lines_of : List GlobEntry → Bytes
lines_of [] = []
lines_of (entry ∷ entries) = entry.path ++ b'\n' ∷ lines_of entries

-- behind the walk: order, cap, lines and summary
unfoldable pub render_listing : ℕ → List GlobEntry → Bytes
unfolding sort_reference_glob_entries render_summary
render_listing cap entries =
    let reported = take cap (sort_reference_glob_entries entries) in
    lines_of reported
    ++ render_summary (record { files = length reported; truncated = ltb cap (length entries) })

-- `input.path.as_deref().filter(|path| *path != ".")`
abbrev pub display_prefix : Option Bytes → Option Bytes
display_prefix none = none
display_prefix (some path) = if bytes_eq path (codes ".") then none else some path

-- `unwrap_or(".")`
abbrev pub or_dot : Option Bytes → Bytes
or_dot none = codes "."
or_dot (some path) = path

-- the checks on the metadata of the root of the walk
unfoldable pub check_directory :
    FilePath → Result IoError FileType → Result ProtocolError (Unit {0})
check_directory root (err e) = err (new not_found (codes "Glob path not found: " ++ display root))
check_directory root (ok directory) = ok tt
check_directory root (ok _) =
    err (new not_a_file (codes "Glob path is not a directory: " ++ display root))

-- the text of a refused pattern
abbrev pub pattern_error : Bytes → Bytes → ProtocolError
pattern_error pattern text =
    new invalid_pattern (codes "Invalid glob pattern \"" ++ (pattern ++ (codes "\": " ++ text)))

-- behind the resolution of the root
unfoldable pub list_walk : GlobRequest → (FilePath → Bool) → FilePath → Task ProtocolError Bytes
unfolding check_directory entries_of render_listing
list_walk input matches root = do
  call (file_type root) (λ meta. ret (check_directory root meta))
  call (walk root) (λ walked. ret (
      ok (
        render_listing input.max_results
          (entries_of matches root (display_prefix input.path) walked))))

-- `glob::run`
unfoldable pub run : GlobCompiler → Workspace → GlobRequest → Task ProtocolError Bytes
unfolding validate_glob list_walk
run compile w input = do
  ret (map_err from (validate_glob input))
  matches ← ret (map_err (pattern_error input.pattern) (compile input.pattern))
  root ← resolve_workspace_path w (or_dot input.path)
  list_walk input matches root
