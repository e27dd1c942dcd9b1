-- ===== src/Search/Grep/Files.antt =====
-- The search of one file and of a tree in src/grep.rs, and the whole request. The regular expressions of
-- `grep-regex` and `grep-searcher` are a parameter, and the walk of the `ignore` crate a call.
pub mod Walk
use hashline_rs.Prelude.{
  ℕ, ◌+◌, ◌-◌, Bool, true, false, ◌||◌, List, [], ◌∷◌, ◌++◌, Option, none, some, if◌then◌else◌, ltb,
  ◌==◌, Result, ok, err, map_err, Bytes, codes,
}
use hashline_rs.Crates.{Crates}
use hashline_rs.Paths.{FilePath, display}
use hashline_rs.Protocol.Errors.{
  ContractError, nul_file, invalid_utf8, invalid_grep_limit, max_grep_matches, ProtocolError, from,
  new, not_found, permission_denied,
}
use hashline_rs.Protocol.Errors
use hashline_rs.Protocol.Requests.{GrepOutputMode, out_of_range}
use hashline_rs.Protocol.Text.{validate_text}
use hashline_rs.Snapshot.{IoError, ErrorKind, not_found_kind, permission_denied_kind}
use hashline_rs.Search.Grep.{FileHit, render_hit}

-- What the searcher reports of a text: the line number of each `matched` callback, and whether it found
-- the text binary; `none` where it fails.
abbrev pub Searcher : Type 0
Searcher = Bytes → Option (List (Option ℕ) × Bool)

-- `self.lines.last() != Some(&number)`, negated
abbrev pub last_is : ℕ → List ℕ → Bool
last_is n [] = false
last_is n (m ∷ []) = m == n
last_is n (m ∷ k ∷ ms) = last_is n (k ∷ ms)

-- `MatchLineSink::matched`
unfoldable pub push_match : List ℕ → Option ℕ → List ℕ
push_match lines none = lines
push_match lines (some number) = if last_is number lines then lines else lines ++ number ∷ []

unfoldable pub push_matches : List ℕ → List (Option ℕ) → List ℕ
unfolding push_match
push_matches lines [] = lines
push_matches lines (number ∷ numbers) = push_matches (push_match lines number) numbers

abbrev sunk : List (Option ℕ) × Bool → Option (List ℕ)
sunk (numbers, true) = none
sunk (numbers, false) = some (push_matches [] numbers)

unfoldable pub match_lines : Searcher → Bytes → Option (List ℕ)
unfolding push_matches
match_lines searcher text = elim (searcher text) [ none ↦ none | some reported ↦ sunk reported ]

pub data GrepTarget : Type 0 where
  explicit_file tree_entry : GrepTarget

pub data GrepText : Type 0 where
  search : Bytes → GrepText
  skip_binary skip_invalid_utf8 : GrepText

abbrev skip_or_fail : GrepTarget → ContractError → Result ContractError GrepText
skip_or_fail tree_entry (nul_file at) = ok skip_binary
skip_or_fail tree_entry (invalid_utf8 at) = ok skip_invalid_utf8
skip_or_fail target e = err e

unfoldable pub classify_grep_text : Bytes → GrepTarget → Result ContractError GrepText
classify_grep_text bytes target = elim (validate_text bytes) [
  | ok text ↦ ok (search text)
  | err e ↦ skip_or_fail target e
]

unfoldable pub remaining_match_capacity : ℕ → ℕ → Result ContractError ℕ
remaining_match_capacity max_matches reported_matches =
    if out_of_range max_grep_matches max_matches
    then err (invalid_grep_limit max_matches)
    else ok (max_matches - reported_matches)

-- the match on `source.kind()`
abbrev read_error : FilePath → ErrorKind → Bytes → ProtocolError
read_error path not_found_kind text = new not_found (codes "File not found: " ++ display path)
read_error path permission_denied_kind text =
    new permission_denied
      (codes "Permission denied reading " ++ (display path ++ (codes ": " ++ text)))
read_error path _ text =
    new Errors.io (codes "Failed to read " ++ (display path ++ (codes ": " ++ text)))

unfoldable pub explicit_read_error : FilePath → IoError → ProtocolError
explicit_read_error path source = read_error path source.error_kind source.text

-- the two shared counters
pub record Skipped : Type 0 where
  pub binary : ℕ
  pub invalid_utf8 : ℕ

abbrev pub no_skips : Skipped
no_skips = record { binary = 0; invalid_utf8 = 0 }

pub record SearchOptions : Type 0 where
  pub before : ℕ
  pub after : ℕ
  pub mode : GrepOutputMode

-- from the matches on
abbrev hit_of : Crates → SearchOptions → FilePath → Bytes → Option (List ℕ) → Option FileHit
hit_of c o rel bytes none = none
hit_of c o rel bytes (some []) = none
hit_of c o rel bytes (some (m ∷ ms)) = render_hit c bytes rel (m ∷ ms) o.before o.after o.mode

-- the match on the classified text
abbrev pub search_text :
    Crates
    → Searcher
    → SearchOptions
    → FilePath
    → Bytes
    → Skipped
    → Result ContractError GrepText
    → Result ProtocolError (Option FileHit) × Skipped
search_text c searcher o rel bytes skipped (ok (search text)) =
    (ok (hit_of c o rel bytes (match_lines searcher text)), skipped)
search_text c searcher o rel bytes skipped (ok skip_binary) =
    (ok none, record skipped { binary = binary + 1 })
  where
    open skipped use {binary}
search_text c searcher o rel bytes skipped (ok skip_invalid_utf8) =
    (ok none, record skipped { invalid_utf8 = skipped.invalid_utf8 + 1 })
search_text c searcher o rel bytes skipped (err e) = (err (from e), skipped)

-- `search_file`, given what `std::fs::read` has answered
unfoldable pub search_file :
    Crates
    → Searcher
    → SearchOptions
    → FilePath
    → FilePath
    → GrepTarget
    → Skipped
    → Result IoError Bytes
    → Result ProtocolError (Option FileHit) × Skipped
unfolding match_lines classify_grep_text explicit_read_error
search_file c searcher o path rel explicit_file skipped (err source) =
    (err (explicit_read_error path source), skipped)
search_file c searcher o path rel tree_entry skipped (err source) = (ok none, skipped)
search_file c searcher o path rel target skipped (ok bytes) =
    search_text c searcher o rel bytes skipped (classify_grep_text bytes target)
