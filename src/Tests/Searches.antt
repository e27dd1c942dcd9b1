-- ===== src/Tests/Searches.antt =====
-- Globs and greps.
use mathlib.Core.List.{Permᴰ, Mem, not-mem-nil, eq-or-mem_of_mem-cons}
use mathlib.Core.Logic.Or
use hashline_rs.Prelude.{
  ◌≡◌, refl, sym, ◌∙◌, true, false, List, [], ◌∷◌, none, some, ok, codes, arith, Bytes, All,
  position,
}
use hashline_rs.Crates.{plain_crates, plain_crates-laws}
use hashline_rs.Os.Always.{Always}
use hashline_rs.Paths.{new, strip_prefix}
use hashline_rs.Protocol.Lines.{reference_line_starts}
use hashline_rs.Protocol.Text.{validate_text, from_utf8}
use hashline_rs.Protocol.Requests.{GlobRequest, content, count}
use hashline_rs.Search.Glob.{GlobCompiler, run}
use hashline_rs.Search.Glob.Listing.{Found, run-Found}
use hashline_rs.Search.Grep.{FileHit, render_hit}
use hashline_rs.Search.Grep.Content.{IsMatched, IsSection, render_hit-IsSection}
use hashline_rs.Search.Grep.Files.{push_matches, search_file, match_lines, classify_grep_text}
use hashline_rs.Search.Grep.Files.Walk.{
  SearchContext, Visit, passed, read, visit_all, finish_walk, fresh_walk,
}
use hashline_rs.Search.Grep.Order.{Fine, found_hits, PathsDiffer, finish_walk-order}
use hashline_rs.Search.Grep.Report.{assemble_output}
use hashline_rs.Search.Grep.Report.Budget.{IsReport, assemble_output-IsReport}
use hashline_rs.Tests.Samples.{greek, greek-IsText, workspace}

-- a pattern that every path matches
abbrev pub match_all : GlobCompiler
match_all pattern = ok (λ path. true)

abbrev pub all_files : GlobRequest
all_files = record { pattern = codes "**"; path = none; max_results = 5 }

run-Found_example :
    Always (Found match_all workspace all_files) [] (run match_all workspace all_files)
run-Found_example = run-Found match_all workspace all_files

-- the first and the third line
greek-IsMatched : IsMatched 1 greek (1 ∷ 3 ∷ [])
unfolding reference_line_starts
greek-IsMatched = record {
  usual = ((omega arith, omega arith), ((omega arith, omega arith), tt));
  ascending = ((omega arith, tt), (tt, tt));
  inside = (omega arith, (omega arith, tt));
}

render_hit-IsSection_example :
    IsSection plain_crates 0 1
      (new (codes "a.txt"))
      greek
      (1 ∷ 3 ∷ [])
      (render_hit plain_crates greek (new (codes "a.txt")) (1 ∷ 3 ∷ []) 0 1 content)
render_hit-IsSection_example =
    render_hit-IsSection plain_crates plain_crates-laws greek greek-IsText (new (codes "a.txt"))
      (1 ∷ 3 ∷ []) 0 1 greek-IsMatched

abbrev hit_at : Bytes → FileHit
hit_at name = record { rel = new name; header = []; body = []; matches = 2 }

-- a budget that the first two of three hits go beyond
abbrev three_hits : List FileHit
three_hits = hit_at (codes "a") ∷ hit_at (codes "b") ∷ hit_at (codes "c") ∷ []

assemble_output-IsReport_example :
    IsReport count three_hits 3 0 1 (assemble_output count three_hits 3 0 1)
assemble_output-IsReport_example = assemble_output-IsReport count three_hits 3 0 1 (omega arith)

abbrev context : SearchContext
context = record {
  searcher = λ text. some (some 1 ∷ [], false);
  root = new (codes "/w");
  options = record { before = 0; after = 0; mode = count };
  quit_threshold = 80;
}

-- a file with a match, one that is binary, and what is no file
abbrev one_way : List Visit
one_way =
    read (new (codes "/w/a")) (ok (codes "x"))
    ∷ read (new (codes "/w/b")) (ok (0 ∷ []))
    ∷ passed
    ∷ []

abbrev other_way : List Visit
other_way =
    read (new (codes "/w/b")) (ok (0 ∷ []))
    ∷ read (new (codes "/w/a")) (ok (codes "x"))
    ∷ passed
    ∷ []

FileHit_set : IsSet FileHit
FileHit_set = hlevel

only : {a b : FileHit} → Mem a (b ∷ []) → a ≡ b
only {a} {b} m =
    Or.elim (FileHit_set a b) (eq-or-mem_of_mem-cons m) (λ e. e) (λ n. absurd (not-mem-nil n))

one_way-Fine : All (Fine plain_crates context) one_way
unfolding search_file match_lines classify_grep_text validate_text position from_utf8
one_way-Fine = ((_, refl), ((_, refl), ((_, refl), tt)))

one_way-PathsDiffer : PathsDiffer plain_crates context (found_hits plain_crates context one_way)
unfolding search_file match_lines classify_grep_text validate_text position from_utf8 push_matches
    render_hit new strip_prefix
one_way-PathsDiffer a b m n e = only m ∙ sym (only n)

finish_walk-order_example :
    finish_walk context 10 (visit_all plain_crates context one_way fresh_walk)
    ≡ finish_walk context 10 (visit_all plain_crates context other_way fresh_walk)
finish_walk-order_example =
    finish_walk-order plain_crates context 10 {l = one_way} {r = other_way} (Permᴰ.swap refl refl)
      one_way-Fine one_way-PathsDiffer
