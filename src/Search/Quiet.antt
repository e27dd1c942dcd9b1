-- ===== src/Search/Quiet.antt =====
-- Globs and greps change no file.
use hashline_rs.Prelude.{
  ℕ, refl, not, List, [], ◌∷◌, Option, none, some, map_err, min, ◌*◌, u64_max,
}
use hashline_rs.Crates.{Crates}
use hashline_rs.Os.{WalkEntry, ret}
use hashline_rs.Paths.{FilePath}
use hashline_rs.Os.Quiet.{Reads, done, asked, Reads->>=, Reads-if, Reads-check}
use hashline_rs.Protocol.Errors.{from}
use hashline_rs.Protocol.Requests.{GlobRequest, GrepRequest, validate_glob, validate_grep}
use hashline_rs.Search.Glob
use hashline_rs.Search.Glob.{GlobCompiler, or_dot, pattern_error, check_directory, list_walk}
use hashline_rs.Search.Grep.Files.{Searcher, SearchOptions}
use hashline_rs.Search.Grep.Files.Walk.{
  Walking, SearchContext, is_file, visit, visit_of, visit_walk, fresh_walk, finish_walk,
}
use hashline_rs.Search.Grep.Request
use hashline_rs.Search.Grep.Request.{
  GrepCrates, check_overrides, check_found, search_single, search_tree,
}
use hashline_rs.Workspace.{Workspace, resolve_workspace_path}
use hashline_rs.Workspace.Quiet.{resolve_workspace_path-Reads}

pub glob-Reads :
    (compile : GlobCompiler) (w : Workspace) (input : GlobRequest)
    → Reads (Glob.run compile w input)
unfolding Glob.run list_walk
glob-Reads compile w input = Reads-check (map_err from (validate_glob input)) (λ valid.
    Reads-check (map_err (pattern_error input.pattern) (compile input.pattern)) (λ matches.
      Reads->>= (resolve_workspace_path w (or_dot input.path)) _
        (resolve_workspace_path-Reads w (or_dot input.path))
        (λ root. asked refl (λ meta.
          Reads-check (check_directory root meta) (λ there. asked refl (λ walked. done))))))

visit_of-Reads : (entry : Option WalkEntry) → Reads (visit_of entry)
unfolding visit_of
visit_of-Reads none = done
visit_of-Reads (some entry) =
    Reads-if (not (is_file entry.entry_type)) done (asked refl (λ answer. done))

visit_walk-Reads :
    (c : Crates) (ctx : SearchContext) (entries : List (Option WalkEntry)) (w : Walking)
    → Reads (visit_walk c ctx entries w)
unfolding visit_walk
visit_walk-Reads c ctx [] w = done
visit_walk-Reads c ctx (entry ∷ entries) w =
    Reads->>= (visit_of entry) _ (visit_of-Reads entry)
      (λ v. visit_walk-Reads c ctx entries (visit c ctx w v).0)

search_tree-Reads :
    (c : Crates) (g : GrepCrates) (searcher : Searcher) (input : GrepRequest) (max_matches : ℕ)
    (root : FilePath) (o : SearchOptions)
    → Reads (search_tree c g searcher input max_matches root o)
unfolding search_tree
search_tree-Reads c g searcher input max_matches root o =
    Reads-check (check_overrides g root input.glob) (λ t. asked refl (λ entries.
      Reads->>= (visit_walk c ctx entries fresh_walk) (λ w. ret (finish_walk ctx max_matches w))
        (visit_walk-Reads c ctx entries fresh_walk) (λ w. done)))
  where
    ctx : SearchContext
    ctx = record {
      searcher = searcher;
      root = root;
      options = o;
      quit_threshold = min (max_matches * 8) u64_max;
    }

pub grep-Reads :
    (c : Crates) (g : GrepCrates) (w : Workspace) (input : GrepRequest)
    → Reads (Request.run c g w input)
unfolding Request.run search_single
grep-Reads c g w input = Reads-check (map_err from (validate_grep input)) (λ valid.
    Reads-check (map_err _ (g.build_matcher input.pattern input.ignore_case)) (λ searcher.
      Reads->>= (resolve_workspace_path w (or_dot input.path)) _
        (resolve_workspace_path-Reads w (or_dot input.path))
        (λ root. asked refl (λ meta. Reads-check (check_found root meta) (λ single.
          Reads-if single (asked refl (λ answer. done))
            (search_tree-Reads c g searcher input _ root _))))))
