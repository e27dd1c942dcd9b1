-- ===== src/Search/Ending.antt =====
-- Globs and greps end, for a walk that is answered with finitely many entries.
use hashline_rs.Prelude.{
  ℕ, refl, not, List, [], ◌∷◌, Option, none, some, map_err, min, ◌*◌, u64_max,
}
use hashline_rs.Crates.{Crates}
use hashline_rs.Os.{WalkEntry, ret}
use hashline_rs.Paths.{FilePath}
use hashline_rs.Os.Ending.{Ends, done, plain, Ends->>=, Ends-if, Ends-check}
use hashline_rs.Protocol.Errors.{from}
use hashline_rs.Protocol.Requests.{GlobRequest, GrepRequest, validate_glob, validate_grep}
use hashline_rs.Search.Glob
use hashline_rs.Search.Glob.{GlobCompiler, or_dot, pattern_error, check_directory, list_walk}
use hashline_rs.Search.Grep.Files.{Searcher, SearchOptions}
use hashline_rs.Search.Grep.Files.Walk.{
  Walking, SearchContext, is_file, visit, visit_of, visit_walk, fresh_walk, finish_walk,
}
use hashline_rs.Search.Grep.Request
use hashline_rs.Search.Grep.Request.{
  GrepCrates, check_overrides, check_found, search_single, search_tree,
}
use hashline_rs.Workspace.{Workspace, resolve_workspace_path}
use hashline_rs.Workspace.Ending.{resolve_workspace_path-Ends}

pub glob-Ends :
    {n : ℕ} (compile : GlobCompiler) (w : Workspace) (input : GlobRequest)
    → Ends n (Glob.run compile w input)
unfolding Glob.run list_walk
glob-Ends compile w input = Ends-check (map_err from (validate_glob input)) (λ valid _.
    Ends-check (map_err (pattern_error input.pattern) (compile input.pattern)) (λ matches _.
      Ends->>= (resolve_workspace_path w (or_dot input.path)) _
        (resolve_workspace_path-Ends _ w (or_dot input.path))
        (λ k le root.
          plain (λ a. refl)
            (λ meta.
              Ends-check (check_directory root meta)
                (λ there _. plain (λ a. refl) (λ walked. done))))))

visit_of-Ends : {n : ℕ} (entry : Option WalkEntry) → Ends n (visit_of entry)
unfolding visit_of
visit_of-Ends none = done
visit_of-Ends (some entry) =
    Ends-if (not (is_file entry.entry_type)) (λ other. done)
      (λ file. plain (λ a. refl) (λ answer. done))

visit_walk-Ends :
    {n : ℕ} (c : Crates) (ctx : SearchContext) (entries : List (Option WalkEntry)) (w : Walking)
    → Ends n (visit_walk c ctx entries w)
unfolding visit_walk
visit_walk-Ends c ctx [] w = done
visit_walk-Ends c ctx (entry ∷ entries) w =
    Ends->>= (visit_of entry) _ (visit_of-Ends entry)
      (λ k le v. visit_walk-Ends c ctx entries (visit c ctx w v).0)

search_tree-Ends :
    {n : ℕ} (c : Crates) (g : GrepCrates) (searcher : Searcher) (input : GrepRequest)
    (max_matches : ℕ) (root : FilePath) (o : SearchOptions)
    → Ends n (search_tree c g searcher input max_matches root o)
unfolding search_tree
search_tree-Ends c g searcher input max_matches root o =
    Ends-check (check_overrides g root input.glob) (λ t _.
      plain (λ a. refl)
        (λ entries.
          Ends->>= (visit_walk c ctx entries fresh_walk) (λ w. ret (finish_walk ctx max_matches w))
            (visit_walk-Ends c ctx entries fresh_walk) (λ k le w. done)))
  where
    ctx : SearchContext
    ctx = record {
      searcher = searcher;
      root = root;
      options = o;
      quit_threshold = min (max_matches * 8) u64_max;
    }

pub grep-Ends :
    {n : ℕ} (c : Crates) (g : GrepCrates) (w : Workspace) (input : GrepRequest)
    → Ends n (Request.run c g w input)
unfolding Request.run search_single
grep-Ends c g w input = Ends-check (map_err from (validate_grep input)) (λ valid _.
    Ends-check (map_err _ (g.build_matcher input.pattern input.ignore_case)) (λ searcher _.
      Ends->>= (resolve_workspace_path w (or_dot input.path)) _
        (resolve_workspace_path-Ends _ w (or_dot input.path))
        (λ k le root.
          plain (λ a. refl)
            (λ meta. Ends-check (check_found root meta) (λ single _.
              Ends-if single (λ file. plain (λ a. refl) (λ answer. done))
                (λ tree. search_tree-Ends c g searcher input _ root _))))))
