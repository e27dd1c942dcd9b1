-- ===== src/Search/Glob/Listing.antt =====
-- What a glob listing shows: the newest entries of the walk, in order, and whether there are more.
use Prim.Native.Nat.{compare, Ordering}
use mathlib.Core.List.{Perm}
use hashline_rs.Prelude.{
  ℕ, ◌≤◌, ◌≡◌, refl, sym, ap, Bool, true, List, [], ◌∷◌, ◌++◌, Option, Result, ok, err, map_err,
  Bytes, length, take, drop, take-append-drop, length-take, length-drop, length-append, ltb, min,
  ◌-◌, arith, suc, zero, ◌+◌, ◌∙◌, none, some, inl, inr,
}
use hashline_rs.Prelude.Sorting.{
  IsOrder, list_cmp, compare-IsOrder, list_cmp-IsOrder, not_greater, Sorted, sort_by-perm,
  sort_by-Sorted, length-sort_by,
}
use hashline_rs.Prelude.Sorting.Keys.{key_le-IsTotal}
use hashline_rs.Prelude.Sorting.Pairs.{pair_cmp, pair_cmp-IsOrder, reverse-IsOrder}
use hashline_rs.Paths.{FilePath}
use hashline_rs.Os.{WalkEntry, walk, file_type}
use hashline_rs.Os.Always.{
  event, Log, Always, ends, asks, Then, Always->>=, Always-mono, Always-check, Always-both,
}
use hashline_rs.Os.Quiet.{Quiet, Reads-Quiet}
use hashline_rs.Protocol.Errors.{ProtocolError, from}
use hashline_rs.Protocol.Requests.{GlobRequest, validate_glob}
use hashline_rs.Snapshot.Stamp.{ℤ, pos, negsuc}
use hashline_rs.Workspace.{Workspace, resolve_workspace_path}
use hashline_rs.Workspace.Confinement.{Resolved, resolve_workspace_path-Resolved}
use hashline_rs.Workspace.Quiet.{resolve_workspace_path-Reads}
use hashline_rs.Search.Glob.{
  GlobCompiler, GlobEntry, ℤ_cmp, entry_cmp, sort_reference_glob_entries, render_summary, lines_of,
  render_listing, entries_of, display_prefix, or_dot, check_directory, pattern_error, list_walk,
  run,
}

ℤ_cmp-IsOrder : IsOrder ℤ_cmp
ℤ_cmp-IsOrder = record {
  flip = λ a b. flip a b;
  same = λ a b h. same a b h;
  trans = λ a b c h k. trans a b c h k;
}
  where
    flip : (a b : ℤ) → ℤ_cmp b a ≡ hashline_rs.Prelude.Sorting.flipped (ℤ_cmp a b)
    flip (pos a) (pos b) = compare-IsOrder.flip a b
    flip (pos a) (negsuc b) = refl
    flip (negsuc a) (pos b) = refl
    flip (negsuc a) (negsuc b) = compare-IsOrder.flip b a

    same : (a b : ℤ) → ℤ_cmp a b ≡ Ordering.eq → a ≡ b
    same (pos a) (pos b) h = ap pos (compare-IsOrder.same a b h)
    same (pos a) (negsuc b) h = cc
    same (negsuc a) (pos b) h = cc
    same (negsuc a) (negsuc b) h = ap negsuc (sym (compare-IsOrder.same b a h))

    trans :
        (a b c : ℤ) → ℤ_cmp a b ≡ Ordering.lt → ℤ_cmp b c ≡ Ordering.lt → ℤ_cmp a c ≡ Ordering.lt
    trans (pos a) (pos b) (pos c) h k = compare-IsOrder.trans a b c h k
    trans (pos a) (pos b) (negsuc c) h k = cc
    trans (pos a) (negsuc b) c h k = cc
    trans (negsuc a) b (pos c) h k = refl
    trans (negsuc a) (pos b) (negsuc c) h k = cc
    trans (negsuc a) (negsuc b) (negsuc c) h k = compare-IsOrder.trans c b a k h

-- newest first, and by the bytes of the path among those of one time
abbrev pub newest_first : GlobEntry → GlobEntry → Bool
newest_first a b = not_greater (entry_cmp a b)

abbrev key : GlobEntry → ℤ × Bytes
key entry = (entry.modified, entry.path)

abbrev order : IsOrder (pair_cmp (λ a b. ℤ_cmp b a) (list_cmp compare))
order =
    pair_cmp-IsOrder (λ a b. ℤ_cmp b a) (list_cmp compare) (reverse-IsOrder ℤ_cmp-IsOrder)
      (list_cmp-IsOrder compare compare-IsOrder)

-- A listing of entries under a cap: those shown and those left out are all of them, in order; it shows
-- as many as the cap allows, and tells whether any is left out.
pub record IsListing (cap : ℕ) (entries : List GlobEntry) (text : Bytes) : Type 0 where
  pub shown : List GlobEntry
  pub omitted : List GlobEntry
  pub arranged : Perm (shown ++ omitted) entries
  pub ordered : Sorted newest_first (shown ++ omitted)
  pub capped : length shown ≡ min cap (length entries)
  pub rendered :
      text
      ≡ lines_of shown
        ++ render_summary (record { files = length shown; truncated = ltb 0 (length omitted) })

pub render_listing-IsListing :
    (cap : ℕ) (entries : List GlobEntry) → IsListing cap entries (render_listing cap entries)
unfolding render_listing sort_reference_glob_entries
render_listing-IsListing cap entries = record {
  shown = take cap sorted;
  omitted = drop cap sorted;
  arranged = rw (take-append-drop cap sorted) (sort_by-perm newest_first entries);
  ordered =
      rw (take-append-drop cap sorted)
        (sort_by-Sorted newest_first (key_le-IsTotal order key) entries);
  capped = omega (arith, length-take cap sorted, same_length);
  rendered = rw more refl;
}
  where
    sorted : List GlobEntry
    sorted = sort_reference_glob_entries entries

    same_length : length sorted ≡ length entries
    same_length = length-sort_by newest_first entries

    more : ltb cap (length entries) ≡ ltb 0 (length (drop cap sorted))
    more = ground (arith, length-drop cap sorted, same_length)

-- The first calls resolved the root, the last one was its walk, and what the listing shows is that of
-- the files it gave that the pattern matches.
pub record IsFound (w : Workspace) (input : GlobRequest) (matches : FilePath → Bool) (log : Log)
    (text : Bytes) : Type 0 where
  pub root : FilePath
  pub before : Log
  pub between : Log
  pub walked : List (Option WalkEntry)
  pub resolved : Resolved w (or_dot input.path) before (ok root)
  pub calls : log ≡ event (walk root) walked ∷ between ++ before
  pub listing :
      IsListing input.max_results (entries_of matches root (display_prefix input.path) walked) text

pub Found : GlobCompiler → Workspace → GlobRequest → Log → Result ProtocolError Bytes → Type 0
Found compile w input log (ok text) =
    Quiet log
    × ((matches : FilePath → Bool) × (compile input.pattern ≡ ok matches)
        × IsFound w input matches log text)
Found compile w input log (err e) = Quiet log

-- Whatever the answers are, a glob changes no file. The text that it returns lists entries of the walk
-- of the resolved root that the pattern matches: newest first and in the order of their paths among
-- those of one time, as many as the cap allows, none older before a newer one that is left out; and
-- the summary counts them and says truly whether any is left out.
pub run-Found :
    (compile : GlobCompiler) (w : Workspace) (input : GlobRequest)
    → Always (Found compile w input) [] (run compile w input)
unfolding run list_walk Found
run-Found compile w input =
    Always-check (map_err from (validate_glob input))
      (λ valid _.
        Always-check (map_err (pattern_error input.pattern) (compile input.pattern))
          (λ matches compiled.
            let resolve = resolve_workspace_path w (or_dot input.path) in
            Always->>= (Found compile w input) resolve _ (
              Always-mono resolve
                (behind_resolve matches (compiled_ok (compile input.pattern) compiled))
                (Always-both resolve (resolve_workspace_path-Resolved w (or_dot input.path))
                  (Reads-Quiet (resolve_workspace_path-Reads w (or_dot input.path)) tt))))
          (λ e _. tt))
      (λ e _. tt)
  where
    compiled_ok :
        (r : Result Bytes (FilePath → Bool)) {matches : FilePath → Bool}
        → map_err (pattern_error input.pattern) r ≡ ok matches
        → r ≡ ok matches
    compiled_ok (ok m) e = ap ok (ap (λ r. elim r [ ok x ↦ x | err t ↦ m ]) e)
    compiled_ok (err t) e = cc

    behind_resolve :
        (matches : FilePath → Bool)
        → compile input.pattern ≡ ok matches
        → (l : Log) (r : Result ProtocolError FilePath)
        → Resolved w (or_dot input.path) l r × Quiet l
        → Then (Found compile w input) (list_walk input matches) l r
    behind_resolve matches compiled l (err e) (_, quiet) = quiet
    behind_resolve matches compiled l (ok root) (resolved, quiet) = asks (λ meta.
        Always-check (check_directory root meta)
          (λ there _. asks (λ walked. ends (
            (
              (refl, (refl, quiet)),
              (
                matches,
                compiled,
                record {
                  root = root;
                  before = l;
                  between = event (file_type root) meta ∷ [];
                  walked = walked;
                  resolved = resolved;
                  calls = refl;
                  listing =
                      render_listing-IsListing input.max_results
                        (entries_of matches root (display_prefix input.path) walked);
                },
              ),
            ))))
          (λ e _. (refl, quiet)))
