-- ===== src/Workspace/Confinement.antt =====
-- What a resolved path has been checked for, and that the check ends.
use hashline_rs.Prelude.{
  ℕ, zero, suc, ◌≡◌, refl, ap, true, false, ◌⊎◌, inl, inr, [], ◌∷◌, some, Result, ok, err, Bytes,
  length, Option-cases, map_err,
}
use hashline_rs.Paths.{FilePath, parent, starts_with}
use hashline_rs.Os.{Task, ret, path_exists, canonicalize}
use hashline_rs.Os.Always.{
  Log, event, Always, ends, asks, still, Then, Always->>=, Always-mono, Always-if,
}
use hashline_rs.Protocol.Errors.{ProtocolError, root_escape, new}
use hashline_rs.Tools.Failures.{map_failure, Always-map_failure}
use hashline_rs.Workspace.{
  Workspace, denied, resolve_path, has_parent_dir, check_ancestor, climb, confine_to_root, resolve,
  resolve_workspace_path,
}

-- The calls have gone up from a path to one of its ancestors, all below which are missing.
pub data Climbed (path : FilePath) : FilePath → Log → Type 0 where
  here : Climbed path path []
  up :
      {below above : FilePath} {log : Log}
      → Climbed path below log
      → parent below ≡ some above
      → Climbed path above (event (path_exists below) false ∷ log)

-- A path without `..`, whose deepest existing ancestor is in truth under the root: the calls went up
-- to it, found it, and resolved its links.
pub record IsConfined (root path : FilePath) (log : Log) : Type 0 where
  pub lexical : has_parent_dir path.components ≡ false
  pub ancestor : FilePath
  pub canon : FilePath
  pub misses : Log
  pub climbed : Climbed path ancestor misses
  pub found :
      log ≡ event (canonicalize ancestor) (ok canon) ∷ event (path_exists ancestor) true ∷ misses
  pub under : starts_with canon root ≡ true

-- A path that may be used is the one that the request names below the root, checked where the
-- workspace is restricted; only a restricted workspace refuses.
pub Resolved : Workspace → Bytes → Log → Result ProtocolError FilePath → Type 0
Resolved w path log (ok p) =
    (p ≡ resolve_path w.root path) × ((w.restrict ≡ false) ⊎ IsConfined w.root p log)
Resolved w path log (err e) = (w.restrict ≡ true) × (e.error_code ≡ root_escape)

-- where a climb may end
Stopped : FilePath → Log → Result Bytes FilePath → Type 0
Stopped path log (ok p) =
    (misses : Log) × Climbed path p misses × (log ≡ event (path_exists p) true ∷ misses)
Stopped path log (err e) = Unit

climb-Stopped :
    (path : FilePath) (rounds : ℕ) (existing : FilePath) {log : Log}
    → Climbed path existing log
    → Always (Stopped path) log (climb rounds existing)
unfolding climb Stopped
climb-Stopped path zero existing h = still
climb-Stopped path (suc rounds) existing {log} h = asks (elim [
  | true ↦ ends (log, h, refl)
  | false ↦ elim (Option-cases (parent existing)) [
    | inl e ↦ rw e (ends tt)
    | inr (above, e) ↦ rw e (climb-Stopped path rounds above (up h e))
  ]
])

-- where the check may end
Checked : FilePath → FilePath → Log → Result Bytes (Unit {0}) → Type 0
Checked root path log (ok _) = IsConfined root path log
Checked root path log (err e) = Unit

confine_to_root-Checked :
    (root path : FilePath) → Always (Checked root path) [] (confine_to_root root path)
unfolding confine_to_root check_ancestor Checked Stopped
confine_to_root-Checked root path =
    Always-if (has_parent_dir path.components) (λ dots. ends tt)
      λ plain.
        Always->>= (Checked root path) (climb (suc (length path.components)) path)
          (check_ancestor root)
          (Always-mono (climb (suc (length path.components)) path) (behind plain)
            (climb-Stopped path (suc (length path.components)) path here))
  where
    behind :
        has_parent_dir path.components ≡ false
        → (l : Log) (r : Result Bytes FilePath) → Stopped path l r
        → Then (Checked root path) (check_ancestor root) l r
    behind plain l (err e) h = tt
    behind plain l (ok existing) (misses, climbed, e) = asks (elim [
      | err failure ↦ ends tt
      | ok canon ↦
          Always-if (starts_with canon root)
            (λ under. ends (record {
              lexical = plain;
              ancestor = existing;
              canon = canon;
              misses = misses;
              climbed = climbed;
              found = ap (◌∷◌ (event (canonicalize existing) (ok canon))) e;
              under = under;
            }))
            (λ outside. ends tt)
    ])

-- A path that a request names resolves to that path below the root; in a restricted workspace it has
-- no `..`, the calls went up to its deepest existing ancestor, and this one, its links resolved, lies
-- under the root. Only a restricted workspace refuses, and then with `root_escape`.
pub resolve_workspace_path-Resolved :
    (w : Workspace) (path : Bytes) → Always (Resolved w path) [] (resolve_workspace_path w path)
unfolding resolve_workspace_path resolve Resolved new Checked
resolve_workspace_path-Resolved w path = Always-map_failure (new root_escape) (resolve w path) (
    Always-if w.restrict
      (λ restricted. Always->>= _ (map_failure (denied w.root joined) check) _ (
        Always-map_failure (denied w.root joined) check
          (Always-mono check (behind restricted) (confine_to_root-Checked w.root joined))))
      (λ free. ends (refl, inl free)))
  where
    joined : FilePath
    joined = resolve_path w.root path

    check : Task Bytes (Unit {0})
    check = confine_to_root w.root joined

    final : Log → Result Bytes FilePath → Type 0
    final l r = Resolved w path l (map_err (new root_escape) r)

    behind :
        w.restrict ≡ true
        → (l : Log) (r : Result Bytes (Unit {0})) → Checked w.root joined l r
        → Then final (λ _. ret (ok joined)) l (map_err (denied w.root joined) r)
    behind restricted l (ok _) h = ends (refl, inr h)
    behind restricted l (err e) h = (restricted, refl)
