-- ===== src/Workspace/Quiet.antt =====
-- The resolution of a path changes no file.
use hashline_rs.Prelude.{
  ℕ, zero, suc, refl, true, false, inl, inr, ok, err, Bytes, length, Option-cases,
}
use hashline_rs.Paths.{FilePath, parent, starts_with}
use hashline_rs.Os.{Task, caught}
use hashline_rs.Os.Quiet.{Reads, done, asked, going, Reads->>=, Reads-if, Reads-caught}
use hashline_rs.Protocol.Errors.{root_escape, new}
use hashline_rs.Tools.Failures.{map_failure}
use hashline_rs.Workspace.{
  Workspace, denied, resolve_path, has_parent_dir, check_ancestor, climb, confine_to_root, resolve,
  resolve_workspace_path,
}

climb-Reads : (rounds : ℕ) (p : FilePath) → Reads (climb rounds p)
unfolding climb
climb-Reads zero p = going
climb-Reads (suc rounds) p = asked refl (elim [
  | true ↦ done
  | false ↦ elim (Option-cases (parent p)) [
    | inl e ↦ rw e done
    | inr (above, e) ↦ rw e (climb-Reads rounds above)
  ]
])

confine_to_root-Reads : (root path : FilePath) → Reads (confine_to_root root path)
unfolding confine_to_root check_ancestor
confine_to_root-Reads root path = Reads-if (has_parent_dir path.components) done (
    Reads->>= (climb (suc (length path.components)) path) (check_ancestor root)
      (climb-Reads (suc (length path.components)) path)
      (λ existing.
        asked refl
          (elim [ err e ↦ done | ok canon ↦ Reads-if (starts_with canon root) done done ])))

pub Reads-map_failure :
    {E F A : Type 0} (f : E → F) (m : Task E A) → Reads m → Reads (map_failure f m)
Reads-map_failure f m h = Reads->>= (caught m) _ (Reads-caught m h) (λ r. done)

pub resolve_workspace_path-Reads :
    (w : Workspace) (path : Bytes) → Reads (resolve_workspace_path w path)
unfolding resolve_workspace_path resolve
resolve_workspace_path-Reads w path = Reads-map_failure (new root_escape) (resolve w path) (
    Reads-if w.restrict
      (Reads->>= (map_failure (denied w.root joined) check) _
        (Reads-map_failure (denied w.root joined) check (confine_to_root-Reads w.root joined))
        (λ t. done))
      done)
  where
    joined : FilePath
    joined = resolve_path w.root path

    check : Task Bytes (Unit {0})
    check = confine_to_root w.root joined
