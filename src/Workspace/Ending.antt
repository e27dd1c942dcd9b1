-- ===== src/Workspace/Ending.antt =====
-- The resolution of a path ends: a path has no more ancestors than components.
use hashline_rs.Prelude.{
  ℕ, zero, suc, ◌+◌, ◌≡◌, ◌<◌, refl, ap, Bool, true, false, List, [], ◌∷◌, Option, none, some, inl,
  inr, ok, err, Bytes, length, arith, Option-cases,
}
use hashline_rs.Paths.{Component, FilePath, parent, init, starts_with}
use hashline_rs.Os.{Task, caught}
use hashline_rs.Os.Ending.{Ends, done, plain, Ends->>=, Ends-if, Ends-caught}
use hashline_rs.Protocol.Errors.{root_escape, new}
use hashline_rs.Tools.Failures.{map_failure}
use hashline_rs.Workspace.{
  Workspace, denied, resolve_path, has_parent_dir, check_ancestor, climb, confine_to_root, resolve,
  resolve_workspace_path,
}

length-init : (c : Component) (cs : List Component) → length (init (c ∷ cs)) ≡ length cs
unfolding init
length-init c [] = refl
length-init c (d ∷ cs) = omega (arith, length-init d cs)

shorter :
    (a : Bool) (cs : List Component) {q : FilePath}
    → parent (record { absolute = a; components = cs }) ≡ some q
    → length q.components + 1 ≡ length cs
unfolding parent
shorter a [] e = cc
shorter a (c ∷ cs) {q} e =
    let cut : length (init (c ∷ cs)) ≡ length q.components = ap (remaining 0) e in
    omega (arith, length-init c cs, cut)
  where
    remaining : ℕ → Option FilePath → ℕ
    remaining n none = n
    remaining n (some p) = length p.components

-- a parent has one component less
parent-shorter :
    (p : FilePath) {q : FilePath}
    → parent p ≡ some q
    → length q.components + 1 ≡ length p.components
parent-shorter p e = shorter p.absolute p.components e

climb-Ends : (n rounds : ℕ) (p : FilePath) → length p.components < rounds → Ends n (climb rounds p)
unfolding climb
climb-Ends n zero p h = absurd (omega arith)
climb-Ends n (suc rounds) p h =
    plain (λ a. refl)
      (elim [
        | true ↦ done
        | false ↦ elim (Option-cases (parent p)) [
          | inl e ↦ rw e done
          | inr (above, e) ↦ rw e (climb-Ends n rounds above (omega (arith, parent-shorter p e)))
        ]
      ])

confine_to_root-Ends : (n : ℕ) (root path : FilePath) → Ends n (confine_to_root root path)
unfolding confine_to_root check_ancestor
confine_to_root-Ends n root path =
    Ends-if (has_parent_dir path.components) (λ dots. done)
      λ clean.
        Ends->>= (climb (suc (length path.components)) path) (check_ancestor root)
          (climb-Ends n (suc (length path.components)) path (omega arith))
          (λ k le existing.
            plain (λ a. refl)
              (elim [
                | err e ↦ done
                | ok canon ↦ Ends-if (starts_with canon root) (λ under. done) (λ outside. done)
              ]))

pub Ends-map_failure :
    {E F A : Type 0} {n : ℕ} (f : E → F) (m : Task E A) → Ends n m → Ends n (map_failure f m)
Ends-map_failure f m h = Ends->>= (caught m) _ (Ends-caught m h) (λ k le r. done)

-- The resolution of a path ends with a result, whatever the answers are.
pub resolve_workspace_path-Ends :
    (n : ℕ) (w : Workspace) (path : Bytes) → Ends n (resolve_workspace_path w path)
unfolding resolve_workspace_path resolve
resolve_workspace_path-Ends n w path = Ends-map_failure (new root_escape) (resolve w path) (
    Ends-if w.restrict
      (λ restricted.
        Ends->>= (map_failure (denied w.root joined) check) _
          (Ends-map_failure (denied w.root joined) check (confine_to_root-Ends n w.root joined))
          (λ k le t. done))
      (λ free. done))
  where
    joined : FilePath
    joined = resolve_path w.root path

    check : Task Bytes (Unit {0})
    check = confine_to_root w.root joined
