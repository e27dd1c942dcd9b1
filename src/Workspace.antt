-- ===== src/Workspace.antt =====
-- `Workspace` of src/util.rs: where the paths of requests lead, and how they are confined to the root.
pub mod Confinement
pub mod Ending
pub mod Quiet
use hashline_rs.Prelude.{
  ℕ, zero, suc, Bool, true, false, ◌||◌, List, [], ◌∷◌, ◌++◌, Option, none, some, if◌then◌else◌,
  Result, ok, err, map_err, Bytes, codes, length,
}
use hashline_rs.Paths
use hashline_rs.Paths.{
  Component, cur_dir, parent_dir, normal, FilePath, parent, join, starts_with, display,
}
use hashline_rs.Os.{Task, ret, call, running, ◌>>=◌, path_exists, canonicalize}
use hashline_rs.Persist.{Durability, full}
use hashline_rs.Protocol.Errors.{ProtocolError, root_escape, new}
use hashline_rs.Tools.Failures.{map_failure}

pub record Workspace : Type 0 where
  pub root : FilePath
  pub restrict : Bool
  pub durability : Durability

-- `Workspace::new`
unfoldable pub make : FilePath → Bool → Workspace
make root restrict = record { root = root; restrict = restrict; durability = full }

-- `with_durability`
unfoldable pub with_durability : Workspace → Durability → Workspace
with_durability w durability = record w { durability = durability }

unfoldable pub resolve_path : FilePath → Bytes → FilePath
resolve_path root path = let p = Paths.new path in if p.absolute then p else join root p

-- `matches!(c, Component::ParentDir)`, of any component
abbrev pub has_parent_dir : List Component → Bool
has_parent_dir [] = false
has_parent_dir (cur_dir ∷ cs) = has_parent_dir cs
has_parent_dir (parent_dir ∷ cs) = true
has_parent_dir (normal name ∷ cs) = has_parent_dir cs

-- the loop up to an ancestor that exists, in at most the given number of rounds
unfoldable pub climb : ℕ → FilePath → Task Bytes FilePath
climb zero existing = running
climb (suc rounds) existing = call (path_exists existing) (elim [
  | true ↦ ret (ok existing)
  | false ↦ elim (parent existing) [
    | none ↦ ret (err (codes "path has no existing ancestor"))
    | some above ↦ climb rounds above
  ]
])

-- the ancestor that exists, with its links resolved
unfoldable pub check_ancestor : FilePath → FilePath → Task Bytes (Unit {0})
check_ancestor root existing = call (canonicalize existing) (elim [
  | err e ↦ ret (err (codes "cannot canonicalize " ++ (display existing ++ (codes ": " ++ e.text))))
  | ok canon ↦
      if starts_with canon root
      then ret (ok tt)
      else ret (
          err (
            codes "path resolves to "
            ++ (display canon ++ codes " which is outside the workspace root")))
])

unfoldable pub confine_to_root : FilePath → FilePath → Task Bytes (Unit {0})
unfolding climb check_ancestor
confine_to_root root path =
    if has_parent_dir path.components
    then ret (err (codes "path contains \"..\" components"))
    else (climb (suc (length path.components)) path >>= check_ancestor root)

-- the text for a refused path
unfoldable pub denied : FilePath → FilePath → Bytes → Bytes
denied root joined reason =
    codes "Access to "
    ++ (display joined
        ++ (codes " denied: "
            ++ (reason
                ++ (codes " (--restrict confines tools to " ++ (display root ++ codes ").")))))

unfoldable pub resolve : Workspace → Bytes → Task Bytes FilePath
unfolding resolve_path confine_to_root denied
resolve w path =
    let joined = resolve_path w.root path in
    if w.restrict
    then (map_failure (denied w.root joined) (confine_to_root w.root joined) >>= λ _.
        ret (ok joined))
    else ret (ok joined)

unfoldable pub resolve_workspace_path : Workspace → Bytes → Task ProtocolError FilePath
unfolding resolve
resolve_workspace_path w path = map_failure (new root_escape) (resolve w path)
