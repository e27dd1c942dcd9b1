-- ===== src/Persist/Effects.antt =====
-- What a log of calls says of the files: which temporary files are left, which paths were replaced,
-- and whether each rename came right behind a confirmation of its destination.
use hashline_rs.Prelude.{
  ℕ, ◌≡◌, refl, true, false, if◌then◌else◌, ◌==◌, List, [], ◌∷◌, ◌++◌, Option, none, some, ok, err,
  Bytes,
}
use hashline_rs.Crates.{Crates}
use hashline_rs.Paths.{FilePath, path_eq}
use hashline_rs.Os.{
  Program, Call, Answer, open_file, read_to_end, create_new, metadata, rename, hard_link,
  remove_file, now, write_all, sync_all, barrier_sync,
}
use hashline_rs.Os.Always.{event, Log, Always, ends, asks, still}
use hashline_rs.Os.Quiet
use hashline_rs.Os.Quiet.{is_quiet, Quiet, Reads, asked, going}
use hashline_rs.Snapshot.{content_id}
use hashline_rs.Snapshot.Stamp.{Metadata, stamp_eq, from_metadata}
use hashline_rs.Persist.{Durability, full, barrier, unsynced, ExpectedDestination}

-- The latest calls have found the destination as it is expected: under the expected stamp, and under
-- a racy stamp with the expected content.
pub data Confirms (c : Crates) (path : FilePath) (e : ExpectedDestination) : Log → Type 0 where
  calm :
      {t : ℕ} {m : Metadata} {log : Log}
      → stamp_eq (from_metadata t m) e.stamp ≡ true
      → e.stamp.racy ≡ false
      → Confirms c path e (event now t ∷ event (metadata path) (ok m) ∷ log)
  racy :
      {t file n : ℕ} {m : Metadata} {bytes : Bytes} {log : Log}
      → stamp_eq (from_metadata t m) e.stamp ≡ true
      → content_id c bytes ≡ e.base_id
      → Confirms c path e (
          event (read_to_end file n) (ok bytes)
          ∷ event (open_file path) (ok file)
          ∷ event now t
          ∷ event (metadata path) (ok m)
          ∷ log)

-- A file that was created: its path, its descriptor, what was written to it (`none` behind a failed
-- write), and the sync that has succeeded since.
pub record Temp : Type 0 where
  pub path : FilePath
  pub file : ℕ
  pub content : Option Bytes
  pub durable : Durability

-- the files without the one at a given path
abbrev pub without : FilePath → List Temp → List Temp
without p [] = []
without p (x ∷ xs) = if path_eq x.path p then without p xs else x ∷ without p xs

abbrev grown : Option Bytes → Bytes → Option Bytes
grown none bytes = none
grown (some sofar) bytes = some (sofar ++ bytes)

-- a write to the descriptor, which no sync has followed yet
abbrev wrote : ℕ → (Option Bytes → Option Bytes) → List Temp → List Temp
wrote d f [] = []
wrote d f (x ∷ xs) =
    (if x.file == d then record x { content = f x.content; durable = unsynced } else x)
    ∷ wrote d f xs

abbrev synced : ℕ → Durability → List Temp → List Temp
synced d durable [] = []
synced d durable (x ∷ xs) =
    (if x.file == d then record x { durable = durable } else x) ∷ synced d durable xs

abbrev pub outstanding_after : (c : Call) → Answer c → List Temp → List Temp
outstanding_after (create_new t) (ok file) ts =
    (record { path = t; file = file; content = some []; durable = unsynced }) ∷ ts
outstanding_after (create_new t) (err e) ts = ts
outstanding_after (write_all d bytes) (ok done) ts = wrote d (λ sofar. grown sofar bytes) ts
outstanding_after (write_all d bytes) (err e) ts = wrote d (λ sofar. none) ts
outstanding_after (sync_all d) (ok done) ts = synced d full ts
outstanding_after (sync_all d) (err e) ts = ts
outstanding_after (barrier_sync d) (ok done) ts = synced d barrier ts
outstanding_after (barrier_sync d) (err e) ts = ts
outstanding_after (remove_file t) a ts = without t ts
outstanding_after (rename t p) (ok done) ts = without t ts
outstanding_after (rename t p) (err e) ts = ts
outstanding_after _ a ts = ts

-- The files that were created, and neither renamed nor asked to be removed since.
abbrev pub outstanding : Log → List Temp
outstanding [] = []
outstanding (e ∷ log) = outstanding_after e.asked e.answer (outstanding log)

-- How a file came to a path, with what content, under which sync.
pub data Placement : Type 0 where
  renamed linked : FilePath → Option Bytes × Durability → Placement

-- what is known of the file at a path
abbrev known : FilePath → List Temp → Option Bytes × Durability
known t [] = (none, unsynced)
known t (x ∷ xs) = if path_eq x.path t then (x.content, x.durable) else known t xs

abbrev pub replaced_after : (c : Call) → Answer c → List Temp → List Placement → List Placement
replaced_after (rename t p) (ok done) ts ps = renamed p (known t ts) ∷ ps
replaced_after (rename t p) (err e) ts ps = ps
replaced_after (hard_link t p) (ok done) ts ps = linked p (known t ts) ∷ ps
replaced_after (hard_link t p) (err e) ts ps = ps
replaced_after _ a ts ps = ps

-- The successful renames and links.
abbrev pub replaced : Log → List Placement
replaced [] = []
replaced (e ∷ log) = replaced_after e.asked e.answer (outstanding log) (replaced log)

module _ (c : Crates) (path : FilePath) (expected : Option ExpectedDestination) where
  abbrev pub Confirmed : Log → Type 0
  Confirmed log = elim expected [ none ↦ Unit {0} | some e ↦ Confirms c path e log ]

  abbrev pub GuardedAt : Call → Log → Type 0
  GuardedAt (rename t p) log = Confirmed log
  GuardedAt _ log = Unit {0}

  -- every rename came right behind the confirmation
  abbrev pub Guarded : Log → Type 0
  Guarded [] = Unit {0}
  Guarded (e ∷ log) = GuardedAt e.asked log × Guarded log

  abbrev pub Stage : List Temp → List Placement → Log → Type 0
  Stage temps done log = Guarded log × (outstanding log ≡ temps) × (replaced log ≡ done)

  -- calls that change no file keep the stage
  quiet_step :
      {temps : List Temp} {done : List Placement} (log : Log) (call : Call) (a : Answer call)
      → is_quiet call ≡ true
      → Stage temps done log
      → Stage temps done (event call a ∷ log)
  quiet_step log (create_new p) a h s = cc
  quiet_step log (write_all d b) a h s = cc
  quiet_step log (sync_all d) a h s = cc
  quiet_step log (barrier_sync d) a h s = cc
  quiet_step log (rename p q) a h s = cc
  quiet_step log (hard_link p q) a h s = cc
  quiet_step log (remove_file p) a h s = cc
  quiet_step log _ a h (g, o, r) = ((tt, g), o, r)

  pub Quiet-Stage : (log : Log) → Quiet log → Stage [] [] log
  Quiet-Stage [] q = (tt, refl, refl)
  Quiet-Stage (e ∷ log) (h, q) = quiet_step log e.asked e.answer h (Quiet-Stage log q)

  pub Reads-Stage :
      {A : Type 0} {m : Program A} {temps : List Temp} {done : List Placement} {log : Log}
      → Reads m
      → Stage temps done log
      → Always (λ l a. Stage temps done l) log m
  Reads-Stage Quiet.done s = ends s
  Reads-Stage {log = log} (asked h g) s = asks (λ a. Reads-Stage (g a) (quiet_step log _ a h s))
  Reads-Stage going s = still
