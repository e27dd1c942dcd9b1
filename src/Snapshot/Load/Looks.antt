-- ===== src/Snapshot/Load/Looks.antt =====
-- The looks at the open descriptor before and behind the reads of a load, and the calls that find that
-- there is no file.
use hashline_rs.Prelude.{
  ℕ, zero, suc, ◌+◌, ◌≡◌, refl, ap, ◌⊎◌, inl, inr, Bool, true, false, [], ◌∷◌, ◌++◌, ◌==◌, Result,
  ok, err, map_err, Bytes, codes, All, Bool-cases, length, sym,
}
use hashline_rs.Paths.{FilePath}
use hashline_rs.Os.{Call, Answer, open_file, descriptor_metadata, read_some, reserve, now}
use hashline_rs.Os.Always.{
  Event, event, Log, Always, ends, asks, still, Always-if, Always-check, Any,
}
use hashline_rs.Protocol.Errors.{ContractError, validate_file_size}
use hashline_rs.Snapshot.{SnapshotError, IoError, io, contract}
use hashline_rs.Snapshot.Stamp.{FileStamp, Metadata, stamp_eq, from_metadata}
use hashline_rs.Snapshot.Load.{
  read_loop, is_interrupted, is_not_found, is_missing, read_buffer_bytes,
}

-- the call is a read of the descriptor, or reserves memory for it
abbrev pub IsReading : ℕ → (c : Call) → Answer c → Type 0
IsReading file (read_some d n) a = d ≡ file
IsReading file (reserve n) a = Unit {0}
IsReading file _ a = ⊥

abbrev pub Reading : ℕ → Event → Type 0
Reading file e = IsReading file e.asked e.answer

-- the path has just been opened, and the descriptor been looked at
abbrev pub opening : FilePath → ℕ → Metadata → ℕ → Log → Log
opening path file initial at log =
    event now at
    ∷ event (descriptor_metadata file) (ok initial)
    ∷ event (open_file path) (ok file)
    ∷ log

-- neither opens a file nor reads from one that is open
abbrev pub IsPast : Call → Type 0
IsPast (open_file path) = ⊥
IsPast (read_some file n) = ⊥
IsPast _ = Unit {0}

-- One descriptor of the path, opened in these calls, was looked at before and behind the reads, with
-- nothing but reads of it between, and neither an opening nor a read behind: what the first look shows
-- is the stamp, and the second gave it.
pub record Unchanged (path : FilePath) (log : Log) (stamp : FileStamp) : Type 0 where
  pub file : ℕ
  pub initial : Metadata
  pub final : Metadata
  pub first_time : ℕ
  pub last_time : ℕ
  pub earlier : Log
  pub reads : Log
  pub later : Log
  pub calls :
      log
      ≡ later
        ++ event now last_time ∷ event (descriptor_metadata file) (ok final) ∷ reads
        ++ opening path file initial first_time earlier
  pub only : All (Reading file) reads
  pub past : All (λ e. IsPast e.asked) later
  pub first : stamp_eq (from_metadata first_time initial) stamp ≡ true
  pub last : stamp ≡ from_metadata last_time final

pub Unchanged-later :
    (path : FilePath) (e : Event) {log : Log} {stamp : FileStamp}
    → IsPast e.asked
    → Unchanged path log stamp
    → Unchanged path (e ∷ log) stamp
Unchanged-later path e p u = record {
  file = u.file;
  initial = u.initial;
  final = u.final;
  first_time = u.first_time;
  last_time = u.last_time;
  earlier = u.earlier;
  reads = u.reads;
  later = e ∷ u.later;
  calls = ap (◌∷◌ e) u.calls;
  only = u.only;
  past = (p, u.past);
  first = u.first;
  last = u.last;
}

-- the event has opened the path as the descriptor
abbrev pub Opens : FilePath → ℕ → (c : Call) → Answer c → Type 0
Opens path file (open_file p) (ok d) = (p ≡ path) × (d ≡ file)
Opens path file _ a = ⊥

abbrev pub IsOpen : FilePath → ℕ → Log → Type 0
IsOpen path file log = Any (λ e. Opens path file e.asked e.answer) log

-- The last call has found that there is no file at the path, or none behind a descriptor of it.
pub data Missing (path : FilePath) : Log → Type 0 where
  unopened :
      {e : IoError} {log : Log}
      → is_not_found e.error_kind ≡ true
      → Missing path (event (open_file path) (err e) ∷ log)
  unlooked :
      {file : ℕ} {e : IoError} {log : Log}
      → is_not_found e.error_kind ≡ true
      → IsOpen path file log
      → Missing path (event (descriptor_metadata file) (err e) ∷ log)
  unread :
      {file n : ℕ} {e : IoError} {log : Log}
      → is_not_found e.error_kind ≡ true
      → IsOpen path file log
      → Missing path (event (read_some file n) (err e) ∷ log)

-- A failure with another error than that there is no file, or a call that has found none.
abbrev pub Failed : FilePath → Log → SnapshotError → Type 0
Failed path log e = (is_missing e ≡ false) ⊎ Missing path log

pub io-Failed :
    (path : FilePath) (operation : Bytes) (e : IoError) {log : Log}
    → (is_not_found e.error_kind ≡ true → Missing path log)
    → Failed path log (io operation path e)
io-Failed path operation e h = elim (Bool-cases (is_not_found e.error_kind)) [
  | inl missing ↦ inr (h missing)
  | inr other ↦ inl other
]

pub contract-Failed :
    {A : Type 0} (path : FilePath) {log : Log} (r : Result ContractError A) {e : SnapshotError}
    → map_err contract r ≡ err e
    → Failed path log e
contract-Failed path (ok a) h = cc
contract-Failed path (err x) h = inl (ap says (sym h))
  where
    says : {A : Type 0} → Result SnapshotError A → Bool
    says (ok a) = false
    says (err e) = is_missing e

pub IsOpen-later :
    (path : FilePath) (file : ℕ) (reads log : Log)
    → IsOpen path file log
    → IsOpen path file (reads ++ log)
IsOpen-later path file [] log h = h
IsOpen-later path file (e ∷ reads) log h = inr (IsOpen-later path file reads log h)

-- how the loop ends: only reads lie behind the calls before it
abbrev pub OnlyReads : FilePath → ℕ → Log → Log → Result SnapshotError Bytes → Type 0
OnlyReads path file base log (ok bytes) =
    (reads : Log) × (log ≡ reads ++ base) × All (Reading file) reads
OnlyReads path file base log (err e) = Failed path log e

pub read_loop-OnlyReads :
    (rounds : ℕ) (path : FilePath) (file : ℕ) (bytes : Bytes) (base reads : Log)
    → IsOpen path file base
    → All (Reading file) reads
    → Always (OnlyReads path file base) (reads ++ base) (read_loop rounds path file bytes)
unfolding read_loop
read_loop-OnlyReads zero path file bytes base reads opened only = still
read_loop-OnlyReads (suc rounds) path file bytes base reads opened only = asks (elim [
  | err e ↦
      Always-if (is_interrupted e.error_kind)
        (λ _.
          read_loop-OnlyReads rounds path file bytes base (event _ (err e) ∷ reads) opened
            (refl, only))
        (λ _. ends (
          io-Failed path (codes "read") e
            (λ missing. unread missing (IsOpen-later path file reads base opened))))
  | ok chunk ↦
      let gave = event (read_some file read_buffer_bytes) (ok chunk) ∷ reads in
      Always-if (length chunk == 0) (λ _. ends (gave, refl, (refl, only)))
        (λ _.
          Always-check (map_err contract (validate_file_size (length bytes + length chunk)))
            (λ _ _. asks (elim [
              | true ↦
                  read_loop-OnlyReads rounds path file (bytes ++ chunk) base
                    (event (reserve (length bytes + length chunk)) true ∷ gave) opened
                    (tt, (refl, only))
              | false ↦ ends (inl refl)
            ]))
            (λ e h. contract-Failed path _ h))
])
