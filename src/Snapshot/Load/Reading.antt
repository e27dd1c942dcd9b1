-- ===== src/Snapshot/Load/Reading.antt =====
-- What the reads of a load gave, and what makes it stable.
use hashline_rs.Prelude.{
  ℕ, zero, suc, ◌+◌, ◌≡◌, ◌⊎◌, refl, true, false, [], ◌∷◌, ◌++◌, append-nil, Option, none, some,
  ◌==◌, Result, ok, err, map_err, Bytes, length, arith,
}
use hashline_rs.Paths.{FilePath}
use hashline_rs.Os.{Call, Answer, open_file, read_some, metadata, read_file}
use hashline_rs.Os.Always.{event, Log, Always, ends, asks, still, Always-if, Always-check, Any}
use hashline_rs.Protocol.Errors.{validate_file_size}
use hashline_rs.Protocol.Text.{validate_text}
use hashline_rs.Snapshot.{SnapshotError, contract}
use hashline_rs.Snapshot.Stamp.{FileStamp, stamp_eq, from_metadata}
use hashline_rs.Snapshot.Load.{read_loop, is_interrupted}
use hashline_rs.Snapshot.Load.Looks.{Unchanged, Failed}

-- what the reads behind the last opening of a file gave, in order
abbrev pub given : (c : Call) → Answer c → Bytes → Bytes
given (open_file p) a sofar = []
given (read_some d n) (ok chunk) sofar = sofar ++ chunk
given (read_some d n) (err e) sofar = sofar
given _ a sofar = sofar

abbrev pub read_back : Log → Bytes
read_back [] = []
read_back (e ∷ log) = given e.asked e.answer (read_back log)

-- the event is a look at the path that shows the stamp
abbrev pub Shows : FilePath → FileStamp → (c : Call) → Answer c → Type 0
Shows path stamp (metadata p) (ok m) =
    (p ≡ path) × ((t : ℕ) × (stamp_eq (from_metadata t m) stamp ≡ true))
Shows path stamp _ _ = ⊥

pub record IsStable (path : FilePath) (log : Log) (text : Bytes) (stamp : FileStamp) : Type 0 where
  pub read : read_back log ≡ text
  pub valid : validate_text text ≡ ok text
  pub len_eq : length text ≡ stamp.len
  pub shown : Any (λ e. Shows path stamp e.asked e.answer) log
  -- the descriptor that was read showed the stamp before and behind the reads
  pub unchanged : Unchanged path log stamp
  -- a racy stamp was confirmed by one more read
  pub confirmed :
      (stamp.racy ≡ false) ⊎ ((rest : Log) × (log ≡ event (read_file path) (ok text) ∷ rest))

abbrev pub Candidate : FilePath → Log → Result SnapshotError (Option (Bytes × FileStamp)) → Type 0
Candidate path log (ok (some (text, stamp))) = IsStable path log text stamp
Candidate path log (ok none) = Unit {0}
Candidate path log (err e) = Failed path log e

abbrev pub Whole : Log → Result SnapshotError Bytes → Type 0
Whole log (ok bytes) = read_back log ≡ bytes
Whole log (err e) = Unit {0}

nil_of_length : (s : Bytes) → (length s == 0) ≡ true → s ≡ []
nil_of_length [] h = refl
nil_of_length (b ∷ s) h = absurd (ground arith)

pub read_loop_lem :
    (rounds : ℕ) (path : FilePath) (file : ℕ) (bytes : Bytes) {log : Log}
    → read_back log ≡ bytes
    → Always Whole log (read_loop rounds path file bytes)
unfolding read_loop
read_loop_lem zero path file bytes h = still
read_loop_lem (suc rounds) path file bytes h = asks (elim [
  | err e ↦
      Always-if (is_interrupted e.error_kind) (λ _. read_loop_lem rounds path file bytes h)
        (λ _. ends tt)
  | ok chunk ↦
      Always-if (length chunk == 0) (λ z. ends (rw (h, nil_of_length chunk z) (append-nil bytes)))
        (λ z.
          Always-check (map_err contract (validate_file_size (length bytes + length chunk)))
            (λ _ _. asks (elim [
              | true ↦ read_loop_lem rounds path file (bytes ++ chunk) (rw h refl)
              | false ↦ ends tt
            ]))
            (λ _ _. tt))
])
