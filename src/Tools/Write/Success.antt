-- ===== src/Tools/Write/Success.antt =====
-- What a success of the write pipeline of src/write.rs says, and what it decides.
use hashline_rs.Prelude.{
  ℕ, ◌≡◌, Bool, true, false, [], ◌∷◌, ◌++◌, Option, none, some, Result, ok, err, Bytes, length,
  position-none, arith,
}
use hashline_rs.Crates.{Crates}
use hashline_rs.Paths.{FilePath}
use hashline_rs.Os.Always.{Log}
use hashline_rs.Protocol.Codec.WriteExpect.{WriteExpect, absent, snapshot}
use hashline_rs.Protocol.Errors.{ProtocolError, validate_file_size, already_exists}
use hashline_rs.Protocol.Text.Splice.{IsUtf8}
use hashline_rs.Protocol.Text.Policy.{IsText}
use hashline_rs.Protocol.Lines.{reference_line_starts}
use hashline_rs.Protocol.Requests.{WriteRequest, validate_write}
use hashline_rs.Protocol.Versioned.{decide_write, validate_reference_write}
use hashline_rs.Snapshot.{Snapshot, content_id}
use hashline_rs.Snapshot.Load.Looks.{Missing}
use hashline_rs.Snapshot.Load.Stable.{IsLoaded}
use hashline_rs.Persist.{Durability}
use hashline_rs.Persist.Effects.{outstanding, replaced, Placement, renamed, linked, Stage}
use hashline_rs.Tools.Write.{WriteSuccess, state_of, expected_of}

-- What a write may do: create where there is no file, or replace the very text that it names.
pub data Decided : WriteExpect → Option Snapshot → Bool → Type 0 where
  fresh : Decided absent none true
  over : {id : ℕ} {s : Snapshot} → id ≡ s.id → Decided (snapshot id) (some s) false

pub decide-Decided :
    (e : WriteExpect) (current : Option Snapshot) (path : Bytes) (created : Bool)
    → decide_write e (state_of current) path ≡ ok created
    → Decided e current created
unfolding decide_write already_exists
decide-Decided absent none path true h = fresh
decide-Decided absent none path false h = cc
decide-Decided absent (some s) path created h = absurd (ground arith)
decide-Decided (snapshot id) none path created h = cc
decide-Decided (snapshot id) (some s) path true h = absurd (ground arith)
decide-Decided (snapshot id) (some s) path false h = over (ground arith)

pub accepted-IsText :
    (input : WriteRequest)
    → IsUtf8 input.content
    → validate_write input ≡ ok tt
    → IsText input.content
unfolding validate_write validate_file_size
accepted-IsText input utf8 h = record {
  small = ground arith;
  no_nul = position-none 0 input.content (ground arith);
  utf8 = utf8;
}

pub write-inversion :
    (current : Option (Bytes × ℕ)) (input : WriteRequest) {created : Bool}
    → validate_reference_write current input ≡ ok created
    → (validate_write input ≡ ok tt)
      × (decide_write input.expect current input.file_path ≡ ok created)
unfolding validate_reference_write
write-inversion current input h = (ground arith, ground arith)

module _ (c : Crates) (path : FilePath) (input : WriteRequest) (durability : Durability) where
  -- a new file is linked, an existing one is replaced by a rename
  abbrev pub placement : Bool → Placement
  placement true = linked path (some input.content, durability)
  placement false = renamed path (some input.content, durability)

  -- By the calls up to the end of the load: a current snapshot is the one that it returned, and there is
  -- none where it has found that there is no file.
  abbrev pub Origin : Log → Option Snapshot → Type 0
  Origin before none = Missing path before
  Origin before (some s) = IsLoaded c path before s

  -- what a success says, by the calls up to the end of the load and by all of them
  pub record IsWritten (before log : Log) (success : WriteSuccess) : Type 0 where
    pub current : Option Snapshot
    pub created : Bool
    pub origin : Origin before current
    pub decided : Decided input.expect current created
    -- the content came to the path, over the destination that is expected
    pub staged : Stage c path (expected_of current) [] (placement created ∷ []) log
    pub reported : success ≡ record {
      path = input.file_path;
      snapshot = content_id c input.content;
      bytes = length input.content;
      lines = length (reference_line_starts input.content);
      created = created;
    }

  abbrev pub WrittenBehind : Log → Log → Result ProtocolError WriteSuccess → Type 0
  WrittenBehind before log (ok success) = IsWritten before log success
  WrittenBehind before log (err e) = (outstanding log ≡ []) × (replaced log ≡ [])

  -- the load is the first part of the very calls
  abbrev pub Written : Log → Result ProtocolError WriteSuccess → Type 0
  Written log (ok success) =
      (before : Log) × (later : Log) × (log ≡ later ++ before) × IsWritten before log success
  Written log (err e) = (outstanding log ≡ []) × (replaced log ≡ [])
