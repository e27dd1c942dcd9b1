-- ===== src/Tools/Edit/Success.antt =====
-- What a success of the edit pipeline of src/edit/mod.rs says, and lemmas on its parts.
use hashline_rs.Prelude.{
  ℕ, ◌≡◌, Result-cases, inl, inr, [], ◌∷◌, ◌++◌, Option, none, some, Result, ok, err, map_err,
  Bytes, length, arith,
}
use hashline_rs.Crates.{Crates}
use hashline_rs.Paths.{FilePath}
use hashline_rs.Os.Always.{Log}
use hashline_rs.Protocol.Context.{reference_header}
use hashline_rs.Protocol.Errors
use hashline_rs.Protocol.Errors.{ProtocolError, validate_file_size, from}
use hashline_rs.Protocol.Lines.{reference_line_starts}
use hashline_rs.Protocol.Edits.{apply_reference_edits}
use hashline_rs.Protocol.Requests.{EditRequest}
use hashline_rs.Protocol.Versioned.{apply_versioned_reference_edits, fail_with}
use hashline_rs.Snapshot.{Snapshot, content_id}
use hashline_rs.Snapshot.Load.Looks.{Missing}
use hashline_rs.Snapshot.Load.Stable.{IsLoaded}
use hashline_rs.Persist.{Durability, ExpectedDestination}
use hashline_rs.Persist.Effects.{outstanding, replaced, renamed, Stage}
use hashline_rs.Tools.Edit.{EditSuccess, destination_of, empty_conflict}

-- an accepted versioned batch names the identity, and is accepted by itself
pub versioned-inversion :
    (source : Bytes) (id : ℕ) (input : EditRequest) {applied : Bytes}
    → apply_versioned_reference_edits source id input ≡ ok applied
    → (input.snapshot ≡ id) × (apply_reference_edits source input.edits ≡ ok applied)
unfolding apply_versioned_reference_edits
versioned-inversion source id input h = (ground arith, ground arith)

fail_with-fails :
    {A : Type 0} (r : Result Errors.ContractError ProtocolError) {a : A} → fail_with r ≡ ok a → ⊥
fail_with-fails (ok e) h = cc
fail_with-fails (err e) h = cc

pub empty_conflict-fails :
    (input : EditRequest) (id : ℕ) {applied : Bytes} → empty_conflict input id ≡ ok applied → ⊥
unfolding empty_conflict
empty_conflict-fails input id h =
    elim (Result-cases (map_err from (reference_header input.file_path id []))) [
      | inl (header, e) ↦ fail_with-fails _ (rw e at h)
      | inr (e, q) ↦ (let k = rw q at h in cc)
    ]

-- the text that the edits were applied to, and what the replacement expects at the
-- path, by the calls up to the end of the load
pub data Based (c : Crates) (path : FilePath) (before : Log)
    : Bytes → Option ExpectedDestination → Type 0 where
  -- a loaded snapshot
  loaded :
      {s : Snapshot}
      → IsLoaded c path before s
      → Based c path before s.text (destination_of s.stamp s.id)
  -- the empty text, where the load has found that there is no file
  created : Missing path before → Based c path before [] none

module _ (c : Crates) (path : FilePath) (input : EditRequest) (durability : Durability) where
  -- what a success says, by the calls up to the end of the load and by all of them
  pub record IsEdited (before log : Log) (success : EditSuccess) : Type 0 where
    pub base : Bytes
    pub expected : Option ExpectedDestination
    pub applied : Bytes
    pub based : Based c path before base expected
    -- the request names the very text
    pub current : content_id c base ≡ input.snapshot
    pub computed : apply_versioned_reference_edits base input.snapshot input ≡ ok applied
    -- the result came to the path, over the destination that is expected
    pub staged : Stage c path expected [] (renamed path (some applied, durability) ∷ []) log
    pub reported : success ≡ record {
      path = input.file_path;
      previous_snapshot = input.snapshot;
      snapshot = content_id c applied;
      applied = length input.edits;
      bytes = length applied;
      lines = length (reference_line_starts applied);
    }

  abbrev pub EditedBehind : Log → Log → Result ProtocolError EditSuccess → Type 0
  EditedBehind before log (ok success) = IsEdited before log success
  EditedBehind before log (err e) = (outstanding log ≡ []) × (replaced log ≡ [])

  -- the load is the first part of the very calls
  abbrev pub Edited : Log → Result ProtocolError EditSuccess → Type 0
  Edited log (ok success) =
      (before : Log) × (later : Log) × (log ≡ later ++ before) × IsEdited before log success
  Edited log (err e) = (outstanding log ≡ []) × (replaced log ≡ [])
