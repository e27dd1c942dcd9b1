-- ===== src/Cache/Served.antt =====
-- Where the snapshots come from that `get_or_load` returns.
use hashline_rs.Prelude.{
  ℕ, ◌≡◌, true, not, ◌&&◌, ◌∷◌, Option, none, some, Result, ok, err, bytes_eq, bytes_eq→eq, arith,
}
use hashline_rs.Crates.{Crates, CratesLaws}
use hashline_rs.Paths.{FilePath}
use hashline_rs.Os.{
  Task, ◌>>=◌, caught, now, metadata, open_file, descriptor_metadata, read_to_end, cache_insert,
  cache_get, cache_racy, cache_refresh, cache_claim, cache_clear, cell_lock, cell_set, cell_unlock,
  Claim, pending, ready, resident, cell,
}
use hashline_rs.Os.Always.{
  event, Log, Always, ends, asks, Then, Always->>=, Always-mono, Always-caught, Always-if,
}
use hashline_rs.Snapshot.{Snapshot, SnapshotError}
use hashline_rs.Snapshot.Stamp.{FileStamp, Metadata, stamp_eq, from_metadata}
use hashline_rs.Snapshot.Load.{load}
use hashline_rs.Snapshot.Load.Stable.{IsLoaded, Loaded, load_lem}
use hashline_rs.Cache.Loading.{
  confirm_resident, reread_resident, verify_racy_resident, try_resident, current_stamp,
  publish_loaded, join_or_load, follow_claim, claim_load, get_or_load, or_else,
}

module _ (c : Crates) (path : FilePath) where
  -- The last calls of a run that returns a snapshot.
  pub data Served : Log → Snapshot → Type 0 where
    -- the cache had it under the stamp that the path has just shown
    hit :
        {t : ℕ} {m : Metadata} {s : Snapshot} {log : Log}
        → Served
            (event (cache_get path (from_metadata t m)) (some s)
              ∷ event now t
              ∷ event (metadata path) (ok m)
              ∷ log)
            s
    -- the cache had it under a racy stamp, which an opened file shows before and after its bytes
    -- were read and found to be the text
    verified :
        {t u file n : ℕ} {m after : Metadata} {stamp : FileStamp} {s : Snapshot} {log : Log}
        → stamp_eq (from_metadata t m) stamp ≡ true
        → stamp_eq (from_metadata u after) stamp ≡ true
        → Served
            (event (cache_refresh path stamp (from_metadata u after)) tt
              ∷ event now u
              ∷ event (descriptor_metadata file) (ok after)
              ∷ event (read_to_end file n) (ok s.text)
              ∷ event now t
              ∷ event (descriptor_metadata file) (ok m)
              ∷ event (open_file path) (ok file)
              ∷ event (cache_racy path) (some (s, stamp))
              ∷ log)
            s
    -- the claim found it
    claimed :
        {stamp : Option FileStamp} {s : Snapshot} {log : Log}
        → Served (event (cache_claim path stamp) (resident s) ∷ log) s
    -- the load of another caller gave it, which this caller has waited for
    joined :
        {stamp : Option FileStamp} {address : ℕ} {s : Snapshot} {log : Log}
        → Served
            (event (cell_unlock address) tt
              ∷ event (cell_lock address) (ready (ok s))
              ∷ event (cache_claim path stamp) (cell address)
              ∷ log)
            s
    -- this caller has loaded it, inserted it and passed it on
    loaded :
        {address : ℕ} {s : Snapshot} {log : Log}
        → IsLoaded c path log s
        → Served
            (event (cell_unlock address) tt
              ∷ event (cache_clear path) tt
              ∷ event (cell_set address (ready (ok s))) tt
              ∷ event (cache_insert path s) tt
              ∷ log)
            s

  unfoldable pub Got : Log → Result SnapshotError Snapshot → Type 0
  Got log (ok s) = Served log s
  Got log (err e) = Unit

  -- an early answer is served too
  Early : Log → Result SnapshotError (Option Snapshot) → Type 0
  Early log (ok (some s)) = Served log s
  Early log (ok none) = Unit
  Early log (err e) = ⊥

  try_resident-Early : {log : Log} → Always Early log (try_resident path)
  unfolding try_resident Early
  try_resident-Early = asks (elim [
    | err e ↦ ends tt
    | ok m ↦ asks (λ t. asks (elim [ none ↦ ends tt | some s ↦ ends hit ]))
  ])

  verify_racy_resident-Early : {log : Log} → Always Early log (verify_racy_resident path)
  unfolding verify_racy_resident reread_resident confirm_resident Early
  verify_racy_resident-Early = asks (elim [
    | none ↦ ends tt
    | some (s, stamp) ↦ asks (elim [
      | err e ↦ ends tt
      | ok file ↦ asks (elim [
        | err e ↦ ends tt
        | ok m ↦ asks (λ t.
            Always-if (not (stamp_eq (from_metadata t m) stamp)) (λ _. ends tt)
              (λ before. asks (elim [
                | err e ↦ ends tt
                | ok bytes ↦ asks (elim [
                  | err e ↦ ends tt
                  | ok after ↦ asks (λ u.
                      Always-if
                        (not (stamp_eq (from_metadata u after) stamp && bytes_eq bytes s.text))
                        (λ _. ends tt)
                        (λ same. asks (λ _.
                          let text : bytes ≡ s.text = bytes_eq→eq bytes s.text (ground arith) in
                          rw text (ends (verified (ground arith) (ground arith))))))
                ])
              ])))
      ])
    ])
  ])

  module _ (laws : CratesLaws c) (rounds : ℕ) where
    publish_loaded_lem :
        (address : ℕ) (log : Log) (r : Result SnapshotError Snapshot)
        → Loaded c path log r
        → Always Got log (publish_loaded path address r)
    unfolding publish_loaded Got
    publish_loaded_lem address log (ok s) h =
        asks (λ _. asks (λ _. asks (λ _. asks (λ _. ends (loaded h)))))
    publish_loaded_lem address log (err e) h = asks (λ _. asks (λ _. asks (λ _. ends tt)))

    follow_claim_lem :
        {stamp : Option FileStamp} {log : Log} (found : Claim)
        → Always Got
            (event (cache_claim path stamp) found ∷ log)
            (follow_claim path (load c rounds path) found)
    unfolding follow_claim join_or_load Got
    follow_claim_lem (resident s) = ends claimed
    follow_claim_lem (cell address) = asks (elim [
      | ready (ok s) ↦ asks (λ _. ends joined)
      | ready (err text) ↦ asks (λ _. ends tt)
      | pending ↦ Always->>= Got (caught (load c rounds path)) (publish_loaded path address) (
          Always-caught (load c rounds path) (
            Always-mono (load c rounds path) (publish_loaded_lem address)
              (load_lem c laws path rounds)))
    ])

    claim_load_lem : {log : Log} → Always Got log (claim_load path (load c rounds path))
    unfolding claim_load current_stamp
    claim_load_lem = asks (elim [
      | err e ↦ asks (λ found. follow_claim_lem found)
      | ok m ↦ asks (λ t. asks (λ found. follow_claim_lem found))
    ])

    or_else_lem :
        (miss : Task SnapshotError Snapshot)
        → ((log : Log) → Always Got log miss)
        → (log : Log) (r : Result SnapshotError (Option Snapshot)) → Early log r
        → Then Got (or_else miss) log r
    unfolding Got Early
    or_else_lem miss h log (ok (some s)) served = ends served
    or_else_lem miss h log (ok none) served = h log
    or_else_lem miss h log (err e) served = absurd served

    -- Whatever the answers are, a snapshot that the cache returns for a path is one that the cache
    -- had under the stamp that the path has just shown; or one with a racy stamp, which an open file
    -- has shown before and after its bytes were read and found to be the text; or one that the claim
    -- of a load found; or one that another caller's load has given; or one that this caller has
    -- loaded as `Snapshot::load` promises, inserted and passed on.
    pub get_or_load-Got : {log : Log} → Always Got log (get_or_load path (load c rounds path))
    unfolding get_or_load
    get_or_load-Got =
        let claimed_load = claim_load path (load c rounds path) in
        let verify = verify_racy_resident path in
        Always->>= Got (try_resident path) _ (
          Always-mono (try_resident path)
            (or_else_lem (verify >>= or_else claimed_load) (λ l. Always->>= Got verify _ (
              Always-mono verify (or_else_lem claimed_load (λ k. claim_load_lem))
                verify_racy_resident-Early)))
            try_resident-Early)
