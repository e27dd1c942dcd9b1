-- ===== src/Cache/Quiet.antt =====
-- `get_or_load` changes no file.
use hashline_rs.Prelude.{refl, not, ◌&&◌, Option, none, some, Result, ok, err, ℕ, bytes_eq}
use hashline_rs.Paths.{FilePath}
use hashline_rs.Os.{Task, caught, pending, ready, Claim, resident, cell}
use hashline_rs.Os.Quiet.{Reads, done, asked, Reads->>=, Reads-if, Reads-caught}
use hashline_rs.Snapshot.{Snapshot, SnapshotError}
use hashline_rs.Snapshot.Stamp.{stamp_eq, from_metadata}
use hashline_rs.Cache.Loading.{
  confirm_resident, reread_resident, verify_racy_resident, try_resident, current_stamp,
  publish_loaded, join_or_load, follow_claim, claim_load, get_or_load, or_else,
}

module _ (path : FilePath) where
  try_resident-Reads : Reads (try_resident path)
  unfolding try_resident
  try_resident-Reads =
      asked refl (elim [ err e ↦ done | ok m ↦ asked refl (λ t. asked refl (λ hit. done)) ])

  verify_racy_resident-Reads : Reads (verify_racy_resident path)
  unfolding verify_racy_resident reread_resident confirm_resident
  verify_racy_resident-Reads = asked refl (elim [
    | none ↦ done
    | some (s, stamp) ↦ asked refl (elim [
      | err e ↦ done
      | ok file ↦ asked refl (elim [
        | err e ↦ done
        | ok m ↦ asked refl (λ t. Reads-if (not (stamp_eq (from_metadata t m) stamp)) done (
            asked refl (elim [
              | err e ↦ done
              | ok bytes ↦ asked refl (elim [
                | err e ↦ done
                | ok after ↦ asked refl (λ u.
                    Reads-if (not (stamp_eq (from_metadata u after) stamp && bytes_eq bytes s.text))
                      done (asked refl (λ a. done)))
              ])
            ])))
      ])
    ])
  ])

  publish_loaded-Reads :
      (address : ℕ) (r : Result SnapshotError Snapshot) → Reads (publish_loaded path address r)
  unfolding publish_loaded
  publish_loaded-Reads address (ok s) =
      asked refl (λ a. asked refl (λ b. asked refl (λ d. asked refl (λ e. done))))
  publish_loaded-Reads address (err e) = asked refl (λ a. asked refl (λ b. asked refl (λ d. done)))

  module _ (loader : Task SnapshotError Snapshot) (reads : Reads loader) where
    follow_claim-Reads : (found : Claim) → Reads (follow_claim path loader found)
    unfolding follow_claim join_or_load
    follow_claim-Reads (resident s) = done
    follow_claim-Reads (cell address) = asked refl (elim [
      | ready (ok s) ↦ asked refl (λ a. done)
      | ready (err text) ↦ asked refl (λ a. done)
      | pending ↦
          Reads->>= (caught loader) (publish_loaded path address) (Reads-caught loader reads)
            (publish_loaded-Reads address)
    ])

    claim_load-Reads : Reads (claim_load path loader)
    unfolding claim_load current_stamp
    claim_load-Reads = asked refl (elim [
      | err e ↦ asked refl follow_claim-Reads
      | ok m ↦ asked refl (λ t. asked refl follow_claim-Reads)
    ])

    or_else-Reads :
        (miss : Task SnapshotError Snapshot)
        → Reads miss
        → (found : Option Snapshot) → Reads (or_else miss found)
    or_else-Reads miss h none = h
    or_else-Reads miss h (some s) = done

    pub get_or_load-Reads : Reads (get_or_load path loader)
    unfolding get_or_load
    get_or_load-Reads = Reads->>= (try_resident path) _ try_resident-Reads (
        or_else-Reads _ (
          Reads->>= (verify_racy_resident path) _ verify_racy_resident-Reads
            (or_else-Reads _ claim_load-Reads)))
