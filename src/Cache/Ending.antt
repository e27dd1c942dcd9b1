-- ===== src/Cache/Ending.antt =====
-- `get_or_load` ends when its loader does. The wait for a cell is a call, which is answered.
use hashline_rs.Prelude.{
  ◌≤◌, arith, refl, not, ◌&&◌, Option, none, some, Result, ok, err, ℕ, bytes_eq,
}
use hashline_rs.Paths.{FilePath}
use hashline_rs.Os.{Task, caught, pending, ready, Claim, resident, cell}
use hashline_rs.Os.Ending.{Ends, done, plain, Ends->>=, Ends-if, Ends-caught}
use hashline_rs.Snapshot.{Snapshot, SnapshotError}
use hashline_rs.Snapshot.Stamp.{stamp_eq, from_metadata}
use hashline_rs.Cache.Loading.{
  confirm_resident, reread_resident, verify_racy_resident, try_resident, current_stamp,
  publish_loaded, join_or_load, follow_claim, claim_load, get_or_load, or_else,
}

module _ (path : FilePath) where
  try_resident-Ends : {n : ℕ} → Ends n (try_resident path)
  unfolding try_resident
  try_resident-Ends =
      plain (λ a. refl)
        (elim [ err e ↦ done | ok m ↦ plain (λ a. refl) (λ t. plain (λ a. refl) (λ hit. done)) ])

  verify_racy_resident-Ends : {n : ℕ} → Ends n (verify_racy_resident path)
  unfolding verify_racy_resident reread_resident confirm_resident
  verify_racy_resident-Ends =
      plain (λ a. refl)
        (elim [
          | none ↦ done
          | some (s, stamp) ↦
              plain (λ a. refl)
                (elim [
                  | err e ↦ done
                  | ok file ↦
                      plain (λ a. refl)
                        (elim [
                          | err e ↦ done
                          | ok m ↦
                              plain (λ a. refl)
                                (λ t.
                                  Ends-if (not (stamp_eq (from_metadata t m) stamp)) (λ same. done)
                                    (λ same.
                                      plain (λ a. refl)
                                        (elim [
                                          | err e ↦ done
                                          | ok bytes ↦
                                              plain (λ a. refl)
                                                (elim [
                                                  | err e ↦ done
                                                  | ok after ↦
                                                      plain (λ a. refl)
                                                        (λ u.
                                                          Ends-if
                                                            (not (
                                                            stamp_eq (from_metadata u after) stamp
                                                            && bytes_eq bytes s.text))
                                                            (λ same. done)
                                                            (λ same. plain (λ a. refl) (λ a. done)))
                                                ])
                                        ])))
                        ])
                ])
        ])

  publish_loaded-Ends :
      {n : ℕ} (address : ℕ) (r : Result SnapshotError Snapshot)
      → Ends n (publish_loaded path address r)
  unfolding publish_loaded
  publish_loaded-Ends address (ok s) =
      plain (λ a. refl)
        (λ a. plain (λ a. refl) (λ b. plain (λ a. refl) (λ d. plain (λ a. refl) (λ e. done))))
  publish_loaded-Ends address (err e) =
      plain (λ a. refl) (λ a. plain (λ a. refl) (λ b. plain (λ a. refl) (λ d. done)))

  module _ (loader : Task SnapshotError Snapshot) {n : ℕ} where
    follow_claim-Ends : Ends n loader → (found : Claim) → Ends n (follow_claim path loader found)
    unfolding follow_claim join_or_load
    follow_claim-Ends ends (resident s) = done
    follow_claim-Ends ends (cell address) =
        plain (λ a. refl)
          (elim [
            | ready (ok s) ↦ plain (λ a. refl) (λ a. done)
            | ready (err text) ↦ plain (λ a. refl) (λ a. done)
            | pending ↦
                Ends->>= (caught loader) (publish_loaded path address) (Ends-caught loader ends)
                  (λ k le. publish_loaded-Ends address)
          ])

    claim_load-Ends : Ends n loader → Ends n (claim_load path loader)
    unfolding claim_load current_stamp
    claim_load-Ends ends =
        plain (λ a. refl)
          (elim [
            | err e ↦ plain (λ a. refl) (follow_claim-Ends ends)
            | ok m ↦ plain (λ a. refl) (λ t. plain (λ a. refl) (follow_claim-Ends ends))
          ])

  or_else-Ends :
      {n : ℕ} (miss : Task SnapshotError Snapshot)
      → Ends n miss
      → (found : Option Snapshot) → Ends n (or_else miss found)
  or_else-Ends miss h none = h
  or_else-Ends miss h (some s) = done

  pub get_or_load-Ends :
      (loader : Task SnapshotError Snapshot) {n : ℕ}
      → ((k : ℕ) → k ≤ n → Ends k loader)
      → Ends n (get_or_load path loader)
  unfolding get_or_load
  get_or_load-Ends loader ends = Ends->>= (try_resident path) _ try_resident-Ends (λ k le.
      or_else-Ends _ (
        Ends->>= (verify_racy_resident path) _ verify_racy_resident-Ends
          (λ j below. or_else-Ends _ (claim_load-Ends loader (ends j (omega arith))))))
