-- ===== src/Cache/Reached.antt =====
-- The states that a shard gets into when threads change it, in any order, under its lock.
use hashline_rs.Prelude.{
  ℕ, ◌<◌, ◌≡◌, refl, [], ◌∷◌, Option, some, All, Bool-cases, inl, inr, arith, u64_max, Option-cases,
}
use hashline_rs.Paths.{FilePath, path_eq}
use hashline_rs.Snapshot.{Snapshot}
use hashline_rs.Snapshot.Stamp.{FileStamp}
use hashline_rs.Snapshot.Load.{same_stamp}
use hashline_rs.Cache.{Entry, Map, Shard, lookup, drop_entry, insert, invalidate}
use hashline_rs.Cache.Flight.{
  restamp, refresh, stamp_ok, find_cell, join_cell, claim, clear_inflight,
}
use hashline_rs.Cache.Budget.{
  total, Apart, Distinct, Sized, IsBounded, drop_entry-IsBounded, insert-IsBounded,
}

-- One locked change of a shard.
pub data Step (next : Map → ℕ) (capacity : ℕ) (s : Shard) : Shard → Type 0 where
  inserts :
      (path : FilePath) (snapshot : Snapshot)
      → Step next capacity s (insert next capacity path snapshot s)
  invalidates : (path : FilePath) → Step next capacity s (invalidate path s)
  refreshes :
      (path : FilePath) (old new : FileStamp) → Step next capacity s (refresh path old new s)
  claims :
      (path : FilePath) (current : Option FileStamp) (fresh : ℕ)
      → Step next capacity s (claim path current fresh s).1
  clears : (path : FilePath) → Step next capacity s (clear_inflight path s)

-- `Shard::default`
abbrev pub default : Shard
default = record { map = []; used = 0; inflight = [] }

-- The shards that such changes lead to.
pub data Reached (next : Map → ℕ) (capacity : ℕ) : Shard → Type 0 where
  fresh : Reached next capacity default
  later : {s t : Shard} → Reached next capacity s → Step next capacity s t → Reached next capacity t

module _ (path : FilePath) (old new : FileStamp) where
  total-restamp : (map : Map) → total (restamp path old new map) ≡ total map
  total-restamp [] = refl
  total-restamp ((key, entry) ∷ map) = ground (arith, total-restamp map)

  All-restamp :
      (P : FilePath × Entry → Type 0)
      → ((key : FilePath) (entry : Entry) (stamp : Option FileStamp)
          → P (key, entry)
          → P (key, record entry { stamp = stamp }))
      → (map : Map) → All P map
      → All P (restamp path old new map)
  All-restamp P keep [] h = tt
  All-restamp P keep ((key, entry) ∷ map) (p, h) = elim (Bool-cases (path_eq key path)) [
    | inl at ↦ elim (Bool-cases (same_stamp entry.stamp old)) [
      | inl same ↦ rw (at, same) (keep key entry (some new) p, h)
      | inr other ↦ rw (at, other) (p, h)
    ]
    | inr apart ↦ rw apart (p, All-restamp P keep map h)
  ]

  Distinct-restamp : (map : Map) → Distinct map → Distinct (restamp path old new map)
  Distinct-restamp [] d = tt
  Distinct-restamp ((key, entry) ∷ map) (a, d) = elim (Bool-cases (path_eq key path)) [
    | inl at ↦ elim (Bool-cases (same_stamp entry.stamp old)) [
      | inl same ↦ rw (at, same) (a, d)
      | inr other ↦ rw (at, other) (a, d)
    ]
    | inr apart ↦ rw apart (All-restamp (Apart key) (λ k e t p. p) map a, Distinct-restamp map d)
  ]

  refresh-IsBounded :
      {capacity : ℕ} (s : Shard)
      → IsBounded capacity s
      → IsBounded capacity (refresh path old new s)
  unfolding refresh
  refresh-IsBounded s b = record {
    used_eq = rw (total-restamp s.map) b.used_eq;
    bound = b.bound;
    distinct = Distinct-restamp s.map b.distinct;
    sized = All-restamp Sized (λ k e t p. p) s.map b.sized;
  }

-- the cells in flight count for nothing
with_cells-IsBounded :
    {capacity : ℕ} (s t : Shard)
    → s.map ≡ t.map
    → s.used ≡ t.used
    → IsBounded capacity s
    → IsBounded capacity t
with_cells-IsBounded s t m u b = record {
  used_eq = rw (m, u) at b.used_eq;
  bound = rw u at b.bound;
  distinct = rw m at b.distinct;
  sized = rw m at b.sized;
}

join_cell-IsBounded :
    {capacity : ℕ} (path : FilePath) (address : ℕ) (s : Shard)
    → IsBounded capacity s
    → IsBounded capacity (join_cell path address s).1
unfolding join_cell
join_cell-IsBounded path address s b = elim (Option-cases (find_cell path s.inflight)) [
  | inl e ↦ rw (join_cell, e) (with_cells-IsBounded s _ refl refl b)
  | inr (there, e) ↦ rw (join_cell, e) b
]

claim-IsBounded :
    {capacity : ℕ} (path : FilePath) (current : Option FileStamp) (address : ℕ) (s : Shard)
    → IsBounded capacity s
    → IsBounded capacity (claim path current address s).1
unfolding claim
claim-IsBounded path current address s b = elim (Option-cases (lookup path s.map)) [
  | inl e ↦ rw (claim, e) (join_cell-IsBounded path address s b)
  | inr (entry, e) ↦ elim (Bool-cases (stamp_ok current entry.stamp)) [
    | inl good ↦ rw (claim, e, good) b
    | inr stale ↦
        rw (claim, e, stale)
          (join_cell-IsBounded path address (drop_entry path s) (drop_entry-IsBounded path s b))
  ]
]

Step-IsBounded :
    (next : Map → ℕ) (capacity : ℕ) {s t : Shard}
    → capacity < u64_max
    → IsBounded capacity s
    → Step next capacity s t
    → IsBounded capacity t
unfolding invalidate clear_inflight
Step-IsBounded next capacity {s} small b (inserts path snapshot) =
    insert-IsBounded next capacity path snapshot s small b
Step-IsBounded next capacity {s} small b (invalidates path) =
    with_cells-IsBounded (drop_entry path s) _ refl refl (drop_entry-IsBounded path s b)
Step-IsBounded next capacity {s} small b (refreshes path old new) =
    refresh-IsBounded path old new s b
Step-IsBounded next capacity {s} small b (claims path current address) =
    claim-IsBounded path current address s b
Step-IsBounded next capacity {s} small b (clears path) = with_cells-IsBounded s _ refl refl b

-- However threads change a shard from the empty one on, and whatever order its map lists its keys in,
-- the used bytes are those of the entries and within the capacity, each entry accounts for the length
-- of its snapshot, and no path has two entries.
pub Reached-IsBounded :
    (next : Map → ℕ) (capacity : ℕ) {s : Shard}
    → capacity < u64_max
    → Reached next capacity s
    → IsBounded capacity s
Reached-IsBounded next capacity small fresh = record {
  used_eq = refl;
  bound = omega arith;
  distinct = tt;
  sized = tt;
}
Reached-IsBounded next capacity small (later before step) =
    Step-IsBounded next capacity small (Reached-IsBounded next capacity small before) step
