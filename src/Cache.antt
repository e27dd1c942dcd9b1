-- ===== src/Cache.antt =====
-- The shards of src/cache.rs, each changed under its lock: lookups, insertion with eviction, and
-- invalidation.
pub mod Budget
pub mod Lookups
pub mod Flight
pub mod Reached
pub mod Loading
pub mod Served
pub mod Quiet
pub mod Ending
use hashline_rs.Prelude.{
  ℕ, zero, suc, ◌+◌, ◌-◌, ◌%◌, Bool, true, false, not, ◌&&◌, List, [], ◌∷◌, Option, none, some, ltb,
  ◌==◌, if◌then◌else◌, Result, Bytes, length, saturating_add,
}
use hashline_rs.Paths.{FilePath, path_eq}
use hashline_rs.Snapshot.{Snapshot}
use hashline_rs.Snapshot.Stamp.{FileStamp}
use hashline_rs.Snapshot.Load.{same_stamp}

pub record Entry : Type 0 where
  pub snapshot : Snapshot
  pub bytes : ℕ
  pub stamp : Option FileStamp

-- A `HashMap` as the list of its pairs; the order in which it lists its keys is left open.
abbrev pub Map : Type 0
Map = List (FilePath × Entry)

-- the cells of the loads in flight, by their addresses
abbrev pub Inflight : Type 0
Inflight = List (FilePath × ℕ)

pub record Shard : Type 0 where
  pub map : Map
  pub used : ℕ
  pub inflight : Inflight

-- `HashMap::get`
unfoldable pub lookup : FilePath → Map → Option Entry
lookup path [] = none
lookup path ((key, entry) ∷ map) =
    let later = lookup path map in if path_eq key path then some entry else later

-- what `HashMap::remove` leaves
unfoldable pub without_key : {A : Type 0} → FilePath → List (FilePath × A) → List (FilePath × A)
without_key path [] = []
without_key path ((key, value) ∷ map) =
    let rest = without_key path map in if path_eq key path then map else (key, value) ∷ rest

-- `guard.used.saturating_sub(old.bytes)`, where there is an old entry
abbrev pub released : ℕ → Option Entry → ℕ
released used none = used
released used (some old) = used - old.bytes

-- `if let Some(old) = guard.map.remove(path) { guard.used = .. }`
unfoldable pub drop_entry : FilePath → Shard → Shard
unfolding lookup without_key
drop_entry path s = record s {
  map = without_key path s.map;
  used = released s.used (lookup path s.map);
}

-- the key of the pair at an index, counted round
unfoldable pub key_at : ℕ → FilePath → Map → FilePath
key_at index first [] = first
key_at zero first ((key, entry) ∷ map) = key
key_at (suc index) first ((key, entry) ∷ map) = key_at index key map

-- The eviction loop, at most as often as the map has entries. `next` says at which index the map
-- lists its first key.
unfoldable pub evict : (Map → ℕ) → ℕ → ℕ → ℕ → Shard → Shard
unfolding drop_entry key_at
evict next capacity bytes zero s = s
evict next capacity bytes (suc rounds) s = elim s.map [
  | [] ↦ s
  | (key, entry) ∷ map ↦
      let again = evict next capacity bytes rounds (drop_entry (key_at (next s.map) key s.map) s) in
      if ltb capacity (saturating_add s.used bytes) then again else s
]

-- `SnapshotCache::insert`, on the shard of the path
unfoldable pub insert : (Map → ℕ) → ℕ → FilePath → Snapshot → Shard → Shard
unfolding evict drop_entry
insert next capacity path snapshot s =
    let bytes = snapshot.byte_len in
    let dropped = drop_entry path s in
    let evicted = evict next capacity bytes (length dropped.map) dropped in
    if ltb capacity bytes then s else record evicted {
      map =
          (path, record { snapshot = snapshot; bytes = bytes; stamp = snapshot.stamp })
          ∷ evicted.map;
      used = saturating_add evicted.used bytes;
    }

-- `entry.stamp.is_some_and(FileStamp::is_racy)`
abbrev pub is_racy : Option FileStamp → Bool
is_racy none = false
is_racy (some stamp) = stamp.racy

abbrev pub served : Option FileStamp → Entry → Option Snapshot
served none entry = some entry.snapshot
served (some expected) entry =
    if not (same_stamp entry.stamp expected)
    then none
    else if is_racy entry.stamp
    then none
    else some entry.snapshot

-- `SnapshotCache::get`
unfoldable pub get : FilePath → Option FileStamp → Shard → Option Snapshot
unfolding lookup
get path stamp s = elim (lookup path s.map) [ none ↦ none | some entry ↦ served stamp entry ]

-- `SnapshotCache::invalidate`
unfoldable pub invalidate : FilePath → Shard → Shard
unfolding drop_entry
invalidate path s = record (drop_entry path s) { inflight = without_key path s.inflight }
