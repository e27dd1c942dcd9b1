-- ===== src/Cache/Flight.antt =====
-- The locked blocks of `verify_racy_resident` and of `get_or_load` of src/cache.rs, on one shard.
use hashline_rs.Prelude.{
  ℕ, Bool, true, false, not, ◌&&◌, [], ◌∷◌, Option, none, some, if◌then◌else◌,
}
use hashline_rs.Paths.{FilePath, path_eq}
use hashline_rs.Os.{Claim, resident, cell}
use hashline_rs.Snapshot.{Snapshot}
use hashline_rs.Snapshot.Stamp.{FileStamp}
use hashline_rs.Snapshot.Load.{same_stamp}
use hashline_rs.Cache.{Entry, Map, Shard, Inflight, lookup, without_key, drop_entry, is_racy}

abbrev racy_entry : Entry → Option FileStamp → Option (Snapshot × FileStamp)
racy_entry entry none = none
racy_entry entry (some stamp) = if stamp.racy then some (entry.snapshot, stamp) else none

-- the first block of `verify_racy_resident`
unfoldable pub racy_resident : FilePath → Shard → Option (Snapshot × FileStamp)
unfolding lookup
racy_resident path s = elim (lookup path s.map) [
  | none ↦ none
  | some entry ↦ racy_entry entry entry.stamp
]

abbrev pub restamp : FilePath → FileStamp → FileStamp → Map → Map
restamp path old new [] = []
restamp path old new ((key, entry) ∷ map) =
    let later = restamp path old new map in
    if path_eq key path
    then (if same_stamp entry.stamp old
        then (key, record entry { stamp = some new }) ∷ map
        else (key, entry) ∷ map)
    else (key, entry) ∷ later

-- its last block: `entry.stamp = Some(after)`, where the entry still has the old one
unfoldable pub refresh : FilePath → FileStamp → FileStamp → Shard → Shard
refresh path old new s = record s { map = restamp path old new s.map }

-- `stamp_ok`
abbrev pub stamp_ok : Option FileStamp → Option FileStamp → Bool
stamp_ok (some current) stamp = same_stamp stamp current && not (is_racy stamp)
stamp_ok none none = true
stamp_ok none (some stamp) = false

unfoldable pub find_cell : FilePath → Inflight → Option ℕ
find_cell path [] = none
find_cell path ((key, address) ∷ cells) =
    let later = find_cell path cells in if path_eq key path then some address else later

-- `inflight.entry(path).or_insert_with(..)`, with the address of a fresh cell
unfoldable pub join_cell : FilePath → ℕ → Shard → Claim × Shard
unfolding find_cell
join_cell path fresh s = elim (find_cell path s.inflight) [
  | some address ↦ (cell address, s)
  | none ↦ (cell fresh, record s { inflight = (path, fresh) ∷ s.inflight })
]

-- the block that claims a load
unfoldable pub claim : FilePath → Option FileStamp → ℕ → Shard → Claim × Shard
unfolding lookup drop_entry join_cell
claim path current fresh s = elim (lookup path s.map) [
  | none ↦ join_cell path fresh s
  | some entry ↦
      if stamp_ok current entry.stamp
      then (resident entry.snapshot, s)
      else join_cell path fresh (drop_entry path s)
]

-- the last block of `get_or_load`
unfoldable pub clear_inflight : FilePath → Shard → Shard
unfolding without_key
clear_inflight path s = record s { inflight = without_key path s.inflight }
