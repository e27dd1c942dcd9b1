-- ===== src/Cache/Budget.antt =====
-- A shard stays within its budget, whatever order its map lists its keys in.
use hashline_rs.Prelude.{
  ℕ, zero, suc, ◌+◌, ◌≤◌, ◌<◌, ◌≡◌, refl, sym, ◌⊎◌, false, [], ◌∷◌, Option, none, some, ltb, length,
  saturating_add, All, Bool-cases, inl, inr, arith, u64_max,
}
use hashline_rs.Paths.{FilePath, path_eq, path_eq_refl, path_eq→eq}
use hashline_rs.Snapshot.{Snapshot}
use hashline_rs.Cache.{
  Entry, Map, Shard, Inflight, lookup, without_key, released, drop_entry, key_at, evict, insert,
}

-- the bytes of all entries
abbrev pub total : Map → ℕ
total [] = 0
total ((key, entry) ∷ map) = entry.bytes + total map

abbrev pub held : Option Entry → ℕ
held none = 0
held (some entry) = entry.bytes

-- another key than the path
abbrev pub Apart : FilePath → FilePath × Entry → Type 0
Apart path (key, entry) = path_eq key path ≡ false

-- no key twice
abbrev pub Distinct : Map → Type 0
Distinct [] = Unit {0}
Distinct ((key, entry) ∷ map) = All (Apart key) map × Distinct map

-- an entry accounts for the length of its snapshot
abbrev pub Sized : FilePath × Entry → Type 0
Sized (key, entry) = entry.bytes ≡ entry.snapshot.byte_len

-- The used bytes are those of the entries, within the capacity, and no path has two entries.
pub record IsBounded (capacity : ℕ) (s : Shard) : Type 0 where
  pub used_eq : s.used ≡ total s.map
  pub bound : s.used ≤ capacity
  pub distinct : Distinct s.map
  pub sized : All Sized s.map

abbrev pub shard_of : Inflight → Map → ℕ → Shard
shard_of cells map used = record { map = map; used = used; inflight = cells }

total-without_key :
    (path : FilePath) (map : Map)
    → total map ≡ held (lookup path map) + total (without_key path map)
unfolding lookup without_key
total-without_key path [] = refl
total-without_key path ((key, entry) ∷ map) = ground (arith, total-without_key path map)

All-without_key :
    (P : FilePath × Entry → Type 0) (path : FilePath) (map : Map)
    → All P map
    → All P (without_key path map)
unfolding without_key
All-without_key P path [] h = tt
All-without_key P path ((key, entry) ∷ map) (p, h) = elim (Bool-cases (path_eq key path)) [
  | inl same ↦ rw same h
  | inr other ↦ rw other (p, All-without_key P path map h)
]

Distinct-without_key :
    (path : FilePath) (map : Map) → Distinct map → Distinct (without_key path map)
unfolding without_key
Distinct-without_key path [] h = tt
Distinct-without_key path ((key, entry) ∷ map) (a, d) = elim (Bool-cases (path_eq key path)) [
  | inl same ↦ rw same d
  | inr other ↦ rw other (All-without_key (Apart key) path map a, Distinct-without_key path map d)
]

-- a removed path has no entry left
pub without_key-Apart :
    (path : FilePath) (map : Map) → Distinct map → All (Apart path) (without_key path map)
unfolding without_key
without_key-Apart path [] h = tt
without_key-Apart path ((key, entry) ∷ map) (a, d) = elim (Bool-cases (path_eq key path)) [
  | inl same ↦ rw same (rw (path_eq→eq key path same) at a)
  | inr other ↦ rw other (other, without_key-Apart path map d)
]

pub drop_entry-IsBounded :
    {capacity : ℕ} (path : FilePath) (s : Shard)
    → IsBounded capacity s
    → IsBounded capacity (drop_entry path s)
unfolding drop_entry
drop_entry-IsBounded path s b = record {
  used_eq = ground (arith, b.used_eq, total-without_key path s.map);
  bound = ground (arith, b.bound);
  distinct = Distinct-without_key path s.map b.distinct;
  sized = All-without_key Sized path s.map b.sized;
}

-- the path is a key of the map
abbrev In : FilePath → Map → Type 0
In path [] = ⊥
In path ((key, entry) ∷ map) = (key ≡ path) ⊎ In path map

key_at-In :
    (index : ℕ) (first : FilePath) (map : Map)
    → (key_at index first map ≡ first) ⊎ In (key_at index first map) map
unfolding key_at
key_at-In index first [] = inl refl
key_at-In zero first ((key, entry) ∷ map) = inr (inl refl)
key_at-In (suc index) first ((key, entry) ∷ map) = elim (key_at-In index key map) [
  | inl same ↦ inr (inl (sym same))
  | inr later ↦ inr (inr later)
]

length-without_key-lt :
    (path : FilePath) (map : Map) → In path map → length (without_key path map) < length map
unfolding without_key
length-without_key-lt path [] h = absurd h
length-without_key-lt path ((key, entry) ∷ map) (inl same) =
    rw same (ground (arith, path_eq_refl path))
length-without_key-lt path ((key, entry) ∷ map) (inr later) =
    ground (arith, length-without_key-lt path map later)

module _ (next : Map → ℕ) (capacity bytes : ℕ) (cap : capacity < u64_max)
    (fits : bytes ≤ capacity) where
  -- after an eviction there is room for the new bytes, and a path without an entry stays without
  record IsEvicted (path : FilePath) (s : Shard) : Type 0 where
    bounded : IsBounded capacity s
    room : s.used + bytes ≤ capacity
    apart : All (Apart path) s.map

  evict-IsEvicted :
      (path : FilePath) (rounds : ℕ) (cells : Inflight) (map : Map) (used : ℕ)
      → length map ≤ rounds
      → IsBounded capacity (shard_of cells map used)
      → All (Apart path) map
      → IsEvicted path (evict next capacity bytes rounds (shard_of cells map used))
  unfolding evict drop_entry
  evict-IsEvicted path zero cells [] used h b a = record {
    bounded = b;
    room = omega (arith, b.used_eq, fits);
    apart = a;
  }
  evict-IsEvicted path zero cells ((key, entry) ∷ map) used h b a = absurd (omega arith)
  evict-IsEvicted path (suc rounds) cells [] used h b a = record {
    bounded = b;
    room = omega (arith, b.used_eq, fits);
    apart = a;
  }
  evict-IsEvicted path (suc rounds) cells ((key, entry) ∷ map) used h b a =
      elim (Bool-cases (ltb capacity (saturating_add used bytes))) [
        | inr enough ↦ rw enough (record { bounded = b; room = ground (arith, b.bound); apart = a })
        | inl full ↦ rw full (
            evict-IsEvicted path rounds cells (without_key picked whole)
              (released used (lookup picked whole))
              (omega (arith, length-without_key-lt picked whole present))
              (drop_entry-IsBounded picked (shard_of cells whole used) b)
              (All-without_key (Apart path) picked whole a))
      ]
    where
      whole : Map
      whole = (key, entry) ∷ map

      picked : FilePath
      picked = key_at (next whole) key whole

      present : In picked whole
      present = elim (key_at-In (next whole) key whole) [
        | inl same ↦ inl (sym same)
        | inr there ↦ there
      ]

-- Whatever order the map lists its keys in, an insertion keeps the shard within its budget: the used
-- bytes stay those of the entries and within the capacity, and no path has two entries.
pub insert-IsBounded :
    (next : Map → ℕ) (capacity : ℕ) (path : FilePath) (snapshot : Snapshot) (s : Shard)
    → capacity < u64_max
    → IsBounded capacity s
    → IsBounded capacity (insert next capacity path snapshot s)
unfolding insert
insert-IsBounded next capacity path snapshot s cap b =
    elim (Bool-cases (ltb capacity snapshot.byte_len)) [
      | inl oversize ↦ rw oversize b
      | inr fitting ↦ rw fitting (inserted (ground arith))
    ]
  where
    dropped : Shard
    dropped = drop_entry path s

    inserted :
        snapshot.byte_len ≤ capacity
        → (let evicted = evict next capacity snapshot.byte_len (length dropped.map) dropped in
            IsBounded capacity (record evicted {
              map =
                  (
                    path,
                    record {
                      snapshot = snapshot;
                      bytes = snapshot.byte_len;
                      stamp = snapshot.stamp;
                    },
                  )
                  ∷ evicted.map;
              used = saturating_add evicted.used snapshot.byte_len;
            }))
    inserted fits =
        let e =
          evict-IsEvicted next capacity snapshot.byte_len cap fits path (length dropped.map)
            dropped.inflight dropped.map dropped.used (omega arith) (drop_entry-IsBounded path s b)
            (unfold drop_entry in without_key-Apart path s.map b.distinct) in
        let k = e.bounded in
        record {
          used_eq = ground (arith, e.room, k.used_eq);
          bound = ground (arith, e.room);
          distinct = (e.apart, k.distinct);
          sized = (refl, k.sized);
        }
