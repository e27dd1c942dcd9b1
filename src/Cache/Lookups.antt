-- ===== src/Cache/Lookups.antt =====
-- What a shard serves behind an insertion, and behind an invalidation.
use hashline_rs.Prelude.{
  ℕ, zero, suc, ◌≤◌, ◌<◌, ◌≡◌, ◌≢◌, Option-cases, refl, ◌⊎◌, false, [], ◌∷◌, Option, none, some,
  ltb, length, saturating_add, All, Bool-cases, inl, inr, arith,
}
use hashline_rs.Paths.{FilePath, path_eq, path_eq_refl, path_eq→eq}
use hashline_rs.Snapshot.{Snapshot}
use hashline_rs.Snapshot.Stamp.{FileStamp}
use hashline_rs.Cache.{
  Entry, Map, Shard, Inflight, lookup, without_key, released, drop_entry, key_at, evict, insert,
  served, get, invalidate,
}
use hashline_rs.Cache.Budget.{
  Apart, Distinct, IsBounded, shard_of, drop_entry-IsBounded, without_key-Apart,
}

lookup-Apart : (path : FilePath) (map : Map) → All (Apart path) map → lookup path map ≡ none
unfolding lookup
lookup-Apart path [] h = refl
lookup-Apart path ((key, entry) ∷ map) (a, h) = rw (a, lookup-Apart path map h) refl

-- a removal serves no path anew
lookup-without_key :
    (path removed : FilePath) (map : Map) {entry : Entry}
    → Distinct map
    → lookup path (without_key removed map) ≡ some entry
    → lookup path map ≡ some entry
unfolding lookup without_key
lookup-without_key path removed [] d h = h
lookup-without_key path removed ((key, e) ∷ map) (a, d) h = elim (Bool-cases (path_eq key path)) [
  | inl same ↦ elim (Bool-cases (path_eq key removed)) [
    | inl gone ↦
        let none_left = lookup-Apart path map (rw (path_eq→eq key path same) at a) in
        absurd (ground (arith, none_left))
    | inr kept ↦ ground arith
  ]
  | inr other ↦ elim (Bool-cases (path_eq key removed)) [
    | inl gone ↦ ground arith
    | inr kept ↦ rw other (lookup-without_key path removed map d (rw (kept, other) at h))
  ]
]

lookup-evict :
    (next : Map → ℕ) (capacity bytes rounds : ℕ) (path : FilePath) (cells : Inflight) (map : Map)
    (used : ℕ) {entry : Entry}
    → IsBounded capacity (shard_of cells map used)
    → lookup path (evict next capacity bytes rounds (shard_of cells map used)).map ≡ some entry
    → lookup path map ≡ some entry
unfolding evict drop_entry
lookup-evict next capacity bytes zero path cells map used b h = h
lookup-evict next capacity bytes (suc rounds) path cells [] used b h = h
lookup-evict next capacity bytes (suc rounds) path cells ((key, e) ∷ map) used b h =
    let whole = (key, e) ∷ map in
    let picked = key_at (next whole) key whole in
    elim (Bool-cases (ltb capacity (saturating_add used bytes))) [
      | inr enough ↦ rw enough at h
      | inl full ↦ lookup-without_key path picked whole b.distinct (
          lookup-evict next capacity bytes rounds path cells (without_key picked whole)
            (released used (lookup picked whole))
            (drop_entry-IsBounded picked (shard_of cells whole used) b) (rw full at h))
    ]

-- An invalidated path is served no more, under any stamp.
pub get-invalidate :
    (capacity : ℕ) (path : FilePath) (stamp : Option FileStamp) (s : Shard)
    → IsBounded capacity s
    → get path stamp (invalidate path s) ≡ none
unfolding get invalidate drop_entry
get-invalidate capacity path stamp s b =
    rw (get, lookup-Apart path (without_key path s.map) (without_key-Apart path s.map b.distinct))
      refl

-- the entry of an inserted snapshot
abbrev pub entry_of : Snapshot → Entry
entry_of s = record { snapshot = s; bytes = s.byte_len; stamp = s.stamp }

-- What is served for a path behind an insertion, from what was served for it before.
abbrev pub Behind :
    FilePath → FilePath → Option FileStamp → Snapshot → Option Snapshot → Option Snapshot → Type 0
Behind path other stamp snapshot before answer =
    ((path ≡ other) × (answer ≡ served stamp (entry_of snapshot)))
    ⊎ ((path ≢ other) × ((answer ≡ none) ⊎ (answer ≡ before)))

-- Behind an insertion, the inserted snapshot is what is served for its path, where the stamp that is
-- asked for is the snapshot's and not racy or none is asked for, and else nothing is; for another path
-- it is what was served before, or nothing. A snapshot above the capacity changes nothing.
pub get-insert :
    (next : Map → ℕ) (capacity : ℕ) (path other : FilePath) (stamp : Option FileStamp)
    (snapshot : Snapshot) (s : Shard)
    → IsBounded capacity s
    → ((capacity < snapshot.byte_len) × (insert next capacity path snapshot s ≡ s))
      ⊎ ((snapshot.byte_len ≤ capacity)
          × Behind path other stamp snapshot
              (get other stamp s)
              (get other stamp (insert next capacity path snapshot s)))
unfolding get insert drop_entry lookup
get-insert next capacity path other stamp snapshot s b =
    elim (Bool-cases (ltb capacity snapshot.byte_len)) [
      | inl large ↦ inl (ground arith, rw large refl)
      | inr fits ↦ inr (
        ground arith,
        elim (Bool-cases (path_eq path other)) [
          | inl same ↦ inl (path_eq→eq path other same, rw (get, fits, same) refl)
          | inr differs ↦ inr (
            λ e. apart e differs,
            elim (Option-cases (lookup other evicted.map)) [
              | inl gone ↦ inl (rw (get, fits, differs, gone) refl)
              | inr (e, found) ↦ inr (rw (get, fits, differs, found, kept e found) refl)
            ],
          )
        ],
      )
    ]
  where
    dropped : Shard
    dropped = drop_entry path s

    evicted : Shard
    evicted = evict next capacity snapshot.byte_len (length dropped.map) dropped

    kept : (e : Entry) → lookup other evicted.map ≡ some e → lookup other s.map ≡ some e
    kept e q = lookup-without_key other path s.map b.distinct (
        lookup-evict next capacity snapshot.byte_len (length dropped.map) other dropped.inflight
          dropped.map dropped.used (drop_entry-IsBounded path s b) q)

    apart : path ≡ other → path_eq path other ≡ false → ⊥
    apart e differs =
        let k : path_eq other other ≡ false = rw e at differs in let q = path_eq_refl other in cc
