-- ===== src/Tests/Cache.antt =====
-- A shard of a small cache, with an entry that is evicted.
use hashline_rs.Prelude.{◌≡◌, ◌≤◌, ◌<◌, refl, ◌⊎◌, [], ◌∷◌, none, codes, arith}
use hashline_rs.Paths.{FilePath, new}
use hashline_rs.Cache.{Shard, insert, get, invalidate}
use hashline_rs.Cache.Budget.{IsBounded}
use hashline_rs.Cache.Flight.{claim, clear_inflight}
use hashline_rs.Cache.Loading.{get_or_load}
use hashline_rs.Cache.Reached.{default, fresh, later, inserts, claims, clears, Reached-IsBounded}
use hashline_rs.Cache.Served.{Got, get_or_load-Got}
use hashline_rs.Crates.{plain_crates, plain_crates-laws}
use hashline_rs.Os.Always.{Always}
use hashline_rs.Snapshot.Load.{load}
use hashline_rs.Cache.Lookups.{Behind, get-insert, get-invalidate}
use hashline_rs.Tests.Edits.{greek_snapshot}

abbrev first_path : FilePath
first_path = new (codes "a.txt")

abbrev second_path : FilePath
second_path = new (codes "b.txt")

-- one entry of 17 bytes
abbrev resident : Shard
resident = record {
  map = (first_path, record { snapshot = greek_snapshot; bytes = 17; stamp = none }) ∷ [];
  used = 17;
  inflight = [];
}

resident-IsBounded : IsBounded 20 resident
resident-IsBounded = record {
  used_eq = refl;
  bound = omega arith;
  distinct = (tt, tt);
  sized = (refl, tt);
}

-- behind an insertion, a claim and the end of the claim
Reached-IsBounded_example : IsBounded 20 (
    clear_inflight second_path
      (claim second_path none 3 (insert (λ map. 0) 20 first_path greek_snapshot default)).1)
Reached-IsBounded_example =
    Reached-IsBounded (λ map. 0) 20 (omega arith)
      (later (later (later fresh (inserts first_path greek_snapshot)) (claims second_path none 3))
        (clears second_path))

get-invalidate_example : get first_path none (invalidate first_path resident) ≡ none
get-invalidate_example = get-invalidate 20 first_path none resident resident-IsBounded

-- the inserted snapshot pushes the resident one out
get-insert_example :
    ((20 < greek_snapshot.byte_len)
      × (insert (λ map. 0) 20 second_path greek_snapshot resident ≡ resident))
    ⊎ ((greek_snapshot.byte_len ≤ 20)
        × Behind second_path first_path none greek_snapshot
            (get first_path none resident)
            (get first_path none (insert (λ map. 0) 20 second_path greek_snapshot resident)))
get-insert_example =
    get-insert (λ map. 0) 20 second_path first_path none greek_snapshot resident resident-IsBounded

get_or_load-Got_example :
    Always
      (Got plain_crates first_path)
      []
      (get_or_load first_path (load plain_crates 9 first_path))
get_or_load-Got_example = get_or_load-Got plain_crates first_path plain_crates-laws 9
