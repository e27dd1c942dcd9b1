-- ===== src/Server/Roots.antt =====
-- Which root a server has after a client has named its own.
use hashline_rs.Prelude.{
  ◌≡◌, refl, ap, ◌⊎◌, inl, inr, Bool, true, false, List, [], ◌∷◌, Option, none, some, Result, ok,
  err, Bytes, if◌then◌else◌, Bool-cases,
}
use hashline_rs.Paths.{FilePath, path_eq, path_eq→eq}
use hashline_rs.Os.{ret, canonicalize, file_type, directory}
use hashline_rs.Os.Always.{event, Log, Always, ends, asks, Then, Always->>=, Always-mono, Always-if}
use hashline_rs.Server.{
  HashlineServer, replace_root, set_root, usable, adopt_first, Peer, adopt_client_roots,
}

-- the path is one of several
abbrev pub OneOf : FilePath → List FilePath → Type 0
OneOf path [] = ⊥
OneOf path (p ∷ paths) = (path ≡ p) ⊎ OneOf path paths

-- The root is the resolved path of a candidate, which the last calls found to be a directory; nothing
-- else has changed.
pub record IsAdopted (s : HashlineServer) (candidates : List FilePath) (log : Log)
    (next : HashlineServer) : Type 0 where
  pub candidate : FilePath
  pub canonical : FilePath
  pub earlier : Log
  pub listed : OneOf candidate candidates
  pub calls :
      log
      ≡ event (file_type canonical) (ok directory)
        ∷ event (canonicalize candidate) (ok canonical)
        ∷ earlier
  pub changed : next ≡ record s { root = canonical }

replace_root_lem :
    (s : HashlineServer) (canonical : FilePath)
    → replace_root s canonical ≡ record s { root = canonical }
replace_root_lem s canonical = elim (Bool-cases (path_eq s.root canonical)) [
  | inr other ↦ rw other refl
  | inl same ↦ rw same (ap (λ r. record s { root = r }) (path_eq→eq s.root canonical same))
]

-- where `set_root` may end
Set : HashlineServer → FilePath → Log → Result ⊥ (Bool × HashlineServer) → Type 0
Set s candidate log (ok (true, next)) = IsAdopted s (candidate ∷ []) log next
Set s candidate log (ok (false, next)) = next ≡ s
Set s candidate log (err e) = ⊥

set_root-Set :
    (s : HashlineServer) (candidate : FilePath) {log : Log}
    → Always (Set s candidate) log (set_root s candidate)
unfolding set_root Set
set_root-Set s candidate {log} =
    Always-if s.root_pinned (λ pinned. ends refl)
      (λ free. asks (elim [
        | err e ↦ ends refl
        | ok canonical ↦ asks (elim [
          | err e ↦ ends refl
          | ok directory ↦ ends (record {
            candidate = candidate;
            canonical = canonical;
            earlier = log;
            listed = inl refl;
            calls = refl;
            changed = replace_root_lem s canonical;
          })
          | ok _ ↦ ends refl
        ])
      ]))

-- The server is as before, or has adopted one of the candidates.
Kept : HashlineServer → List FilePath → Log → Result ⊥ HashlineServer → Type 0
Kept s candidates log (ok next) = (next ≡ s) ⊎ IsAdopted s candidates log next
Kept s candidates log (err e) = ⊥

adopt_first-Kept :
    (s : HashlineServer) (paths : List FilePath) {log : Log}
    → Always (Kept s paths) log (adopt_first s paths)
unfolding adopt_first Kept Set
adopt_first-Kept s [] = ends (inl refl)
adopt_first-Kept s (path ∷ paths) = Always->>= (Kept s (path ∷ paths)) (set_root s path) _ (
    Always-mono (set_root s path) (behind_set (λ l. adopt_first-Kept s paths {log = l}))
      (set_root-Set s path))
  where
    later :
        (log : Log) (r : Result ⊥ HashlineServer) → Kept s paths log r → Kept s (path ∷ paths) log r
    later log (ok next) (inl same) = inl same
    later log (ok next) (inr a) = inr (record {
      candidate = a.candidate;
      canonical = a.canonical;
      earlier = a.earlier;
      listed = inr a.listed;
      calls = a.calls;
      changed = a.changed;
    })
    later log (err e) h = h

    first :
        (log : Log) (next : HashlineServer)
        → IsAdopted s (path ∷ []) log next
        → IsAdopted s (path ∷ paths) log next
    first log next a = record {
      candidate = a.candidate;
      canonical = a.canonical;
      earlier = a.earlier;
      listed = elim a.listed [ inl same ↦ inl same | inr never ↦ absurd never ];
      calls = a.calls;
      changed = a.changed;
    }

    behind_set :
        ((l : Log) → Always (Kept s paths) l (adopt_first s paths))
        → (log : Log) (r : Result ⊥ (Bool × HashlineServer)) → Set s path log r
        → Then
            (Kept s (path ∷ paths))
            (λ (adopted, next). if adopted then ret (ok next) else adopt_first next paths)
            log
            r
    behind_set rest log (ok (true, next)) a = ends (inr (first log next a))
    behind_set rest log (ok (false, next)) same =
        rw same (Always-mono (adopt_first s paths) later (rest log))
    behind_set rest log (err e) h = h

-- A server whose root is not pinned may have adopted a root that the client lists.
pub Adopted : (Bytes → Bytes) → HashlineServer → Peer → Log → Result ⊥ HashlineServer → Type 0
Adopted percent_decode s peer log (ok next) =
    (next ≡ s)
    ⊎ ((s.root_pinned ≡ false)
        × ((uris : List Bytes) × (peer.list_roots ≡ ok uris)
            × IsAdopted s (usable percent_decode uris) log next))
Adopted percent_decode s peer log (err e) = ⊥

-- Whatever a client says and whatever the answers are, the server stays as it is, or its root was not
-- pinned and is now the resolved path of a `file://` root on the client's list, which the last calls
-- found to be a directory; nothing else of it changes.
pub adopt_client_roots-Adopted :
    (percent_decode : Bytes → Bytes) (s : HashlineServer) (peer : Peer)
    → Always (Adopted percent_decode s peer) [] (adopt_client_roots percent_decode s peer)
unfolding adopt_client_roots Adopted Kept
adopt_client_roots-Adopted percent_decode s peer =
    Always-if s.root_pinned (λ pinned. ends (inl refl)) (λ free. said free peer.advertises_roots)
  where
    kept :
        s.root_pinned ≡ false
        → (uris : List Bytes) → peer.list_roots ≡ ok uris
        → (log : Log) (r : Result ⊥ HashlineServer) → Kept s (usable percent_decode uris) log r
        → Adopted percent_decode s peer log r
    kept free uris e log (ok next) (inl same) = inl same
    kept free uris e log (ok next) (inr a) = inr (free, (uris, e, a))
    kept free uris e log (err f) h = h

    answered :
        s.root_pinned ≡ false
        → (answer : Result Bytes (List Bytes)) → peer.list_roots ≡ answer
        → Always (Adopted percent_decode s peer) [] (elim answer [
          | err e ↦ ret (ok s)
          | ok uris ↦ adopt_first s (usable percent_decode uris)
        ])
    answered free (err e) f = ends (inl refl)
    answered free (ok uris) f =
        Always-mono (adopt_first s (usable percent_decode uris)) (kept free uris f)
          (adopt_first-Kept s (usable percent_decode uris))

    said :
        s.root_pinned ≡ false
        → (o : Option Bool)
        → Always (Adopted percent_decode s peer) [] (elim o [
          | none ↦ ret (ok s)
          | some false ↦ ret (ok s)
          | some true ↦ elim peer.list_roots [
            | err e ↦ ret (ok s)
            | ok uris ↦ adopt_first s (usable percent_decode uris)
          ]
        ])
    said free none = ends (inl refl)
    said free (some false) = ends (inl refl)
    said free (some true) = answered free peer.list_roots refl
