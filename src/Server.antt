-- ===== src/Server.antt =====
-- The state of the server of src/server.rs: its root, and how it takes over the roots of a client.
pub mod Roots
pub mod Dispatch
use hashline_rs.Prelude.{
  ◌≡◌, refl, ℕ, Bool, true, false, List, [], ◌∷◌, ◌++◌, Option, none, some, if◌then◌else◌, ◌==◌,
  Result, ok, err, Bytes, codes, bytes_eq, length, drop, take, position,
}
use hashline_rs.Paths
use hashline_rs.Paths.{FilePath, path_eq}
use hashline_rs.Os.{Task, ret, call, ◌>>=◌, canonicalize, file_type, FileType, directory}
use hashline_rs.Persist.{Durability, full}
use hashline_rs.Protocol.Text.{from_utf8}
use hashline_rs.Snapshot.{IoError}
use hashline_rs.Workspace.{Workspace, make, with_durability}

-- `HashlineServer`, without the texts of its tool listing
pub record HashlineServer : Type 0 where
  pub root : FilePath
  pub root_pinned : Bool
  pub restrict : Bool
  pub durability : Durability

-- `canonicalize().unwrap_or(root)`
abbrev or_given : FilePath → Result IoError FilePath → FilePath
or_given root (ok canonical) = canonical
or_given root (err e) = root

-- `HashlineServer::new`
unfoldable pub new : {E : Type 0} → FilePath → Task E HashlineServer
new root = call (canonicalize root) (λ answer. ret (
    ok (record {
      root = or_given root answer;
      root_pinned = false;
      restrict = false;
      durability = full;
    })))

unfoldable pub with_root_pinned : HashlineServer → Bool → HashlineServer
with_root_pinned s pinned = record s { root_pinned = pinned }

unfoldable pub with_restrict : HashlineServer → Bool → HashlineServer
with_restrict s restrict = record s { restrict = restrict }

-- `HashlineServer::with_durability`
unfoldable pub with_server_durability : HashlineServer → Durability → HashlineServer
with_server_durability s durability = record s { durability = durability }

-- `HashlineServer::workspace`
unfoldable pub workspace : HashlineServer → Workspace
unfolding make with_durability
workspace s = with_durability (make s.root s.restrict) s.durability

-- `strip_prefix` and `starts_with` of texts
abbrev pub strip_text : Bytes → Bytes → Option Bytes
strip_text [] s = some s
strip_text (p ∷ prefix) [] = none
strip_text (p ∷ prefix) (b ∷ s) = let rest = strip_text prefix s in if p == b then rest else none

-- `rest.split('/').next()`: up to the first slash
abbrev pub authority : Bytes → Bytes
authority rest = elim (position b'/' rest) [ none ↦ rest | some at ↦ take at rest ]

-- a path behind an empty or local authority
unfoldable pub local_path : Bytes → Option Bytes
local_path [] = if bytes_eq [] (codes "localhost") then some [] else none
local_path (b ∷ rest) =
    if b == b'/'
    then some (b ∷ rest)
    else if bytes_eq (authority (b ∷ rest)) (codes "localhost")
    then some (drop (length (authority (b ∷ rest))) (b ∷ rest))
    else none

-- a path that is not empty, decoded, where it is UTF-8 then
decoded_path : (Bytes → Bytes) → Bytes → Option FilePath
decoded_path percent_decode [] = none
decoded_path percent_decode (b ∷ path) = elim (from_utf8 (percent_decode (b ∷ path))) [
  | some invalid ↦ none
  | none ↦ some (Paths.new (percent_decode (b ∷ path)))
]

-- `file_uri_to_path`, with the decoding of the `percent-encoding` crate
unfoldable pub file_uri_to_path : (Bytes → Bytes) → Bytes → Option FilePath
unfolding local_path decoded_path
file_uri_to_path percent_decode uri = elim (strip_text (codes "file://") uri) [
  | none ↦ none
  | some rest ↦ elim (local_path rest) [
    | none ↦ none
    | some path ↦ decoded_path percent_decode path
  ]
]

-- `canonical.is_dir()`
abbrev pub is_dir : Result IoError FileType → Bool
is_dir (ok directory) = true
is_dir _ = false

-- `*root = canonical`, where it is another path
abbrev pub replace_root : HashlineServer → FilePath → HashlineServer
replace_root s canonical = if path_eq s.root canonical then s else record s { root = canonical }

-- `HashlineServer::set_root`: whether the root was updated, and the server then
unfoldable pub set_root : {E : Type 0} → HashlineServer → FilePath → Task E (Bool × HashlineServer)
set_root s candidate =
    if s.root_pinned
    then ret (ok (false, s))
    else call (canonicalize candidate) (elim [
      | err e ↦ ret (ok (false, s))
      | ok canonical ↦ call (file_type canonical) (λ meta.
          if is_dir meta then ret (ok (true, replace_root s canonical)) else ret (ok (false, s)))
    ])

-- `filter_map(file_uri_to_path)`
abbrev pub usable : (Bytes → Bytes) → List Bytes → List FilePath
usable percent_decode [] = []
usable percent_decode (uri ∷ uris) =
    let rest = usable percent_decode uris in
    elim (file_uri_to_path percent_decode uri) [ none ↦ rest | some path ↦ path ∷ rest ]

-- `any(|path| self.set_root(path, ..))`
unfoldable pub adopt_first : {E : Type 0} → HashlineServer → List FilePath → Task E HashlineServer
unfolding set_root
adopt_first s [] = ret (ok s)
adopt_first s (path ∷ paths) =
    set_root s path >>= λ (adopted, next). if adopted then ret (ok next) else adopt_first next paths

-- What the client has said of itself, and what it answers to `roots/list`.
pub record Peer : Type 0 where
  pub advertises_roots : Option Bool
  pub list_roots : Result Bytes (List Bytes)

-- `HashlineServer::adopt_client_roots`
unfoldable pub adopt_client_roots :
    {E : Type 0} → (Bytes → Bytes) → HashlineServer → Peer → Task E HashlineServer
unfolding adopt_first
adopt_client_roots percent_decode s peer =
    if s.root_pinned then ret (ok s) else elim peer.advertises_roots [
      | none ↦ ret (ok s)
      | some false ↦ ret (ok s)
      | some true ↦ elim peer.list_roots [
        | err e ↦ ret (ok s)
        | ok uris ↦ adopt_first s (usable percent_decode uris)
      ]
    ]

uri_test :
    file_uri_to_path (λ s. s) (codes "file://localhost/w/a") ≡ some (Paths.new (codes "/w/a"))
unfolding file_uri_to_path Paths.new from_utf8 position
uri_test = refl

foreign_test : file_uri_to_path (λ s. s) (codes "file://example.org/w") ≡ none
unfolding file_uri_to_path position
foreign_test = refl
