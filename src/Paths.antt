-- ===== src/Paths.antt =====
-- The standard library's `Path` on Unix, as its equality compares paths: whether it is absolute, and
-- its components.
use hashline_rs.Prelude.{
  ◌≡◌, refl, ap, Bool, true, false, ◌&&◌, List, [], ◌∷◌, ◌++◌, Option, none, some, Bytes, codes,
  bytes_eq, bytes_eq_refl, bytes_eq→eq, ◌==◌, if◌then◌else◌, arith,
}

pub data Component : Type 0 where
  cur_dir parent_dir : Component
  normal : Bytes → Component

pub record FilePath : Type 0 where
  pub absolute : Bool
  pub components : List Component

-- the pieces of a text between its slashes
split_slashes : Bytes → Bytes → List Bytes
split_slashes piece [] = piece ∷ []
split_slashes piece (c ∷ s) = elim (c == b'/') [
  | true ↦ piece ∷ split_slashes [] s
  | false ↦ split_slashes (piece ++ c ∷ []) s
]

-- an empty piece, and a `.` that does not stand first, is no component
component : Bool → Bytes → Option Component
component leading piece =
    if bytes_eq piece []
    then none
    else if bytes_eq piece (codes ".")
    then (if leading then some cur_dir else none)
    else if bytes_eq piece (codes "..")
    then some parent_dir
    else some (normal piece)

components_of : Bool → List Bytes → List Component
components_of leading [] = []
components_of leading (piece ∷ pieces) =
    let rest = components_of false pieces in
    elim (component leading piece) [ none ↦ rest | some c ↦ c ∷ rest ]

abbrev starts_with_slash : Bytes → Bool
starts_with_slash [] = false
starts_with_slash (c ∷ s) = c == b'/'

-- `Path::new`
unfoldable pub new : Bytes → FilePath
unfolding split_slashes component components_of
new text =
    if starts_with_slash text
    then record { absolute = true; components = components_of false (split_slashes [] text) }
    else record { absolute = false; components = components_of true (split_slashes [] text) }

unfoldable pub init : List Component → List Component
init [] = []
init (c ∷ []) = []
init (c ∷ d ∷ cs) = c ∷ init (d ∷ cs)

-- `Path::parent`: the root and the empty path have none
unfoldable pub parent : FilePath → Option FilePath
unfolding init
parent p = elim p.components [ [] ↦ none | c ∷ cs ↦ some (record p { components = init (c ∷ cs) }) ]

-- `Path::join`
unfoldable pub join : FilePath → FilePath → FilePath
join root p = if p.absolute then p else record root { components = root.components ++ p.components }

abbrev component_eq : Component → Component → Bool
component_eq cur_dir cur_dir = true
component_eq parent_dir parent_dir = true
component_eq (normal a) (normal b) = bytes_eq a b
component_eq _ _ = false

-- `Path::starts_with`, on the components
abbrev prefix_of : List Component → List Component → Bool
prefix_of [] cs = true
prefix_of (b ∷ bs) [] = false
prefix_of (b ∷ bs) (c ∷ cs) = component_eq b c && prefix_of bs cs

-- what is left behind a base, on the components
abbrev pub behind : List Component → List Component → Option (List Component)
behind [] cs = some cs
behind (b ∷ bs) [] = none
behind (b ∷ bs) (c ∷ cs) = let rest = behind bs cs in if component_eq b c then rest else none

abbrev bool_eq : Bool → Bool → Bool
bool_eq true b = b
bool_eq false true = false
bool_eq false false = true

unfoldable pub starts_with : FilePath → FilePath → Bool
starts_with p base = bool_eq p.absolute base.absolute && prefix_of base.components p.components

-- `Path::strip_prefix`
unfoldable pub strip_prefix : FilePath → FilePath → Option FilePath
strip_prefix p base =
    if bool_eq p.absolute base.absolute
    then elim (behind base.components p.components) [
      | none ↦ none
      | some rest ↦ some (record { absolute = false; components = rest })
    ]
    else none

abbrev components_eq : List Component → List Component → Bool
components_eq [] [] = true
components_eq (a ∷ as') (b ∷ bs) = component_eq a b && components_eq as' bs
components_eq _ _ = false

-- `==` of two paths
unfoldable pub path_eq : FilePath → FilePath → Bool
path_eq p q = bool_eq p.absolute q.absolute && components_eq p.components q.components

components_eq_refl : (cs : List Component) → components_eq cs cs ≡ true
components_eq_refl [] = refl
components_eq_refl (cur_dir ∷ cs) = components_eq_refl cs
components_eq_refl (parent_dir ∷ cs) = components_eq_refl cs
components_eq_refl (normal b ∷ cs) = ground (arith, bytes_eq_refl b, components_eq_refl cs)

pub path_eq_refl : (p : FilePath) → path_eq p p ≡ true
unfolding path_eq
path_eq_refl p = ground (arith, components_eq_refl p.components)

component_eq→eq : (a b : Component) → component_eq a b ≡ true → a ≡ b
component_eq→eq cur_dir cur_dir h = refl
component_eq→eq parent_dir parent_dir h = refl
component_eq→eq (normal a) (normal b) h = ap normal (bytes_eq→eq a b h)
component_eq→eq cur_dir parent_dir h = cc
component_eq→eq cur_dir (normal b) h = cc
component_eq→eq parent_dir cur_dir h = cc
component_eq→eq parent_dir (normal b) h = cc
component_eq→eq (normal a) cur_dir h = cc
component_eq→eq (normal a) parent_dir h = cc

components_eq→eq : (xs ys : List Component) → components_eq xs ys ≡ true → xs ≡ ys
components_eq→eq [] [] h = refl
components_eq→eq [] (b ∷ ys) h = cc
components_eq→eq (a ∷ xs) [] h = cc
components_eq→eq (a ∷ xs) (b ∷ ys) h =
    let first : component_eq a b ≡ true = ground arith in
    let rest : components_eq xs ys ≡ true = ground arith in
    cong2 (component_eq→eq a b first) (components_eq→eq xs ys rest)
  where
    cong2 : {c d : Component} {cs ds : List Component} → c ≡ d → cs ≡ ds → c ∷ cs ≡ d ∷ ds
    cong2 p q = cc

-- Equal paths are the same path.
pub path_eq→eq : (p q : FilePath) → path_eq p q ≡ true → p ≡ q
unfolding path_eq
path_eq→eq p q h =
    same p.absolute q.absolute p.components q.components (ground arith)
      (components_eq→eq p.components q.components (ground arith))
  where
    made : Bool → List Component → FilePath
    made a cs = record { absolute = a; components = cs }

    same :
        (a b : Bool) (cs ds : List Component) → bool_eq a b ≡ true → cs ≡ ds → made a cs ≡ made b ds
    same true true cs ds h e = rw e refl
    same false false cs ds h e = rw e refl
    same true false cs ds h e = cc
    same false true cs ds h e = cc

abbrev text_of : Component → Bytes
text_of cur_dir = codes "."
text_of parent_dir = codes ".."
text_of (normal name) = name

joined : List Component → Bytes
joined [] = []
joined (c ∷ []) = text_of c
joined (c ∷ d ∷ cs) = text_of c ++ b'/' ∷ joined (d ∷ cs)

-- `Path::display`, of a path that is spelled as its components are
unfoldable pub display : FilePath → Bytes
unfolding joined
display p = if p.absolute then b'/' ∷ joined p.components else joined p.components

new_test : display (new (codes "/a//b/./../c/")) ≡ codes "/a/b/../c"
unfolding display new
new_test = refl

join_test : join (new (codes "/w")) (new (codes "x/y")) ≡ new (codes "/w/x/y")
unfolding join new
join_test = refl
