-- ===== src/Vfs/Path.antt =====
-- src/kernel/vfs.c: names, children and the lookup of paths.
-- A chain of siblings is followed for at most as many steps as there are nodes.
use yabro_os.Base.{
  ℕ, zero, suc, ◌+◌, Bool, true, false, ◌&&◌, ◌||◌, not, Option, none, some, List, [], ◌∷◌, ltb,
  leb, ◌==◌, if◌then◌else◌, length, reverse,
}
use yabro_os.Vfs.Node.{Vfs, set_node, cp, vfs_name_max, vfs_node_dir}

abbrev pub vfs_path_max : ℕ
vfs_path_max = 260

-- The bytes '/' and '.'
abbrev pub slash : ℕ
slash = 47

abbrev pub dot : ℕ
dot = 46

-- `eq(a, b)`
unfoldable pub eq_name : List ℕ → List ℕ → Bool
eq_name [] [] = true
eq_name [] (y ∷ ys) = false
eq_name (x ∷ xs) [] = false
eq_name (x ∷ xs) (y ∷ ys) = x == y && eq_name xs ys

unfoldable pub ascii_lower : ℕ → ℕ
ascii_lower c = if leb 65 c && leb c 90 then c + 32 else c

unfoldable pub eq_dir_name : List ℕ → List ℕ → Bool
eq_dir_name [] [] = true
eq_dir_name [] (y ∷ ys) = false
eq_dir_name (x ∷ xs) [] = false
eq_dir_name (x ∷ xs) (y ∷ ys) = ascii_lower x == ascii_lower y && eq_dir_name xs ys

abbrev pub is_some : Option ℕ → ℕ → Bool
is_some none i = false
is_some (some x) i = x == i

-- The nodes of a chain of siblings, with `k` steps left.
unfoldable pub siblings : ℕ → Vfs → Option ℕ → List ℕ
siblings zero v x = []
siblings (suc k) v none = []
siblings (suc k) v (some x) = x ∷ siblings k v (v.nodes x).next

abbrev pub children_of : Vfs → ℕ → List ℕ
children_of v d = siblings v.node_used v (v.nodes d).children

unfoldable pub find_node : (ℕ → Bool) → List ℕ → Option ℕ
find_node test [] = none
find_node test (x ∷ xs) = if test x then some x else find_node test xs

-- "usr" and "lib"
abbrev pub usr_name : List ℕ
usr_name = 117 ∷ 115 ∷ 114 ∷ []

abbrev pub lib_name : List ℕ
lib_name = 108 ∷ 105 ∷ 98 ∷ []

-- Whether the directory found is renamed to the spelling asked for.
unfoldable pub respelled : Vfs → ℕ → List ℕ → Bool
respelled v x name =
    is_some (v.nodes x).parent v.root_node
    && ((eq_dir_name name usr_name && eq_dir_name (v.nodes x).name usr_name)
        || (eq_dir_name name lib_name && eq_dir_name (v.nodes x).name lib_name))

unfoldable pub vfs_lookup_child : ℕ → List ℕ → Vfs → Option ℕ × Vfs
vfs_lookup_child d name v =
    let is_dir = λ (x : ℕ). (v.nodes x).type == vfs_node_dir in
    if not (is_dir d)
    then (none, v)
    else (elim (find_node (λ x. eq_name (v.nodes x).name name) (children_of v d)) [
      | some x ↦ (some x, v)
      | none ↦
          elim (find_node (λ x. is_dir x && eq_dir_name (v.nodes x).name name) (children_of v d)) [
            | none ↦ (none, v)
            | some x ↦ (
              some x,
              if respelled v x name
                  then set_node x (record (v.nodes x) { name = cp vfs_name_max name }) v
                  else v,
            )
          ]
    ])

unfoldable pub vfs_child_at : ℕ → ℕ → Vfs → Option ℕ
vfs_child_at d i v = if (v.nodes d).type == vfs_node_dir then nth (children_of v d) i else none
  where
    nth : List ℕ → ℕ → Option ℕ
    nth [] i = none
    nth (x ∷ xs) zero = some x
    nth (x ∷ xs) (suc i) = nth xs i

unfoldable pub vfs_child_count : ℕ → Vfs → ℕ
vfs_child_count d v = if (v.nodes d).type == vfs_node_dir then length (children_of v d) else 0

-- The root of the file system mounted on the node, or the node.
unfoldable pub mr : Vfs → ℕ → ℕ
mr v x = elim (v.nodes x).mounted [
  | none ↦ x
  | some m ↦ elim (v.mounts m) [ none ↦ x | some r ↦ r ]
]

-- The parts of a path between slashes, empty ones left out, each cut to 31 bytes; `part` is the part
-- read so far, backwards.
abbrev pub end_part : List ℕ → List (List ℕ) → List (List ℕ)
end_part [] rest = rest
end_part (c ∷ cs) rest = cp vfs_name_max (reverse (c ∷ cs)) ∷ rest

unfoldable pub split_path : List ℕ → List ℕ → List (List ℕ)
split_path part [] = end_part part []
split_path part (c ∷ cs) =
    let rest = split_path [] cs in
    let more = split_path (c ∷ part) cs in if c == slash then end_part part rest else more

-- The node above, past the root of a mount.
unfoldable pub go_up : Vfs → ℕ → ℕ
go_up v cur = elim (v.nodes cur).parent [
  | none ↦ cur
  | some p ↦ elim (v.nodes p).mounted [
    | none ↦ p
    | some m ↦
        if is_some (v.mounts m) cur then elim (v.nodes p).parent [ none ↦ p | some g ↦ g ] else p
  ]
]

-- The loop of `vfs_lookup`.
unfoldable pub walk_parts : List (List ℕ) → ℕ → Vfs → Option ℕ × Vfs
walk_parts [] cur v = (some cur, v)
walk_parts (part ∷ parts) cur v =
    let (found, v') = vfs_lookup_child (mr v cur) part v in
    let here = walk_parts parts cur v in
    let above = walk_parts parts (go_up v cur) v in
    if eq_name part (dot ∷ [])
    then here
    else (if eq_name part (dot ∷ dot ∷ [])
        then above
        else elim found [ none ↦ (none, v') | some x ↦ walk_parts parts (mr v' x) v' ])

unfoldable pub vfs_lookup : List ℕ → Vfs → Option ℕ × Vfs
vfs_lookup [] v = (none, v)
vfs_lookup (c ∷ cs) v =
    if not (c == slash) then (none, v) else walk_parts (split_path [] cs) v.root_node v

-- Bytes up to the first slash, and the rest from there.
unfoldable pub to_slash : List ℕ → List ℕ × List ℕ
to_slash [] = ([], [])
to_slash (c ∷ cs) =
    let (name, rest) = to_slash cs in if c == slash then ([], c ∷ cs) else (c ∷ name, rest)

unfoldable pub drop_slashes : List ℕ → List ℕ
drop_slashes [] = []
drop_slashes (c ∷ cs) = let rest = drop_slashes cs in if c == slash then rest else c ∷ cs

-- The path of the parent, from its bytes backwards with the slash before the name first.
abbrev pub parent_path : List ℕ → List ℕ
parent_path [] = []
parent_path (c ∷ []) = c ∷ []
parent_path (c ∷ d ∷ ds) = reverse (d ∷ ds)

-- The parent and the name.
unfoldable pub vfs_parent_for_create : List ℕ → Vfs → Option (ℕ × List ℕ) × Vfs
vfs_parent_for_create [] v = (none, v)
vfs_parent_for_create (c ∷ cs) v =
    let n = length (c ∷ cs) in
    let (name, rest) = to_slash (drop_slashes (reverse (c ∷ cs))) in
    let (p, v') = vfs_lookup (parent_path rest) v in
    if not (c == slash) || ltb n 2 || leb vfs_path_max n
    then (none, v)
    else (if length name == 0 || ltb vfs_name_max (length name)
        then (none, v)
        else (elim p [ none ↦ none | some x ↦ some (x, reverse name) ], v'))
