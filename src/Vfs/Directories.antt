-- ===== src/Vfs/Directories.antt =====
-- src/kernel/vfs.c: `vfs_ensure_dir`.
use yabro_os.Base.{
  ℕ, none, some, List, [], ◌∷◌, ◌++◌, ltb, leb, not, ◌||◌, ◌==◌, if◌then◌else◌, length, reverse,
  Code, ok, err,
}
use yabro_os.Vfs.Node.{Vfs, vfs_name_max, vfs_node_dir}
use yabro_os.Vfs.Path.{slash, vfs_lookup, vfs_path_max}
use yabro_os.Vfs.Tree.{vfs_mkdir}

-- The parts of a path between slashes, empty ones left out; `part` is the part read so far, backwards.
abbrev pub end_whole : List ℕ → List (List ℕ)
end_whole [] = []
end_whole (c ∷ cs) = reverse (c ∷ cs) ∷ []

unfoldable pub whole_parts : List ℕ → List ℕ → List (List ℕ)
whole_parts part [] = end_whole part
whole_parts part (c ∷ cs) =
    let rest = whole_parts [] cs in
    let more = whole_parts (c ∷ part) cs in if c == slash then end_whole part ++ rest else more

-- One directory of the path: it is there, or it is made.
unfoldable pub ensure_one : List ℕ → Vfs → Code × Vfs
ensure_one cur v =
    let (found, v1) = vfs_lookup cur v in
    let (made, v2) = vfs_mkdir cur 493 v1 in
    let (again, v3) = vfs_lookup cur v2 in
    elim found [
      | some x ↦ (if (v1.nodes x).type == vfs_node_dir then ok else err 1, v1)
      | none ↦ elim made [
        | some x ↦ (ok, v2)
        | none ↦ (elim again [ none ↦ err 1 | some x ↦ ok ], v3)
      ]
    ]

-- A part may not be longer than a name, and the path so far must fit.
unfoldable pub ensure_parts : List (List ℕ) → List ℕ → Vfs → Code × Vfs
ensure_parts [] cur v = (ok, v)
ensure_parts (part ∷ parts) cur v =
    let joined = if ltb 1 (length cur) then cur ++ (slash ∷ []) else cur in
    let here = joined ++ part in
    let (done, w) = ensure_one here v in
    if ltb vfs_name_max (length part) || leb vfs_path_max (length here)
    then (err 1, v)
    else elim done [ err c ↦ (err c, w) | ok ↦ ensure_parts parts here w ]

-- The last test of `vfs_ensure_dir`.
unfoldable pub ends_in_dir : List ℕ → Vfs → Code × Vfs
ends_in_dir path v =
    let (found, w) = vfs_lookup path v in
    elim found [
      | none ↦ (err 1, w)
      | some x ↦ (if (w.nodes x).type == vfs_node_dir then ok else err 1, w)
    ]

unfoldable pub vfs_ensure_dir : List ℕ → Vfs → Code × Vfs
vfs_ensure_dir [] v = (err 1, v)
vfs_ensure_dir (c ∷ cs) v =
    let (done, w) = ensure_parts (whole_parts [] cs) (slash ∷ []) v in
    if not (c == slash)
    then (err 1, v)
    else if length cs == 0
    then (ok, v)
    else elim done [ err n ↦ (err n, w) | ok ↦ ends_in_dir (c ∷ cs) w ]
