-- ===== src/Vfs/Rename.antt =====
-- src/kernel/vfs.c: `vfs_rename`, and files of the boot medium.
use yabro_os.Base.{
  ℕ, zero, suc, ◌-◌, Bool, false, ◌&&◌, ◌||◌, not, Option, none, some, List, [], ◌∷◌, ◌==◌,
  if◌then◌else◌, length, Code, ok, err,
}
use yabro_os.Vfs.Node.{
  Vfs, set_node, new_node, add, mkd, cp, file_mode, vfs_name_max, vfs_node_dir, vfs_node_boot_file,
}
use yabro_os.Vfs.Data.{vfs_drop_link}
use yabro_os.Vfs.Path.{
  split_path, vfs_lookup, vfs_lookup_child, vfs_parent_for_create, vfs_path_max,
}
use yabro_os.Vfs.Tree.{has_mount, released, unchain}

-- The way up from `x`, with `k` steps left.
unfoldable pub is_ancestor_from : ℕ → Vfs → ℕ → ℕ → Bool
is_ancestor_from zero v a x = false
is_ancestor_from (suc k) v a x =
    x == a || elim (v.nodes x).parent [ none ↦ false | some p ↦ is_ancestor_from k v a p ]

unfoldable pub vfs_is_ancestor : ℕ → ℕ → Vfs → Bool
vfs_is_ancestor a x v = is_ancestor_from v.node_used v a x

-- The node that the new name has now is removed.
unfoldable pub replace_existing : ℕ → Vfs → Option Vfs
replace_existing e v =
    if has_mount v e || (v.nodes e).type == vfs_node_dir then none else elim (v.nodes e).parent [
      | none ↦ none
      | some p ↦ elim (unchain p e v) [
        | none ↦ none
        | some w ↦ some (vfs_drop_link e (released e w))
      ]
    ]

-- The node leaves its old chain, if it is in one.
unfoldable pub leave_chain : ℕ → Vfs → Vfs
leave_chain n v = elim (v.nodes n).parent [
  | none ↦ v
  | some op ↦ elim (unchain op n v) [ none ↦ v | some w ↦ w ]
]

-- It goes under `p` with the new name.
unfoldable pub move_node : ℕ → ℕ → List ℕ → Vfs → Vfs
move_node n p name v =
    let left = leave_chain n v in
    add p n (set_node n (record (left.nodes n) { name = cp vfs_name_max name }) left)

-- `existing` is what the lookup of the new path finds.
unfoldable pub rename_to : ℕ → ℕ → List ℕ → Option ℕ → Vfs → Code × Vfs
rename_to n p name existing v = elim existing [
  | none ↦ (ok, move_node n p name v)
  | some e ↦
      if e == n
      then (ok, v)
      else elim (replace_existing e v) [ none ↦ (err 1, v) | some w ↦ (ok, move_node n p name w) ]
]

unfoldable pub rename_under : ℕ → Option (ℕ × List ℕ) → List ℕ → Vfs → Code × Vfs
rename_under n none newpath v = (err 1, v)
rename_under n (some (p, name)) newpath v =
    let (existing, w) = vfs_lookup newpath v in
    if not ((v.nodes p).type == vfs_node_dir)
    then (err 1, v)
    else if (v.nodes n).type == vfs_node_dir && vfs_is_ancestor n p v
    then (err 1, v)
    else rename_to n p name existing w

unfoldable pub vfs_rename : List ℕ → List ℕ → Vfs → Code × Vfs
vfs_rename oldpath newpath v =
    let (found, v1) = vfs_lookup oldpath v in
    let (parent, v2) = vfs_parent_for_create newpath v1 in
    elim found [
      | none ↦ (err 1, v1)
      | some n ↦
          if n == v1.root_node || has_mount v1 n
          then (err 1, v1)
          else rename_under n parent newpath v2
    ]

-- The parts of the path of a boot file; directories on the way are made, and the last part is the
-- file. A file that is there gets the new size.
abbrev pub boot_child : List ℕ → ℕ → ℕ → Vfs → Code × Vfs
boot_child path size c v =
    if (v.nodes c).type == vfs_node_boot_file
    then (
      ok,
      set_node c
          (record (v.nodes c) {
            size = size;
            capacity = size;
            boot_path = cp (vfs_path_max - 1) path;
          })
          v,
    )
    else (err 1, v)

unfoldable pub new_boot_file : List ℕ → ℕ → ℕ → List ℕ → Vfs → Code × Vfs
new_boot_file path size parent part v =
    let (x, w) = new_node part vfs_node_boot_file file_mode v in
    elim x [
      | none ↦ (err 1, w)
      | some i ↦ (
        ok,
        add parent i (
            set_node i
              (record (w.nodes i) {
                size = size;
                capacity = size;
                boot_path = cp (vfs_path_max - 1) path;
              })
              w),
      )
    ]

unfoldable pub import_parts : List ℕ → ℕ → List (List ℕ) → ℕ → Vfs → Code × Vfs
import_parts path size [] parent v = (err 1, v)
import_parts path size (part ∷ []) parent v =
    let (child, v1) = vfs_lookup_child parent part v in
    elim child [
      | some c ↦ boot_child path size c v1
      | none ↦ new_boot_file path size parent part v1
    ]
import_parts path size (part ∷ next ∷ parts) parent v =
    let (child, v1) = vfs_lookup_child parent part v in
    let (made, v2) = mkd parent part v1 in
    elim child [
      | some c ↦
          if (v1.nodes c).type == vfs_node_dir
          then import_parts path size (next ∷ parts) c v1
          else (err 1, v1)
      | none ↦ elim made [
        | none ↦ (err 1, v2)
        | some c ↦ import_parts path size (next ∷ parts) c v2
      ]
    ]

unfoldable pub vfs_import_boot_file : List ℕ → ℕ → Vfs → Code × Vfs
vfs_import_boot_file path size v =
    if length path == 0 || size == 0
    then (err 1, v)
    else import_parts path size (split_path [] path) v.root_node v
