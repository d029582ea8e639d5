-- ===== src/Vfs/Tree.antt =====
-- src/kernel/vfs.c: files, directories, sockets and links created, removed and renamed.
use yabro_os.Base.{
  ℕ, zero, suc, ◌+◌, ◌-◌, ◌%◌, ◌^◌, Bool, true, false, ◌||◌, not, Option, none, some, List, [], ◌∷◌,
  ltb, ◌==◌, if◌then◌else◌, length, reverse, Code, ok, err,
}
use yabro_os.Vfs.Node.{
  Vfs, set_node, new_node, add, vfs_node_dir, vfs_node_file, vfs_data_slot_size, xorg_log,
}
use yabro_os.Vfs.Data.{vfs_alloc_file_data, vfs_drop_link, owner_of, set_size}
use yabro_os.Vfs.Path.{eq_name, vfs_lookup, vfs_parent_for_create, vfs_path_max, slash, split_path}

abbrev pub vfs_node_socket : ℕ
vfs_node_socket = 21

-- `S_IFREG | 0666`
abbrev pub new_file_mode : ℕ
new_file_mode = 33206

-- "/var/log/Xorg.0.log"
abbrev pub xorg_log_path : List ℕ
xorg_log_path =
    47 ∷ 118 ∷ 97 ∷ 114 ∷ 47 ∷ 108 ∷ 111 ∷ 103 ∷ 47 ∷ 88 ∷ 111 ∷ 114 ∷ 103 ∷ 46 ∷ 48 ∷ 46 ∷ 108
    ∷ 111 ∷ 103 ∷ []

-- `if (di + 1 < cap) dst[di++] = c`, on the bytes written so far, backwards.
unfoldable pub push : ℕ → List ℕ → List ℕ
push c out = if ltb (length out + 1) vfs_path_max then c ∷ out else out

unfoldable pub push_all : List ℕ → List ℕ → List ℕ
push_all [] out = out
push_all (c ∷ cs) out = push_all cs (push c out)

-- The slash before a part, unless it is there already.
unfoldable pub push_slash : List ℕ → List ℕ
push_slash [] = []
push_slash (c ∷ []) = c ∷ []
push_slash (c ∷ d ∷ ds) = if c == slash then c ∷ d ∷ ds else push slash (c ∷ d ∷ ds)

unfoldable pub canonical_parts : List (List ℕ) → List ℕ → List ℕ
canonical_parts [] out = out
canonical_parts (part ∷ parts) out = canonical_parts parts (push_all part (push_slash out))

unfoldable pub canonicalize_system_path : List ℕ → List ℕ
canonicalize_system_path [] = []
canonicalize_system_path (c ∷ cs) =
    if c == slash then reverse (canonical_parts (split_path [] cs) (slash ∷ [])) else []

-- The new file gets its buffer: the log's own, or a slot.
unfoldable pub give_data : List ℕ → ℕ → Vfs → Bool × Vfs
give_data path x v =
    let log = record (v.nodes x) { buffer = some xorg_log; capacity = vfs_data_slot_size } in
    let (slot, w) = vfs_alloc_file_data v in
    if eq_name path xorg_log_path then (true, set_node x log v) else elim slot [
      | none ↦ (false, record w { node_used = w.node_used - 1 })
      | some i ↦ (
        true,
        set_node x (record (w.nodes x) { buffer = some i; capacity = vfs_data_slot_size }) w,
      )
    ]

-- The file exists: `truncate` empties it, and the size is copied from the owner.
unfoldable pub reopen : ℕ → Bool → Vfs → Option ℕ × Vfs
reopen n truncate v =
    let o = owner_of v n in
    let emptied = if truncate then set_size o 0 v else v in
    if (v.nodes n).type == vfs_node_file
    then (some n, set_size n (emptied.nodes o).size emptied)
    else (none, v)

-- A new node of the kind under `p`, if that is a directory.
unfoldable pub make_node : Option (ℕ × List ℕ) → ℕ → ℕ → Vfs → Option ℕ × Vfs
make_node none type mode v = (none, v)
make_node (some (p, name)) type mode v =
    let (x, w) = new_node name type mode v in
    if not ((v.nodes p).type == vfs_node_dir)
    then (none, v)
    else elim x [ none ↦ (none, w) | some i ↦ (some i, add p i w) ]

unfoldable pub make_file : List ℕ → Option (ℕ × List ℕ) → Vfs → Option ℕ × Vfs
make_file path none v = (none, v)
make_file path (some (p, name)) v =
    let (x, w) = new_node name vfs_node_file new_file_mode v in
    if not ((v.nodes p).type == vfs_node_dir) then (none, v) else elim x [
      | none ↦ (none, w)
      | some i ↦
          let (given, u) = give_data path i w in if given then (some i, add p i u) else (none, u)
    ]

unfoldable pub vfs_create_file : List ℕ → Bool → Vfs → Option ℕ × Vfs
vfs_create_file path truncate v =
    let (found, v1) = vfs_lookup path v in
    let (parent, v2) = vfs_parent_for_create path v1 in
    elim found [ some n ↦ reopen n truncate v1 | none ↦ make_file path parent v2 ]

-- `path[0] != '/' || path[1] == 0`
unfoldable pub below_root : List ℕ → Bool
below_root [] = false
below_root (c ∷ []) = false
below_root (c ∷ d ∷ ds) = c == slash

-- The canonical path must not exist, its parent must.
unfoldable pub make_at : List ℕ → ℕ → ℕ → Vfs → Option ℕ × Vfs
make_at path type mode v =
    let canon = canonicalize_system_path path in
    let (found, v1) = vfs_lookup canon v in
    let (parent, v2) = vfs_parent_for_create canon v1 in
    if not (below_root path) || length canon == 0
    then (none, v)
    else elim found [ some n ↦ (none, v1) | none ↦ make_node parent type mode v2 ]

-- `S_IFSOCK | (mode & 0777)`
unfoldable pub vfs_create_socket : List ℕ → ℕ → Vfs → Option ℕ × Vfs
vfs_create_socket path mode v = make_at path vfs_node_socket (49152 + mode % 512) v

-- `S_IFDIR | (mode & 0777)`
unfoldable pub vfs_mkdir : List ℕ → ℕ → Vfs → Option ℕ × Vfs
vfs_mkdir path mode v = make_at path vfs_node_dir (16384 + mode % 512) v

-- The alias of the file `src` under `p`.
unfoldable pub link_node : ℕ → List ℕ → ℕ → Vfs → Code × Vfs
link_node p name src v =
    let o = owner_of v src in
    let (x, w) = new_node name vfs_node_file (v.nodes src).mode v in
    elim x [
      | none ↦ (err 3, w)
      | some a ↦
          let alias =
            set_node a
              (record (w.nodes a) {
                ino = (w.nodes o).ino;
                inode_owner = some o;
                nlink = 0;
                buffer = (w.nodes o).buffer;
                size = (w.nodes o).size;
                capacity = (w.nodes o).capacity;
              })
              w in
          let counted =
            set_node o (record (alias.nodes o) { nlink = ((alias.nodes o).nlink + 1) % 2 ^ 32 })
              alias in
          (ok, add p a counted)
    ]

-- `src == root_node || src->mounted || src->type != VFS_NODE_FILE`
abbrev pub no_link : Vfs → ℕ → Bool
no_link v n =
    n == v.root_node
    || elim (v.nodes n).mounted [ none ↦ false | some m ↦ true ]
    || not ((v.nodes n).type == vfs_node_file)

unfoldable pub link_at : ℕ → Option (ℕ × List ℕ) → Option ℕ → Vfs → Vfs → Code × Vfs
link_at src none existing v w = (err 1, v)
link_at src (some (p, name)) existing v w =
    if not ((v.nodes p).type == vfs_node_dir)
    then (err 1, v)
    else elim existing [ some x ↦ (err 2, w) | none ↦ link_node p name src w ]

unfoldable pub vfs_link : List ℕ → List ℕ → Vfs → Code × Vfs
vfs_link oldpath newpath v =
    let (found, v1) = vfs_lookup oldpath v in
    let (parent, v2) = vfs_parent_for_create newpath v1 in
    let (existing, v3) = vfs_lookup newpath v2 in
    elim found [
      | none ↦ (err 1, v1)
      | some src ↦ if no_link v1 src then (err 1, v1) else link_at src parent existing v2 v3
    ]

-- The node of the chain from `x` whose next one is `n`, with `k` steps left.
unfoldable pub before : ℕ → Vfs → ℕ → ℕ → Option ℕ
before zero v n x = none
before (suc k) v n x = elim (v.nodes x).next [
  | none ↦ none
  | some y ↦ if y == n then some x else before k v n y
]

-- `*pp = n->next` where the chain of `p` has `n`; no result where it has not.
unfoldable pub unchain : ℕ → ℕ → Vfs → Option Vfs
unchain p n v =
    let after = (v.nodes n).next in
    elim (v.nodes p).children [
      | none ↦ none
      | some c ↦
          if c == n
          then some (set_node p (record (v.nodes p) { children = after }) v)
          else elim (before v.node_used v n c) [
            | none ↦ none
            | some x ↦ some (set_node x (record (v.nodes x) { next = after }) v)
          ]
    ]

abbrev pub released : ℕ → Vfs → Vfs
released n v = set_node n (record (v.nodes n) { parent = none; next = none }) v

-- The node leaves its parent's chain.
unfoldable pub detach : ℕ → Vfs → Option Vfs
detach n v = elim (v.nodes n).parent [
  | none ↦ none
  | some p ↦
      if (v.nodes p).type == vfs_node_dir
      then elim (unchain p n v) [ none ↦ none | some w ↦ some (released n w) ]
      else none
]

abbrev pub has_mount : Vfs → ℕ → Bool
has_mount v n = elim (v.nodes n).mounted [ none ↦ false | some m ↦ true ]

unfoldable pub vfs_unlink : List ℕ → Vfs → Code × Vfs
vfs_unlink path v =
    let (found, v1) = vfs_lookup path v in
    elim found [
      | none ↦ (err 1, v1)
      | some n ↦
          if n == v1.root_node || (v1.nodes n).type == vfs_node_dir || has_mount v1 n
          then (err 1, v1)
          else elim (detach n v1) [ none ↦ (err 1, v1) | some w ↦ (ok, vfs_drop_link n w) ]
    ]

abbrev pub has_children : Vfs → ℕ → Bool
has_children v n = elim (v.nodes n).children [ none ↦ false | some m ↦ true ]

unfoldable pub vfs_rmdir : List ℕ → Vfs → Code × Vfs
vfs_rmdir path v =
    let (found, v1) = vfs_lookup path v in
    elim found [
      | none ↦ (err 1, v1)
      | some n ↦
          if n == v1.root_node || not ((v1.nodes n).type == vfs_node_dir) || has_mount v1 n
          then (err 1, v1)
          else if has_children v1 n
          then (err 2, v1)
          else elim (detach n v1) [ none ↦ (err 1, v1) | some w ↦ (ok, w) ]
    ]
