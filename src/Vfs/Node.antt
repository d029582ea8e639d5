-- ===== src/Vfs/Node.antt =====
-- src/kernel/vfs.h and src/kernel/vfs.c: nodes, the tables that hold them, new nodes.
-- A pointer to a node is its index in `nodes`, a name is the list of its bytes without the final 0.
use yabro_os.Base.{
  ℕ, zero, suc, ◌+◌, ◌^◌, ◌%◌, Bool, ◌&&◌, ◌||◌, Option, none, some, List, [], ◌∷◌, leb, ◌==◌,
  if◌then◌else◌, update,
}

abbrev pub vfs_max_nodes : ℕ
vfs_max_nodes = 16384

abbrev pub vfs_name_max : ℕ
vfs_name_max = 31

abbrev pub vfs_data_slot_size : ℕ
vfs_data_slot_size = 65536

abbrev pub vfs_data_slots : ℕ
vfs_data_slots = 64

-- `enum vfs_node_type`
abbrev pub vfs_node_dir : ℕ
vfs_node_dir = 1

abbrev pub vfs_node_file : ℕ
vfs_node_file = 2

abbrev pub vfs_node_symlink : ℕ
vfs_node_symlink = 4

abbrev pub vfs_node_boot_file : ℕ
vfs_node_boot_file = 17

-- `S_IFDIR | 0755` and `S_IFLNK | 0777`
abbrev pub dir_mode : ℕ
dir_mode = 16877

abbrev pub link_mode : ℕ
link_mode = 41471

-- `S_IFREG | 0444` and `0020000 | 0666`
abbrev pub file_mode : ℕ
file_mode = 33060

abbrev pub device_mode : ℕ
device_mode = 8630

-- `buffer` (`data` in the source) is the number of a buffer: a slot of `vfs_data_pool`, or `xorg_log`.
pub record VNode : Type 0 where
  pub name : List ℕ
  pub ino : ℕ
  pub mode : ℕ
  pub type : ℕ
  pub parent : Option ℕ
  pub children : Option ℕ
  pub next : Option ℕ
  pub mounted : Option ℕ
  pub link_target : List ℕ
  pub boot_path : List ℕ
  pub buffer : Option ℕ
  pub size : ℕ
  pub capacity : ℕ
  pub nlink : ℕ
  pub inode_owner : Option ℕ

-- The number of the buffer `vfs_xorg_log_data`.
abbrev pub xorg_log : ℕ
xorg_log = vfs_data_slots

-- `mounts` gives the root of each mount.
pub record Vfs : Type 0 where
  pub nodes : ℕ → VNode
  pub node_used : ℕ
  pub next_ino : ℕ
  pub vfs_data_used : ℕ → Bool
  pub buffers : ℕ → ℕ → ℕ
  pub root_node : ℕ
  pub mounts : ℕ → Option ℕ

abbrev pub set_node : ℕ → VNode → Vfs → Vfs
set_node i n v = record v { nodes = update v.nodes i n }

-- `cp(d, n)`: the first 31 bytes.
unfoldable pub cp : ℕ → List ℕ → List ℕ
cp zero n = []
cp (suc k) [] = []
cp (suc k) (c ∷ cs) = c ∷ cp k cs

unfoldable pub new_node : List ℕ → ℕ → ℕ → Vfs → Option ℕ × Vfs
new_node name type mode v =
    let x : VNode = record {
      name = cp vfs_name_max name;
      ino = v.next_ino;
      mode = mode;
      type = type;
      parent = none;
      children = none;
      next = none;
      mounted = none;
      link_target = [];
      boot_path = [];
      buffer = none;
      size = 0;
      capacity = 0;
      nlink = 1;
      inode_owner = some v.node_used;
    } in
    if leb vfs_max_nodes v.node_used then (none, v) else (
      some v.node_used,
      record (set_node v.node_used x v) {
        node_used = v.node_used + 1;
        next_ino = (v.next_ino + 1) % 2 ^ 64;
      },
    )

-- `x->parent = p; x->next = p->children; p->children = x;`
unfoldable pub add : ℕ → ℕ → Vfs → Vfs
add p x v =
    let linked =
      set_node x (record (v.nodes x) { parent = some p; next = (v.nodes p).children }) v in
    set_node p (record (linked.nodes p) { children = some x }) linked

-- A new node under `p`, after a change to it.
abbrev pub new_child : ℕ → Option ℕ × Vfs → (VNode → VNode) → Option ℕ × Vfs
new_child p (none, v) change = (none, v)
new_child p (some x, v) change = (some x, add p x (set_node x (change (v.nodes x)) v))

unfoldable pub mkd : ℕ → List ℕ → Vfs → Option ℕ × Vfs
mkd p name v = new_child p (new_node name vfs_node_dir dir_mode v) (λ n. n)

-- Whether the type is one of the devices' types that `mkf` names.
unfoldable pub is_device : ℕ → Bool
is_device t = (leb 10 t && leb t 15) || t == 18 || t == 19 || t == 20

unfoldable pub mkf : ℕ → List ℕ → ℕ → Vfs → Option ℕ × Vfs
mkf p name t v =
    new_child p (new_node name t (if is_device t then device_mode else file_mode) v) (λ n. n)

unfoldable pub mkl : ℕ → List ℕ → List ℕ → Vfs → Option ℕ × Vfs
mkl p name target v =
    new_child p (new_node name vfs_node_symlink link_mode v)
      (λ n. record n { link_target = target })
