-- ===== src/Vfs/Data.antt =====
-- src/kernel/vfs.c: the slots of file data, and reading and writing a file's contents.
-- A source of bytes is a function of the index, `none` for a null pointer.
use yabro_os.Base.{
  ℕ, zero, suc, ◌+◌, ◌-◌, Bool, true, false, ◌&&◌, ◌||◌, not, Option, none, some, ltb, leb, ◌==◌,
  if◌then◌else◌, update, Code, ok, err,
}
use yabro_os.Vfs.Node.{
  VNode, Vfs, set_node, vfs_node_file, vfs_node_boot_file, vfs_data_slots, vfs_data_slot_size,
  xorg_log,
}

-- The first slot from `i` on that is not in use, with `k` slots left.
unfoldable pub free_slot : ℕ → Vfs → ℕ → Option ℕ
free_slot zero v i = none
free_slot (suc k) v i =
    let rest = free_slot k v (i + 1) in if v.vfs_data_used i then rest else some i

-- A buffer after the bytes from `lo` to `hi` are those of `src`, from its first.
abbrev pub filled : (ℕ → ℕ) → ℕ → ℕ → (ℕ → ℕ) → ℕ → ℕ
filled buf lo hi src j = if leb lo j && ltb j hi then src (j - lo) else buf j

unfoldable pub vfs_alloc_file_data : Vfs → Option ℕ × Vfs
vfs_alloc_file_data v = elim (free_slot vfs_data_slots v 0) [
  | none ↦ (none, v)
  | some i ↦ (
    some i,
    record v {
      vfs_data_used = update v.vfs_data_used i true;
      buffers = update v.buffers i (filled (v.buffers i) 0 vfs_data_slot_size (λ _. 0));
    },
  )
]

unfoldable pub vfs_free_file_data : ℕ → Vfs → Vfs
vfs_free_file_data n v = elim (v.nodes n).buffer [
  | none ↦ v
  | some i ↦
      if ltb i vfs_data_slots
      then record (set_node n (record (v.nodes n) { buffer = none; capacity = 0 }) v) {
        vfs_data_used = update v.vfs_data_used i false;
      }
      else v
]

-- `n->inode_owner ? n->inode_owner : n`
unfoldable pub owner_of : Vfs → ℕ → ℕ
owner_of v n = elim (v.nodes n).inode_owner [ none ↦ n | some o ↦ o ]

-- `owner->data && owner->data != vfs_xorg_log_data`
abbrev pub has_slot : VNode → Bool
has_slot n = elim n.buffer [ none ↦ false | some i ↦ not (i == xorg_log) ]

unfoldable pub vfs_drop_link : ℕ → Vfs → Vfs
vfs_drop_link n v =
    let o = owner_of v n in
    let left = (v.nodes o).nlink - 1 in
    let dropped = set_node o (record (v.nodes o) { nlink = left }) v in
    let emptied = set_node o (record (dropped.nodes o) { size = 0 }) dropped in
    if ltb 0 left
    then dropped
    else if has_slot (v.nodes o)
    then vfs_free_file_data o emptied
    else emptied

unfoldable pub vfs_file_is_regular : Vfs → ℕ → Bool
vfs_file_is_regular v n = (v.nodes n).type == vfs_node_file

unfoldable pub vfs_is_boot_file : Vfs → ℕ → Bool
vfs_is_boot_file v n = (v.nodes n).type == vfs_node_boot_file

unfoldable pub vfs_file_data : Vfs → ℕ → Option ℕ
vfs_file_data v n = if vfs_file_is_regular v n then (v.nodes (owner_of v n)).buffer else none

unfoldable pub vfs_file_size : Vfs → ℕ → ℕ
vfs_file_size v n =
    if vfs_file_is_regular v n
    then (v.nodes (owner_of v n)).size
    else if vfs_is_boot_file v n
    then (v.nodes n).size
    else 0

-- `inode->data[lo + i] = src[i]` below `hi`.
unfoldable pub store_bytes : ℕ → ℕ → ℕ → (ℕ → ℕ) → Vfs → Vfs
store_bytes o lo hi src v = elim (v.nodes o).buffer [
  | none ↦ v
  | some b ↦ record v { buffers = update v.buffers b (filled (v.buffers b) lo hi src) }
]

abbrev pub set_size : ℕ → ℕ → Vfs → Vfs
set_size n s v = set_node n (record (v.nodes n) { size = s }) v

unfoldable pub vfs_file_truncate : ℕ → ℕ → Vfs → Code × Vfs
vfs_file_truncate n len v =
    let o = owner_of v n in
    let inode = v.nodes o in
    if not (vfs_file_is_regular v n) || ltb inode.capacity len then (err 1, v) else (
      ok,
      set_size o len (if ltb inode.size len then store_bytes o inode.size len (λ _. 0) v else v),
    )

unfoldable pub vfs_write_kernel_file : ℕ → Option (ℕ → ℕ) → ℕ → Vfs → Code × Vfs
vfs_write_kernel_file n bytes len v =
    let o = owner_of v n in
    let sized : Vfs → Code × Vfs = λ w. (ok, set_size n len (set_size o len w)) in
    if not (vfs_file_is_regular v n) || ltb (v.nodes o).capacity len
    then (err 1, v)
    else elim bytes [
      | none ↦ if ltb 0 len then (err 1, v) else sized v
      | some src ↦ sized (store_bytes o 0 len src v)
    ]

-- The number of bytes written, or the number of an error, returned negative.
pub data Written : Type 0 where
  wrote failed : ℕ → Written

abbrev pub min_of : ℕ → ℕ → ℕ
min_of a b = if ltb a b then a else b

-- The sizes after a write that ends at `end`.
unfoldable pub grow : ℕ → ℕ → ℕ → Vfs → Vfs
grow n o end v =
    let grown = if ltb (v.nodes o).size end then set_size o end v else v in
    set_size n (grown.nodes o).size grown

-- EINVAL is 22, EFAULT 14, ENOSPC 28.
unfoldable pub vfs_file_write : ℕ → ℕ → Option (ℕ → ℕ) → ℕ → Vfs → Written × Vfs
vfs_file_write n off bytes len v =
    let o = owner_of v n in
    let room = (v.nodes o).capacity - off in
    let w = min_of len room in
    if not (vfs_file_is_regular v n) then (failed 22, v) else elim bytes [
      | none ↦
          if ltb 0 len
          then (failed 14, v)
          else if leb (v.nodes o).capacity off
          then (failed 28, v)
          else (wrote w, grow n o (off + w) v)
      | some src ↦
          if leb (v.nodes o).capacity off
          then (failed 28, v)
          else (wrote w, grow n o (off + w) (store_bytes o off (off + w) src v))
    ]
