-- ===== src/Vfs/Tests.antt =====
-- A filesystem with one file and a hard link, and the theorems about src/kernel/vfs.c at it.
use yabro_os.Base.{
  false, ◌≢◌, ℕ, ◌+◌, ◌-◌, ◌<◌, ◌≤◌, ◌≡◌, refl, ◌⊎◌, true, none, some, List, [], ◌∷◌, ltb, ◌==◌,
  if◌then◌else◌, arith, ok,
}
use yabro_os.Vfs.Node.{
  Vfs, VNode, vfs_node_file, vfs_node_dir, vfs_data_slot_size, cp, add, new_node,
}
use yabro_os.Vfs.Data.{
  owner_of, vfs_file_is_regular, vfs_file_truncate, vfs_file_write, wrote, min_of,
  vfs_alloc_file_data, free_slot,
}
use yabro_os.Vfs.Text.{Out, proc_put_u64}
use yabro_os.Vfs.Contents.{IsFile, Sized, vfs_file_write-Sized, vfs_file_truncate-Sized}
use yabro_os.Vfs.Decimal.{Printed, number, all_digits, no_leading_zero, proc_put_u64-Printed}
use yabro_os.Vfs.Path.{
  eq_name, eq_dir_name, siblings, find_node, respelled, vfs_lookup_child, mr, split_path, go_up,
  walk_parts, vfs_lookup, to_slash, drop_slashes, vfs_parent_for_create,
}
use yabro_os.Vfs.Tree.{
  link_node, push, push_all, push_slash, canonical_parts, canonicalize_system_path, give_data,
  make_node, make_file, vfs_create_file, below_root, make_at, vfs_mkdir, link_at, vfs_link,
}
use yabro_os.Vfs.Links.{Linked, link_node-Linked}
use yabro_os.Vfs.Listing.{sort_items}
use yabro_os.Vfs.Sorted.{count, is_falling, sort_items_lem}
use yabro_os.Vfs.Slots.{SlotTaken, vfs_alloc_file_data-SlotTaken}

-- Node 1 is the file, node 2 another name of it.
abbrev file_node : VNode
file_node = record {
  name = 97 ∷ [];
  ino = 2;
  mode = 33206;
  type = vfs_node_file;
  parent = some 0;
  children = none;
  next = none;
  mounted = none;
  link_target = [];
  boot_path = [];
  buffer = some 5;
  size = 10;
  capacity = vfs_data_slot_size;
  nlink = 2;
  inode_owner = some 1;
}

abbrev one_file : Vfs
one_file = record {
  nodes = λ _. file_node;
  node_used = 3;
  next_ino = 3;
  vfs_data_used = λ i. i == 5;
  buffers = λ _ _. 7;
  root_node = 0;
  mounts = λ _. none;
}

two-IsFile : IsFile one_file 2 5
unfolding vfs_file_is_regular owner_of
two-IsFile = record { regular = refl; buffer = refl }

capacity_two : (one_file.nodes (owner_of one_file 2)).capacity ≡ 65536
capacity_two = refl

vfs_file_write-Sized_example :
    let (r, v') = vfs_file_write 2 8 (some (λ i. i)) 4 one_file in
    let w = min_of 4 ((one_file.nodes (owner_of one_file 2)).capacity - 8) in
    let size = (one_file.nodes (owner_of one_file 2)).size in
    (r ≡ wrote w)
    × Sized one_file 2 5 (if ltb size (8 + w) then 8 + w else size) v'
    × ((j : ℕ) → j < w → v'.buffers 5 (8 + j) ≡ j)
    × ((j : ℕ) → (j < 8) ⊎ (8 + w ≤ j) → v'.buffers 5 j ≡ one_file.buffers 5 j)
vfs_file_write-Sized_example =
    vfs_file_write-Sized one_file 2 5 8 4 (λ i. i) two-IsFile (omega arith)

vfs_file_truncate-Sized_example :
    let (r, v') = vfs_file_truncate 2 20 one_file in
    let size = (one_file.nodes (owner_of one_file 2)).size in
    (r ≡ ok)
    × Sized one_file 2 5 20 v'
    × ((j : ℕ) → j < size → v'.buffers 5 j ≡ one_file.buffers 5 j)
    × ((j : ℕ) → size ≤ j → j < 20 → v'.buffers 5 j ≡ 0)
vfs_file_truncate-Sized_example = vfs_file_truncate-Sized one_file 2 5 20 two-IsFile (omega arith)

owner_in_use : owner_of one_file 2 < 3
unfolding owner_of
owner_in_use = omega arith

owner_apart : 0 ≢ owner_of one_file 2
unfolding owner_of
owner_apart e = omega (arith, e)

links_few : (one_file.nodes (owner_of one_file 2)).nlink + 1 < 4294967296
links_few = omega arith

link_node-Linked_example :
    ((link_node 0 (98 ∷ []) 2 one_file).0 ≡ ok)
    × Linked one_file 0 2 3 (link_node 0 (98 ∷ []) 2 one_file).1
link_node-Linked_example =
    link_node-Linked one_file 0 2 (98 ∷ []) (omega arith) (omega arith) owner_in_use owner_apart
      links_few

abbrev empty_out : Out
empty_out = record { buf = λ _. 0; pos = 0 }

proc_put_u64-Printed_example :
    (s : List ℕ) × Printed empty_out s (proc_put_u64 64 1204 empty_out)
    × (all_digits s ≡ true)
    × (no_leading_zero s ≡ true)
    × (number 0 s ≡ 1204)
proc_put_u64-Printed_example =
    proc_put_u64-Printed 64 4 1204 empty_out (omega arith) (omega arith) (omega arith) (omega arith)
      refl

vfs_alloc_file_data-SlotTaken_example :
    ((i : ℕ) × ((vfs_alloc_file_data one_file).0 ≡ some i)
      × SlotTaken one_file i (vfs_alloc_file_data one_file).1)
    ⊎ (((vfs_alloc_file_data one_file).0 ≡ none)
        × ((vfs_alloc_file_data one_file).1 ≡ one_file)
        × ((i : ℕ) → i < 64 → one_file.vfs_data_used i ≡ true))
vfs_alloc_file_data-SlotTaken_example = vfs_alloc_file_data-SlotTaken one_file

-- A root directory alone.
abbrev root_dir : VNode
root_dir = record file_node {
  name = [];
  type = vfs_node_dir;
  parent = none;
  buffer = none;
  size = 0;
  capacity = 0;
  inode_owner = some 0;
}

abbrev bare : Vfs
bare = record one_file { nodes = λ _. root_dir; node_used = 1; vfs_data_used = λ _. false }

-- "/a" and "/b/a"
abbrev path_a : List ℕ
path_a = 47 ∷ 97 ∷ []

abbrev path_b : List ℕ
path_b = 47 ∷ 98 ∷ []

abbrev path_ba : List ℕ
path_ba = 47 ∷ 98 ∷ 47 ∷ 97 ∷ []

-- A file is made, linked into a new directory, found there, removed, and the other name stays.
abbrev made : Vfs
made = (vfs_link path_a path_ba (vfs_mkdir path_b 493 (vfs_create_file path_a false bare).1).1).1

found_link : (vfs_lookup path_ba made).0 ≡ some 3
unfolding vfs_link vfs_mkdir vfs_create_file vfs_lookup make_at make_file make_node link_at
    link_node give_data vfs_parent_for_create walk_parts split_path vfs_lookup_child siblings
    find_node eq_name new_node add cp to_slash drop_slashes mr go_up canonicalize_system_path
    canonical_parts push_all push push_slash below_root vfs_alloc_file_data free_slot owner_of
    eq_dir_name respelled
found_link = refl

-- Three items: "b", "A" and "c".
abbrev three_names : ℕ → List ℕ
three_names x = if x == 0 then 98 ∷ [] else if x == 1 then 65 ∷ [] else 99 ∷ []

sort_items_lem_example :
    (is_falling three_names (sort_items three_names [] (0 ∷ 1 ∷ 2 ∷ [])) ≡ true)
    × ((z : ℕ) → count z (sort_items three_names [] (0 ∷ 1 ∷ 2 ∷ [])) ≡ count z (0 ∷ 1 ∷ 2 ∷ []))
sort_items_lem_example = sort_items_lem three_names (0 ∷ 1 ∷ 2 ∷ [])
