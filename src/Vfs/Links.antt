-- ===== src/Vfs/Links.antt =====
-- src/kernel/vfs.c: what a new hard link shares with its file, and the end of a link.
use yabro_os.Base.{
  ℕ, ◌+◌, ◌%◌, ◌^◌, ◌<◌, ◌≡◌, ◌≢◌, refl, sym, ap, ◌∙◌, true, none, some, List, arith, ok,
}
use yabro_os.Vfs.Node.{VNode, Vfs, set_node, new_node, add, vfs_node_file, vfs_max_nodes}
use yabro_os.Vfs.Data.{owner_of, vfs_file_is_regular, vfs_file_data, vfs_file_size}
use yabro_os.Vfs.Tree.{link_node}

-- The new name `a` of the file `src`.
pub record Linked (v : Vfs) (p src a : ℕ) (v' : Vfs) : Type 0 where
  pub listed : (v'.nodes p).children ≡ some a
  pub parent : (v'.nodes a).parent ≡ some p
  pub owner : owner_of v' a ≡ owner_of v src
  pub ino : (v'.nodes a).ino ≡ (v.nodes (owner_of v src)).ino
  pub size : vfs_file_size v' a ≡ (v.nodes (owner_of v src)).size
  pub file_data : vfs_file_data v' a ≡ (v.nodes (owner_of v src)).buffer
  pub counted : (v'.nodes (owner_of v src)).nlink ≡ (v.nodes (owner_of v src)).nlink + 1

module _ (p x : ℕ) (v : Vfs) (ne : p ≢ x) where
  add-child :
      (add p x v).nodes x ≡ record (v.nodes x) { parent = some p; next = (v.nodes p).children }
  unfolding add
  add-child = ground arith

  add-parent : ((add p x v).nodes p).children ≡ some x
  unfolding add
  add-parent = ground arith

  add-other : (k : ℕ) → k ≢ p → k ≢ x → (add p x v).nodes k ≡ v.nodes k
  unfolding add
  add-other k a b = ground arith

-- The node of the new name before it is listed.
abbrev alias_node : Vfs → ℕ → List ℕ → VNode
alias_node v src name =
    let (x, w) = new_node name vfs_node_file (v.nodes src).mode v in
    let o = w.nodes (owner_of v src) in
    record (w.nodes v.node_used) {
      ino = o.ino;
      inode_owner = some (owner_of v src);
      nlink = 0;
      buffer = o.buffer;
      size = o.size;
      capacity = o.capacity;
    }

-- The state before the new name is listed.
abbrev before_add : Vfs → ℕ → List ℕ → Vfs
before_add v src name =
    let (x, w) = new_node name vfs_node_file (v.nodes src).mode v in
    let alias = set_node v.node_used (alias_node v src name) w in
    let o = owner_of v src in
    set_node o (record (alias.nodes o) { nlink = ((alias.nodes o).nlink + 1) % 2 ^ 32 }) alias

module _ (v : Vfs) (p src : ℕ) (name : List ℕ) (room : v.node_used < vfs_max_nodes)
    (own : owner_of v src < v.node_used) where
  new_found : (new_node name vfs_node_file (v.nodes src).mode v).0 ≡ some v.node_used
  unfolding new_node
  new_found = ground arith

  link_value : link_node p name src v ≡ (ok, add p v.node_used (before_add v src name))
  unfolding link_node
  link_value = ground (arith, new_found)

  new_other :
      (k : ℕ)
      → k ≢ v.node_used
      → (new_node name vfs_node_file (v.nodes src).mode v).1.nodes k ≡ v.nodes k
  unfolding new_node
  new_other k ne = ground arith

  new_type :
      ((new_node name vfs_node_file (v.nodes src).mode v).1.nodes v.node_used).type ≡ vfs_node_file
  unfolding new_node
  new_type = ground arith

  alias_there : (before_add v src name).nodes v.node_used ≡ alias_node v src name
  alias_there = ground arith

  owner_there : (before_add v src name).nodes (owner_of v src) ≡ record (v.nodes (owner_of v src)) {
    nlink = ((v.nodes (owner_of v src)).nlink + 1) % 2 ^ 32;
  }
  owner_there = ground (arith, new_other (owner_of v src))

  module _ (pos : p < v.node_used) (apart : p ≢ owner_of v src) where
    abbrev linked : Vfs
    linked = add p v.node_used (before_add v src name)

    linked_alias : linked.nodes v.node_used ≡ record (alias_node v src name) {
      parent = some p;
      next = ((before_add v src name).nodes p).children;
    }
    linked_alias =
        add-child p v.node_used (before_add v src name) (omega arith)
        ∙ ap
            (λ (x : VNode). record x {
              parent = some p;
              next = ((before_add v src name).nodes p).children;
            })
            alias_there

    linked_owner : linked.nodes (owner_of v src) ≡ record (v.nodes (owner_of v src)) {
      nlink = ((v.nodes (owner_of v src)).nlink + 1) % 2 ^ 32;
    }
    linked_owner =
        add-other p v.node_used (before_add v src name) (omega arith) (owner_of v src)
          (λ e. apart (sym e)) (omega arith)
        ∙ owner_there

    alias_owner : owner_of linked v.node_used ≡ owner_of v src
    unfolding owner_of
    alias_owner =
        ap (λ (x : VNode). elim x.inode_owner [ none ↦ v.node_used | some o ↦ o ]) linked_alias

    alias_regular : vfs_file_is_regular linked v.node_used ≡ true
    unfolding vfs_file_is_regular
    alias_regular = rw (linked_alias, new_type) refl

    linked-Linked :
        (v.nodes (owner_of v src)).nlink + 1 < 2 ^ 32 → Linked v p src v.node_used linked
    unfolding vfs_file_size vfs_file_data
    linked-Linked count = record {
      listed = add-parent p v.node_used (before_add v src name) (omega arith);
      parent = rw linked_alias refl;
      owner = alias_owner;
      ino =
          ap (λ (x : VNode). x.ino) linked_alias
          ∙ ap (λ (x : VNode). x.ino) (new_other (owner_of v src) (omega arith));
      size = rw (alias_regular, alias_owner, linked_owner) refl;
      file_data = rw (alias_regular, alias_owner, linked_owner) refl;
      counted = rw linked_owner (omega arith);
    }

-- While a node is free and the count of links is below its limit, `link_node` succeeds: the new name
-- is the first child of the directory, and has the owner, the number, the size and the buffer of the
-- file, whose count of links goes up by one. The directory and the owner are assumed to be different
-- nodes in use.
pub link_node-Linked :
    (v : Vfs) (p src : ℕ) (name : List ℕ)
    → v.node_used < vfs_max_nodes
    → p < v.node_used
    → owner_of v src < v.node_used
    → p ≢ owner_of v src
    → (v.nodes (owner_of v src)).nlink + 1 < 2 ^ 32
    → ((link_node p name src v).0 ≡ ok) × Linked v p src v.node_used (link_node p name src v).1
link_node-Linked v p src name room pos own apart count =
    let value = link_value v p src name room own in
    rw value (refl, linked-Linked v p src name room own pos apart count)
