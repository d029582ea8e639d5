-- ===== src/Vmm/Map.antt =====
-- src/kernel/vmm.c: creating a user space, mapping and unmapping pages, activation.
use yabro_os.Base.{
  ℕ, ◌+◌, ◌%◌, true, ◌&&◌, ◌||◌, not, Option, none, some, ltb, ◌==◌, if◌then◌else◌, has, Code, ok,
  err,
}
use yabro_os.Pmm.State.{page_size, page_of, pte_addr_mask}
use yabro_os.Pmm.Alloc.{pmm_alloc_page, pmm_free_page}
use yabro_os.Vmm.Machine.{
  Machine, pte_p, pte_w, pte_u, pte_pwt, pte_pcd, pte_ps, pte_nx, addr_of, keep, idx4, idx3, idx2,
  idx1, canonical_user, table, write, zeroed, copied,
}
use yabro_os.Vmm.Walk.{leaf_table}

-- `(phys & PTE_ADDR_MASK) | PTE_P | PTE_W | PTE_U`
abbrev pub user_entry : ℕ → ℕ
user_entry phys = addr_of phys + 7

-- `(phys & PTE_ADDR_MASK) | PTE_P | PTE_U | (flags & (PTE_W | PTE_NX | PTE_PWT | PTE_PCD))`
unfoldable pub leaf_entry : ℕ → ℕ → ℕ
leaf_entry phys flags =
    addr_of phys
    + 5
    + keep pte_w flags
    + keep pte_pwt flags
    + keep pte_pcd flags
    + keep pte_nx flags

-- A page for a table: `pmm_alloc_page()` and `table`, the page given back where the pointer is null.
-- The result is the page's address, whose table is `addr_of` of it.
unfoldable pub alloc_table : Machine → Option ℕ × Machine
alloc_table m =
    let (phys, pmm) = pmm_alloc_page m.pmm in
    let m' = record m { pmm = pmm } in
    if phys == 0 then (none, m') else elim (table m' phys) [
      | none ↦ (none, record m' { pmm = pmm_free_page phys pmm })
      | some _ ↦ (some phys, m')
    ]

-- `*entry` is the word `idx` of the table `parent`.
unfoldable pub new_user_table : ℕ → ℕ → Machine → Option ℕ × Machine
new_user_table parent idx m =
    let (found, m') = alloc_table m in
    elim found [
      | none ↦ (none, m')
      | some phys ↦ (
        some (addr_of phys),
        write parent idx (user_entry phys) (record m' { mem = zeroed m'.mem (addr_of phys) }),
      )
    ]

unfoldable pub ensure_user_child : ℕ → ℕ → Machine → Option ℕ × Machine
ensure_user_child parent idx m =
    let e = m.mem parent idx in
    let fresh = new_user_table parent idx m in
    if not (has pte_p e) || has pte_ps e then fresh else elim (table m (addr_of e)) [
      | none ↦ fresh
      | some child ↦ (
        some child,
        if has pte_w e && has pte_u e then m else write parent idx (user_entry (addr_of e)) m,
      )
    ]

-- `if (!child) return -1;`, and else the rest of the function.
abbrev pub or_fail : Option ℕ × Machine → (ℕ → Machine → Code × Machine) → Code × Machine
or_fail (none, m) k = (err 1, m)
or_fail (some t, m) k = k t m

-- The chain of `vmm_user_map` behind its guards, from the top table.
unfoldable pub map_from : ℕ → ℕ → ℕ → ℕ → Machine → Code × Machine
map_from pml4 virt phys flags m = or_fail (ensure_user_child pml4 (idx4 virt) m) λ pdpt m1.
    or_fail (ensure_user_child pdpt (idx3 virt) m1) λ pd m2.
      or_fail (ensure_user_child pd (idx2 virt) m2)
        λ pt m3. (ok, write pt (idx1 virt) (leaf_entry phys flags) m3)

unfoldable pub vmm_user_map : ℕ → ℕ → ℕ → Machine → Code × Machine
vmm_user_map virt phys flags m =
    if not m.g_user_valid
      || not (canonical_user virt)
      || not (virt % page_size == 0)
      || not (phys % page_size == 0)
    then (err 1, m)
    else elim (table m m.pml4_phys) [
      | none ↦ (err 1, m)
      | some pml4 ↦ map_from pml4 virt phys flags m
    ]

-- `*phys_out`; `none` is the result -1.
unfoldable pub unmap_leaf : ℕ → ℕ → Machine → Option ℕ × Machine
unmap_leaf virt pt m =
    let e = m.mem pt (idx1 virt) in
    if has pte_p e then (some (addr_of e), write pt (idx1 virt) 0 m) else (none, m)

unfoldable pub vmm_user_unmap : ℕ → Machine → Option ℕ × Machine
vmm_user_unmap virt m =
    if not m.g_user_valid || not (canonical_user virt) || not (virt % page_size == 0)
    then (none, m)
    else elim (leaf_table m m.pml4_phys virt) [ none ↦ (none, m) | some pt ↦ unmap_leaf virt pt m ]

-- The part of `vmm_user_space_create` after the source table is found.
unfoldable pub create_from : ℕ → Machine → Code × Machine
create_from src m = or_fail (alloc_table m) λ phys m'. (
  ok,
  record m' {
    mem = copied 256 (zeroed m'.mem (addr_of phys)) src (addr_of phys);
    pml4_phys = phys;
    g_user_valid = true;
  },
)

unfoldable pub vmm_user_space_create : Machine → Code × Machine
vmm_user_space_create m =
    let current = page_of m.cr3 in
    let source = if m.kernel_cr3 == 0 then current else page_of m.kernel_cr3 in
    if current == 0 || ltb pte_addr_mask current
    then (err 1, m)
    else (if source == 0 || ltb pte_addr_mask source
        then (err 1, m)
        else elim (table m source) [ none ↦ (err 1, m) | some src ↦ create_from src m ])

unfoldable pub vmm_user_cr3 : Machine → ℕ
vmm_user_cr3 m = if m.g_user_valid then m.pml4_phys else 0

unfoldable pub vmm_current_user_pml4 : Machine → ℕ
vmm_current_user_pml4 m = if m.g_user_valid then m.pml4_phys else 0

unfoldable pub vmm_user_activate : ℕ → Machine → Code × Machine
vmm_user_activate addr m =
    let cr3 = page_of addr in
    let m' = record m { pml4_phys = cr3; g_user_valid = true } in
    if cr3 == 0 then (err 1, m) else elim (table m cr3) [ none ↦ (err 1, m) | some _ ↦ (ok, m') ]

unfoldable pub vmm_user_switch : Machine → Machine
vmm_user_switch m = if m.g_user_valid then record m { cr3 = m.pml4_phys } else m

-- Loading CR3 flushes the TLB; unless the user tables are current, the kernel's come back.
unfoldable pub vmm_user_flush_tlb : Machine → Machine
vmm_user_flush_tlb m =
    if not m.g_user_valid || m.pml4_phys == 0 || m.kernel_cr3 == 0
    then m
    else (if page_of m.cr3 == page_of m.pml4_phys
        then record m { cr3 = page_of m.pml4_phys }
        else record m { cr3 = page_of m.kernel_cr3 })
