-- ===== src/Vmm/Cow.antt =====
-- src/kernel/vmm.c: the copy-on-write fault, and changing a page's protection.
use yabro_os.Base.{
  ℕ, ◌+◌, ◌%◌, ◌^◌, ◌&&◌, ◌||◌, not, Option, none, some, leb, ◌==◌, if◌then◌else◌, has, set_flag,
  clear_flag, Code, ok, err,
}
use yabro_os.Pmm.State.{page_size, page_of, pmm_phys_to_virt}
use yabro_os.Pmm.Alloc.{pmm_alloc_page, pmm_free_page, pmm_page_refcount}
use yabro_os.Vmm.Machine.{
  Machine, pte_p, pte_w, pte_u, pte_cow, pte_nx, addr_of, keep, idx1, user_top, canonical_user,
  write, copied,
}
use yabro_os.Vmm.Walk.{leaf_table, vmm_user_translate}
use yabro_os.Vmm.Map.{leaf_entry}

-- `*leaf_out` is the word `idx1 virt` of the table returned.
unfoldable pub cow_walk : Machine → ℕ → ℕ → Option ℕ
cow_walk m cr3 virt =
    if not (virt % page_size == 0) || leb user_top virt
    then none
    else leaf_table m (page_of cr3) virt

-- A sole owner: `*leaf = pte | PTE_W; *leaf &= ~PTE_COW;`
unfoldable pub promote : ℕ → ℕ
promote pte = clear_flag pte_cow (set_flag pte_w pte)

-- The entry for the private copy: the flags of `pte`, without PTE_COW and writable.
unfoldable pub private_entry : ℕ → ℕ → ℕ
private_entry np pte = clear_flag pte_cow (
    addr_of np
    + set_flag pte_w (set_flag pte_u (set_flag pte_p (clear_flag pte_cow (pte % 2 ^ 12))))
    + keep pte_nx pte)

-- The shared page is copied to a new one, and one reference to it is given up.
unfoldable pub copy_page : ℕ → ℕ → ℕ → Machine → Code × Machine
copy_page pt idx pte m =
    let oldphys = addr_of pte in
    let (np, pmm) = pmm_alloc_page m.pmm in
    let m' = record m { pmm = pmm } in
    let given_up = record m' { pmm = pmm_free_page np pmm } in
    if np == 0 then (err 1, m') else elim (pmm_phys_to_virt pmm oldphys) [
      | none ↦ (err 1, given_up)
      | some _ ↦ elim (pmm_phys_to_virt pmm np) [
        | none ↦ (err 1, given_up)
        | some _ ↦
            let copy = record m' { mem = copied 0 m'.mem oldphys np } in
            let mapped = write pt idx (private_entry np pte) copy in
            (ok, record mapped { pmm = pmm_free_page oldphys mapped.pmm })
      ]
    ]

unfoldable pub cow_leaf : ℕ → ℕ → Machine → Code × Machine
cow_leaf pt idx m =
    let pte = m.mem pt idx in
    if not (has pte_p pte) || not (has pte_u pte) || not (has pte_cow pte) || has pte_w pte
    then (err 1, m)
    else (if pmm_page_refcount (addr_of pte) m.pmm == 1
        then (ok, write pt idx (promote pte) m)
        else copy_page pt idx pte m)

unfoldable pub vmm_user_cow_fault : ℕ → ℕ → Machine → Code × Machine
vmm_user_cow_fault cr3 addr m =
    let virt = page_of addr in
    elim (cow_walk m cr3 virt) [ none ↦ (err 1, m) | some pt ↦ cow_leaf pt (idx1 virt) m ]

-- `*leaf = (pte & PTE_ADDR_MASK) | PTE_P | PTE_U | ...`, after the second walk. The walk succeeds
-- there, since the translation has just succeeded; the source does not test it.
unfoldable pub protect_leaf : ℕ → ℕ → ℕ → Machine → Code × Machine
protect_leaf virt pte flags m = elim (leaf_table m m.pml4_phys virt) [
  | none ↦ (err 1, m)
  | some pt ↦ (ok, write pt (idx1 virt) (leaf_entry pte flags) m)
]

-- The write access to a shared page asks for its copy first.
unfoldable pub protect_shared : ℕ → ℕ → Machine → Code × Machine
protect_shared virt flags m =
    let (c, m') = vmm_user_cow_fault m.pml4_phys virt m in
    elim c [
      | err _ ↦ (err 1, m')
      | ok ↦ elim (vmm_user_translate m' virt) [
        | none ↦ (err 1, m')
        | some (_, pte') ↦ protect_leaf virt pte' flags m'
      ]
    ]

unfoldable pub vmm_user_protect : ℕ → ℕ → Machine → Code × Machine
vmm_user_protect virt flags m =
    if not m.g_user_valid || not (canonical_user virt) || not (virt % page_size == 0)
    then (err 1, m)
    else elim (vmm_user_translate m virt) [
      | none ↦ (err 1, m)
      | some (_, pte) ↦
          if has pte_w flags && has pte_cow pte
          then protect_shared virt flags m
          else protect_leaf virt pte flags m
    ]
