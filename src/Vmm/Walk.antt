-- ===== src/Vmm/Walk.antt =====
-- src/kernel/vmm.c: the walks that read the tables.
use yabro_os.Base.{
  ℕ, zero, suc, ◌+◌, ◌-◌, ◌*◌, ◌/◌, ◌%◌, ◌^◌, Bool, true, false, ◌&&◌, ◌||◌, not, Option, none,
  some, ltb, ◌==◌, if◌then◌else◌, has, ◌>>=◌, ◌>>◌, guard, Code, ok, err,
}
use yabro_os.Pmm.State.{page_size, page_of}
use yabro_os.Vmm.Machine.{
  Machine, user_top, pte_p, pte_w, pte_u, pte_ps, pte_cow, pte_nx, addr_of, idx4, idx3, idx2, idx1,
  canonical_user, table, leads,
}

-- `e = t[i]; if (!(e & PTE_P) || (e & PTE_PS)) return -1; next = table(e & PTE_ADDR_MASK);`
unfoldable pub descend : Machine → ℕ → ℕ → Option ℕ
descend m t i = do guard (leads (m.mem t i)); table m (addr_of (m.mem t i))

-- The page table that holds the entry for `va`, from the table at `root`.
unfoldable pub leaf_table : Machine → ℕ → ℕ → Option ℕ
leaf_table m root va = do
  pml4 ← table m root
  pdpt ← descend m pml4 (idx4 va)
  pd ← descend m pdpt (idx3 va)
  descend m pd (idx2 va)

-- `*phys_out` and `*pte_out`; `none` is the result -1.
unfoldable pub translate_leaf : Machine → ℕ → ℕ → Option (ℕ × ℕ)
translate_leaf m pt va =
    let pte = m.mem pt (idx1 va) in
    do guard (has pte_p pte); some (addr_of pte + va % page_size, pte)

unfoldable pub vmm_cr3_translate_direct : Machine → ℕ → ℕ → Option (ℕ × ℕ)
vmm_cr3_translate_direct m cr3_phys va = do
  guard (not (cr3_phys == 0) && cr3_phys % page_size == 0 && canonical_user va)
  pt ← leaf_table m cr3_phys va
  translate_leaf m pt va

unfoldable pub vmm_user_translate_cr3 : Machine → ℕ → ℕ → Option (ℕ × ℕ)
vmm_user_translate_cr3 m cr3 virt = vmm_cr3_translate_direct m (page_of cr3) virt

unfoldable pub vmm_user_translate : Machine → ℕ → Option (ℕ × ℕ)
vmm_user_translate m virt = do
  guard (m.g_user_valid && canonical_user virt)
  pt ← leaf_table m m.pml4_phys virt
  translate_leaf m pt virt

-- `*out`: the low bytes of the four entries.
unfoldable pub vmm_user_debug_walk : Machine → ℕ → Option ℕ
vmm_user_debug_walk m virt = do
  guard (m.g_user_valid && canonical_user virt && virt % page_size == 0)
  pml4 ← table m m.pml4_phys
  pdpt ← descend m pml4 (idx4 virt)
  pd ← descend m pdpt (idx3 virt)
  pt ← descend m pd (idx2 virt)
  guard (has pte_p (m.mem pt (idx1 virt)))
  some (
      m.mem pml4 (idx4 virt) % 256
      + m.mem pdpt (idx3 virt) % 256 * 2 ^ 8
      + m.mem pd (idx2 virt) % 256 * 2 ^ 16
      + m.mem pt (idx1 virt) % 256 * 2 ^ 24)

-- One level of `vmm_user_validate_page_cr3`: `code` is what it returns if the level fails.
unfoldable pub validate_level : Machine → ℕ → ℕ → (ℕ → Code) → Code
validate_level m e code next =
    if not (has pte_p e) || has pte_ps e || not (has pte_u e) || not (has pte_w e)
    then err code
    else elim (table m (addr_of e)) [ none ↦ err code | some t ↦ next t ]

unfoldable pub validate_leaf : ℕ → Bool → Bool → Code
validate_leaf pte require_write require_exec =
    if not (has pte_p pte) || not (has pte_u pte)
    then err 5
    else (if require_write && not (has pte_w pte)
        then err 6
        else if require_exec && has pte_nx pte
        then err 7
        else ok)

unfoldable pub vmm_user_validate_page_cr3 : Machine → ℕ → ℕ → Bool → Bool → Code
vmm_user_validate_page_cr3 m cr3 virt require_write require_exec =
    if cr3 == 0 || not (canonical_user virt) then err 1 else elim (table m (page_of cr3)) [
      | none ↦ err 1
      | some pml4 ↦ validate_level m (m.mem pml4 (idx4 virt)) 2 λ pdpt.
          validate_level m (m.mem pdpt (idx3 virt)) 3 λ pd.
            validate_level m (m.mem pd (idx2 virt)) 4
              λ pt. validate_leaf (m.mem pt (idx1 virt)) require_write require_exec
    ]

-- The tests on one page of the range.
unfoldable pub page_ok : Machine → ℕ → Bool → Bool
page_ok m va write = elim (vmm_user_translate m va) [
  | none ↦ false
  | some (phys, pte) ↦ has pte_u pte && not (write && not (has pte_w pte) && not (has pte_cow pte))
]

-- The loop of `vmm_user_range_ok` from `va`, with the rounds left.
unfoldable pub range_loop : ℕ → Machine → Bool → ℕ → ℕ → Bool
range_loop zero m write va last = false
range_loop (suc k) m write va last =
    let rest = range_loop k m write (va + page_size) last in
    if not (page_ok m va write)
    then false
    else (if va == last then true else if ltb (user_top - page_size) va then false else rest)

-- The rounds given are the number of pages.
unfoldable pub vmm_user_range_ok : Machine → ℕ → ℕ → Bool → Bool
vmm_user_range_ok m virt len write =
    let first = page_of virt in
    let last = page_of (virt + len - 1) in
    if not m.g_user_valid || len == 0 || not (canonical_user virt) || ltb (user_top - virt) len
    then false
    else range_loop ((last - first) / page_size + 1) m write first last
