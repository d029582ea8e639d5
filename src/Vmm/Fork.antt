-- ===== src/Vmm/Fork.antt =====
-- src/kernel/vmm.c: the copy of a user space for fork, with its pages shared copy-on-write.
use yabro_os.Base.{
  ℕ, zero, suc, ◌+◌, ◌*◌, ◌/◌, ◌%◌, ◌^◌, not, none, some, ◌==◌, if◌then◌else◌, has, set_flag,
  clear_flag, Code, ok, err, for_each,
}
use yabro_os.Pmm.Alloc.{pmm_alloc_page, pmm_free_page, pmm_retain_page, pmm_page_is_reserved}
use yabro_os.Vmm.Machine.{
  Machine, pte_p, pte_w, pte_ps, pte_cow, addr_of, table, write, zeroed, copied,
}
use yabro_os.Vmm.Destroy.{destroy_clone_level, destroy_clone_root}

-- `(np & PTE_ADDR_MASK) | (e & ~PTE_ADDR_MASK)`
unfoldable pub with_addr : ℕ → ℕ → ℕ
with_addr np e = addr_of np + e % 2 ^ 12 + e / 2 ^ 52 * 2 ^ 52

-- One round of the loop of `clone_user_tables`; `clone` is the call on a child table, whose result
-- is the new table and the code that it leaves in `*err`.
unfoldable pub clone_entry :
    (ℕ → Machine → (Code × ℕ) × Machine) → ℕ → ℕ → ℕ → ℕ → Machine → Code × Machine
clone_entry clone level src dst i m =
    let e = m.mem src i in
    let ((c, np), m') = clone (addr_of e) m in
    if not (has pte_p e)
    then (ok, m)
    else (if has pte_ps e
        then (err 2, m)
        else (if level == 1
            then (ok, write dst i e m)
            else if np == 0
            then (c, m')
            else (ok, write dst i (with_addr np e) m')))

-- The end of the loop: a table that is left unfinished is given back.
unfoldable pub clone_result : ℕ → ℕ → Code × Machine → (Code × ℕ) × Machine
clone_result dst_phys level (ok, m) = ((ok, dst_phys), m)
clone_result dst_phys level (err c, m) = ((err c, 0), destroy_clone_level level dst_phys m)

-- The result is `*err` and the new table, 0 on failure. Every call has a level of 3, 2 or 1.
unfoldable pub clone_user_tables : ℕ → ℕ → Machine → (Code × ℕ) × Machine
clone_user_tables zero src_phys m = ((err 1, 0), m)
clone_user_tables (suc level) src_phys m =
    let (dst_phys, pmm) = pmm_alloc_page m.pmm in
    let m' = record m { pmm = pmm } in
    let given_up = record m' { pmm = pmm_free_page dst_phys pmm } in
    let clone = λ (child : ℕ) (n : Machine). clone_user_tables level child n in
    if dst_phys == 0 then ((err 1, 0), m') else elim (table m' src_phys) [
      | none ↦ ((err 1, 0), given_up)
      | some src ↦ elim (table m' dst_phys) [
        | none ↦ ((err 1, 0), given_up)
        | some dst ↦ clone_result dst_phys (suc level) (
            for_each 512 0 (λ i n. clone_entry clone (suc level) src dst i n)
              (record m' { mem = zeroed m'.mem dst }))
      ]
    ]

-- The page of a leaf entry can take one more reference, or needs none.
unfoldable pub preflight_leaf : ℕ → Machine → Code × Machine
preflight_leaf page m =
    let (kept, pmm) = pmm_retain_page page m.pmm in
    if page == 0
    then (err 1, m)
    else (if pmm_page_is_reserved page m.pmm == 1
        then (ok, m)
        else if kept
        then (ok, record m { pmm = pmm_free_page page pmm })
        else (err 1, m))

unfoldable pub preflight_entry :
    (ℕ → Machine → Code × Machine) → ℕ → ℕ → ℕ → Machine → Code × Machine
preflight_entry down level src i m =
    let e = m.mem src i in
    let (c, m') = down (addr_of e) m in
    if not (has pte_p e)
    then (ok, m)
    else (if has pte_ps e
        then (err 2, m)
        else (if level == 1
            then preflight_leaf (addr_of e) m
            else elim c [ ok ↦ (ok, m') | err _ ↦ (err 1, m') ]))

unfoldable pub preflight_fork_pages : ℕ → ℕ → Machine → Code × Machine
preflight_fork_pages zero src_phys m = (ok, m)
preflight_fork_pages (suc level) src_phys m =
    let down = λ (child : ℕ) (n : Machine). preflight_fork_pages level child n in
    elim (table m src_phys) [
      | none ↦ (err 1, m)
      | some src ↦ for_each 512 0 (λ i n. preflight_entry down (suc level) src i n) m
    ]

-- `(e & ~PTE_W) | PTE_COW`
unfoldable pub share_entry : ℕ → ℕ
share_entry e = set_flag pte_cow (clear_flag pte_w e)

-- A leaf entry is shared: both tables get it without PTE_W and with PTE_COW, if it was writable.
unfoldable pub share_leaf : ℕ → ℕ → ℕ → Machine → Code × Machine
share_leaf src dst i m =
    let e = m.mem src i in
    let page = addr_of e in
    let (kept, pmm) = pmm_retain_page page m.pmm in
    let m' = record m { pmm = pmm } in
    if page == 0
    then (err 1, m)
    else (if pmm_page_is_reserved page m.pmm == 1
        then (ok, write dst i e m)
        else (if not kept
            then (err 1, m)
            else (if has pte_w e
                then (ok, write dst i (share_entry e) (write src i (share_entry e) m'))
                else (ok, write dst i e m'))))

unfoldable pub cow_entry :
    (ℕ → ℕ → Machine → Code × Machine) → ℕ → ℕ → ℕ → ℕ → Machine → Code × Machine
cow_entry down level src dst i m =
    let e = m.mem src i in
    let np = addr_of (m.mem dst i) in
    let (c, m') = down (addr_of e) np m in
    if not (has pte_p e)
    then (ok, m)
    else (if has pte_ps e
        then (err 2, m)
        else (if level == 1
            then share_leaf src dst i m
            else (if np == 0 then (err 1, m) else elim c [ ok ↦ (ok, m') | err _ ↦ (err 1, m') ])))

-- The virtual address that the source passes down serves the debug output alone.
unfoldable pub apply_fork_cow : ℕ → ℕ → ℕ → Machine → Code × Machine
apply_fork_cow zero src_phys dst_phys m = (ok, m)
apply_fork_cow (suc level) src_phys dst_phys m =
    let down = λ (s : ℕ) (d : ℕ) (n : Machine). apply_fork_cow level s d n in
    elim (table m src_phys) [
      | none ↦ (err 1, m)
      | some src ↦ elim (table m dst_phys) [
        | none ↦ (err 1, m)
        | some dst ↦ for_each 512 0 (λ i n. cow_entry down (suc level) src dst i n) m
      ]
    ]

-- The three loops over the lower half of the top table.
unfoldable pub clone_root_entry : ℕ → ℕ → ℕ → Machine → Code × Machine
clone_root_entry src dst i m =
    let e = m.mem src i in
    let ((c, np), m') = clone_user_tables 3 (addr_of e) m in
    if not (has pte_p e)
    then (ok, m)
    else (if has pte_ps e
        then (err 2, m)
        else if np == 0
        then (c, m')
        else (ok, write dst i (with_addr np e) m'))

unfoldable pub preflight_root_entry : ℕ → ℕ → Machine → Code × Machine
preflight_root_entry src i m =
    let e = m.mem src i in
    let (c, m') = preflight_fork_pages 3 (addr_of e) m in
    if not (has pte_p e)
    then (ok, m)
    else if has pte_ps e
    then (err 1, m)
    else elim c [ ok ↦ (ok, m') | err _ ↦ (err 1, m') ]

unfoldable pub cow_root_entry : ℕ → ℕ → ℕ → Machine → Code × Machine
cow_root_entry src dst i m =
    let e = m.mem src i in
    let np = addr_of (m.mem dst i) in
    let (c, m') = apply_fork_cow 3 (addr_of e) np m in
    if not (has pte_p e)
    then (ok, m)
    else if np == 0
    then (err 1, m)
    else elim c [ ok ↦ (ok, m') | err _ ↦ (err 1, m') ]

-- A pass that fails gives the clone's tables back, and ends the call with its code.
abbrev pub or_destroy : ℕ → Code × Machine → (Machine → Code × Machine) → Code × Machine
or_destroy dst_phys (ok, m) next = next m
or_destroy dst_phys (err c, m) next = (err c, destroy_clone_root dst_phys m)

-- The passes over the top tables `src` and `dst`.
unfoldable pub clone_passes : ℕ → ℕ → ℕ → Machine → Code × Machine
clone_passes src dst dst_phys m =
    or_destroy dst_phys (for_each 256 0 (clone_root_entry src dst) m) λ m1.
      or_destroy dst_phys (for_each 256 0 (preflight_root_entry src) m1)
        λ m2. or_destroy dst_phys (for_each 256 0 (cow_root_entry src dst) m2) λ m3. (ok, m3)

-- `*dst_cr3_out` is the first part of a result with `ok`.
unfoldable pub vmm_user_space_clone : ℕ → Machine → ℕ × Code × Machine
vmm_user_space_clone src_cr3 m =
    let (dst_phys, pmm) = pmm_alloc_page m.pmm in
    let m' = record m { pmm = pmm } in
    if src_cr3 == 0 then (0, err 1, m) else elim (table m (addr_of src_cr3)) [
      | none ↦ (0, err 1, m)
      | some src ↦ if dst_phys == 0 then (0, err 1, m') else elim (table m' dst_phys) [
        | none ↦ (0, err 1, record m' { pmm = pmm_free_page dst_phys pmm })
        | some dst ↦
            let (c, m'') =
              clone_passes src dst dst_phys
                (record m' { mem = copied 256 (zeroed m'.mem dst) src dst }) in
            (dst_phys, c, m'')
      ]
    ]
