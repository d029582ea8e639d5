-- ===== src/Pmm/Reserve.antt =====
-- src/kernel/pmm.c: reservations, and the walk that reserves the active page tables.
use yabro_os.Base.{
  ℕ, zero, suc, ◌+◌, ◌-◌, ◌*◌, ◌/◌, ◌%◌, ◌^◌, Bool, true, false, ◌&&◌, ◌||◌, not, Option, none,
  some, List, [], ◌∷◌, ◌++◌, ltb, leb, ◌==◌, if◌then◌else◌, update, has, for_range,
}
use yabro_os.Pmm.State.{
  Pmm, Memory, page_size, word_mod, max_reserved_pages, max_page_tables, page_table_hash_size,
  pte_addr_mask, page_of, align_up, page_is_allocated, page_set_allocated, page_is_reserved_fast,
  page_set_reserved, phys_in_usable_region, pmm_phys_to_virt,
}

-- A page that is reserved while the manager runs is taken out of the free pages.
unfoldable pub take_reserved : ℕ → Pmm → Pmm
take_reserved phys s =
    if s.g_ready && phys_in_usable_region s phys && not (page_is_allocated s phys)
    then (let s' = page_set_allocated phys true s in
        record s' { g_free_pages = s.g_free_pages - 1 })
    else s

unfoldable pub reserve_page : ℕ → Pmm → Bool × Pmm
reserve_page addr s =
    let phys = page_of addr in
    if phys == 0 || leb (2 ^ 52) phys
    then (false, s)
    else (if page_is_reserved_fast s phys
        then (false, s)
        else (if leb max_reserved_pages s.reserved_count then (false, s) else (
          true,
          take_reserved phys (
              page_set_reserved phys (record s {
                reserved_pages = s.reserved_pages ++ phys ∷ [];
                reserved_count = s.reserved_count + 1;
              })),
        )))

-- `for (p = start; p < end; p += PAGE_SIZE) { ...; if (p > UINT64_MAX - PAGE_SIZE) break; }`
unfoldable pub reserve_range_loop : ℕ → ℕ → ℕ → Pmm → Pmm
reserve_range_loop zero p end s = s
reserve_range_loop (suc k) p end s =
    let s' = (reserve_page p s).1 in
    let rest = reserve_range_loop k (p + page_size) end s' in
    if ltb p end then if ltb (word_mod - 1 - page_size) p then s' else rest else s

-- The rounds given are one more than the loop makes, since both ends are multiples of the page size.
unfoldable pub pmm_reserve_range : ℕ → ℕ → Pmm → Pmm
pmm_reserve_range base len s =
    let end = align_up ((base + len) % word_mod) in
    if len == 0
    then s
    else (if ltb end base
        then s
        else reserve_range_loop ((end - page_of base) / page_size + 1) (page_of base) end s)

-- `struct limine_memmap_entry`
pub record MemmapEntry : Type 0 where
  pub base : ℕ
  pub length : ℕ
  pub kind : ℕ

-- `entries` and `count`: an entry may be a null pointer, and so may the array.
abbrev pub Memmap : Type 0
Memmap = Option (List (Option MemmapEntry))

abbrev pub describes : ℕ → MemmapEntry → Bool
describes phys e =
    not (e.length == 0 || ltb (word_mod - 1 - e.length) e.base)
    && (leb e.base phys && ltb (phys - e.base) e.length)

unfoldable pub any_describes : ℕ → List (Option MemmapEntry) → Bool
any_describes phys [] = false
any_describes phys (none ∷ es) = any_describes phys es
any_describes phys (some e ∷ es) = describes phys e || any_describes phys es

unfoldable pub phys_is_described : ℕ → Memmap → Bool
phys_is_described phys none = false
phys_is_described phys (some es) = any_describes phys es

-- The probe loop of `page_table_seen`, with the probes left.
unfoldable pub probe : ℕ → ℕ → ℕ → Pmm → Bool × Pmm
probe zero slot phys s = (true, s)
probe (suc k) slot phys s =
    let old = s.seen_page_tables slot in
    let rest = probe k ((slot + 1) % page_table_hash_size) phys s in
    if old == phys
    then (true, s)
    else (if old == 0
        then (
          false,
          record s {
            seen_page_tables = update s.seen_page_tables slot phys;
            seen_page_table_count = s.seen_page_table_count + 1;
          },
        )
        else rest)

-- The product is reduced to 64 bits, and the mask keeps the low 17.
abbrev pub hash_slot : ℕ → ℕ
hash_slot phys = phys / 2 ^ 12 * 11400714819323198485 % word_mod % page_table_hash_size

unfoldable pub page_table_seen : ℕ → Pmm → Bool × Pmm
page_table_seen phys s =
    if leb max_page_tables s.seen_page_table_count
    then (true, s)
    else probe page_table_hash_size (hash_slot phys) phys s

-- The body of the loop over a table's entries: `descend` is the call on a child table.
unfoldable pub visit_entry : (ℕ → Pmm → Pmm) → ℕ → Memmap → ℕ → Pmm → Pmm
visit_entry descend level entries e s =
    if not (has 0 e) || level == 1
    then s
    else (if (level == 3 || level == 2) && has 7 e
        then s
        else (let child = e / 2 ^ 12 % 2 ^ 40 * 2 ^ 12 in
            if not (child == 0) && phys_is_described child entries then descend child s else s))

-- Recursion on the level. Level 0 returns at once, as the source's test `level == 0` does.
unfoldable pub reserve_page_table_tree : ℕ → Memory → Memmap → ℕ → Pmm → Pmm
reserve_page_table_tree zero mem entries table s = s
reserve_page_table_tree (suc level) mem entries table s =
    let phys = page_of table in
    let descend = reserve_page_table_tree level mem entries in
    if phys == 0 || ltb pte_addr_mask phys
    then s
    else (if not (phys_is_described phys entries)
        then s
        else (let (seen, s1) = page_table_seen phys s in
            if seen
            then s1
            else (let s2 = (reserve_page phys s1).1 in
                elim (pmm_phys_to_virt s2 phys) [
                  | none ↦ s2
                  | some _ ↦
                      for_range 512 0
                        (λ i t. visit_entry descend (suc level) entries (mem phys i) t) s2
                ])))

-- `cr3` is the register's value.
unfoldable pub reserve_active_page_tables : ℕ → Memory → Memmap → Pmm → Pmm
reserve_active_page_tables cr3 mem entries s =
    reserve_page_table_tree 4 mem entries cr3
      (record s { seen_page_table_count = 0; seen_page_tables = λ _. 0 })
