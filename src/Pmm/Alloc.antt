-- ===== src/Pmm/Alloc.antt =====
-- src/kernel/pmm.c: allocation, reference counts, release.
use yabro_os.Base.{
  ℕ, zero, suc, ◌+◌, ◌-◌, ◌/◌, ◌^◌, Bool, true, false, ◌&&◌, ◌||◌, not, Option, none, some, List,
  [], ◌∷◌, ltb, leb, ◌==◌, if◌then◌else◌, update,
}
use yabro_os.Pmm.State.{
  Pmm, Region, Memory, page_size, pmm_min_phys, pmm_track_limit, page_of, page_is_allocated,
  page_set_allocated, is_reserved, phys_in_usable_region, pmm_phys_to_virt,
}

-- Neither of the two tests that make the scans of `pmm_alloc_page` go on.
unfoldable pub is_candidate : Pmm → ℕ → Bool
is_candidate s p =
    not (leb pmm_track_limit p || ltb p pmm_min_phys || is_reserved s p)
    && not (page_is_allocated s p)

-- The `while` from `r->next`: the page taken, and what is left in `r->next`.
unfoldable pub next_scan : ℕ → Pmm → ℕ → ℕ → Option ℕ × ℕ
next_scan zero s end p = (none, p)
next_scan (suc k) s end p =
    let rest = next_scan k s end (p + page_size) in
    if ltb p end then if is_candidate s p then (some p, p + page_size) else rest else (none, p)

-- The `for` from `r->base`.
unfoldable pub base_scan : ℕ → Pmm → ℕ → ℕ → Option ℕ
base_scan zero s end p = none
base_scan (suc k) s end p =
    let rest = base_scan k s end (p + page_size) in
    if ltb p end then if is_candidate s p then some p else rest else none

-- Enough rounds for a scan from `p` to `end`.
abbrev pub rounds : ℕ → ℕ → ℕ
rounds p end = (end - p) / page_size + 1

-- One region: the page taken, and the region after it.
unfoldable pub alloc_region : Pmm → Region → Option ℕ × Region
alloc_region s r =
    let (found, next) = next_scan (rounds r.next r.end) s r.end r.next in
    let r' = record r { next = next } in
    elim found [
      | some p ↦ (some p, r')
      | none ↦ elim (base_scan (rounds r.base r.end) s r.end r.base) [
        | some p ↦ (some p, record r { next = p + page_size })
        | none ↦ (none, r')
      ]
    ]

unfoldable pub alloc_regions : Pmm → List Region → Option ℕ × List Region
alloc_regions s [] = (none, [])
alloc_regions s (r ∷ rs) =
    let (found, r') = alloc_region s r in
    let (later, rs') = alloc_regions s rs in
    elim found [ some p ↦ (some p, r' ∷ rs) | none ↦ (later, r' ∷ rs') ]

-- `page_set_allocated(p, true); page_refs[p / PAGE_SIZE] = 1; if (g_free_pages) --g_free_pages;`
unfoldable pub take_page : ℕ → Pmm → Pmm
take_page p s =
    let s' = page_set_allocated p true s in
    record s' {
      page_refs = update s.page_refs (p / page_size) 1;
      g_free_pages = s.g_free_pages - 1;
    }

-- Physical address 0 means failure.
unfoldable pub pmm_alloc_page : Pmm → ℕ × Pmm
pmm_alloc_page s =
    let (found, regions) = alloc_regions s s.regions in
    let s' = record s { regions = regions } in
    if not s.g_ready || s.g_hhdm == 0
    then (0, s)
    else elim found [ some p ↦ (p, take_page p s') | none ↦ (0, s') ]

unfoldable pub pmm_free_page : ℕ → Pmm → Pmm
pmm_free_page addr s =
    let phys = page_of addr in
    let idx = phys / page_size in
    let freed = page_set_allocated phys false s in
    if not s.g_ready || phys == 0 || leb (2 ^ 52) phys || is_reserved s phys
    then s
    else (if leb pmm_track_limit phys || not (phys_in_usable_region s phys)
        then s
        else (if not (page_is_allocated s phys)
            then s
            else (if ltb 1 (s.page_refs idx)
                then record s { page_refs = update s.page_refs idx (s.page_refs idx - 1) }
                else record freed {
                  page_refs = update s.page_refs idx 0;
                  g_free_pages = s.g_free_pages + 1;
                })))

-- The page's words are zeroed in memory. `pmm_phys_to_virt` fails as a null pointer.
unfoldable pub pmm_alloc_zeroed : Memory → Pmm → ℕ × Memory × Pmm
pmm_alloc_zeroed mem s =
    let (phys, s') = pmm_alloc_page s in
    if phys == 0 then (0, mem, s') else elim (pmm_phys_to_virt s' phys) [
      | none ↦ (0, mem, pmm_free_page phys s')
      | some _ ↦ (phys, zero_words mem phys, s')
    ]
  where
    zero_words : Memory → ℕ → Memory
    zero_words mem p q i = if p == q && ltb i 512 then 0 else mem q i

unfoldable pub pmm_page_refcount : ℕ → Pmm → ℕ
pmm_page_refcount addr s =
    let phys = page_of addr in
    if not s.g_ready || phys == 0 || leb pmm_track_limit phys
    then 0
    else s.page_refs (phys / page_size)

unfoldable pub pmm_page_is_reserved : ℕ → Pmm → ℕ
pmm_page_is_reserved addr s = if is_reserved s (page_of addr) then 1 else 0

-- `false` is the result -1, `true` the result 0.
unfoldable pub pmm_retain_page : ℕ → Pmm → Bool × Pmm
pmm_retain_page addr s =
    let phys = page_of addr in
    let idx = phys / page_size in
    if not s.g_ready || phys == 0 || leb pmm_track_limit phys || is_reserved s phys
    then (false, s)
    else (if not (page_is_allocated s phys)
        then (false, s)
        else (if s.page_refs idx == 65535
            then (false, s)
            else (if s.page_refs idx == 0
                then (true, record s { page_refs = update s.page_refs idx 1 })
                else (
                  true,
                  record s { page_refs = update s.page_refs idx (s.page_refs idx + 1) },
                ))))

-- `false` is the result -1. The test word is written and cleared again.
unfoldable pub pmm_hhdm_selftest : Memory → Pmm → Bool × Memory × Pmm
pmm_hhdm_selftest mem s =
    let (phys, s') = pmm_alloc_page s in
    if not s.g_ready || s.g_hhdm == 0
    then (false, mem, s)
    else (if phys == 0 then (false, mem, s') else elim (pmm_phys_to_virt s' phys) [
      | none ↦ (false, mem, s')
      | some _ ↦ (true, λ q i. if q == phys && i == 0 then 0 else mem q i, s')
    ])
