-- ===== src/Kernel/Mmap/Gap.antt =====
-- src/kernel/main.c: the search for free addresses for a mapping.
use yabro_os.Base.{
  ℕ, zero, suc, ◌+◌, ◌-◌, ◌/◌, ◌%◌, Bool, true, false, ◌&&◌, ◌||◌, not, Option, none, some, ltb,
  leb, ◌==◌, if◌then◌else◌,
}
use yabro_os.Pmm.State.{page_size, page_of, align_up}
use yabro_os.Vmm.Machine.{Machine}
use yabro_os.Vmm.Walk.{vmm_user_translate}

abbrev pub user_limit : ℕ
user_limit = 0x0000_8000_0000_0000

abbrev pub user_mmap_min : ℕ
user_mmap_min = 0x1000_0000

abbrev pub user_heap_base : ℕ
user_heap_base = 0x0050_0000

unfoldable pub user_mmap_range_ok : ℕ → ℕ → Bool
user_mmap_range_ok addr len =
    not (len == 0 || ltb addr user_mmap_min || leb user_limit addr) && leb len (user_limit - addr)

unfoldable pub user_any_mapping_range_ok : ℕ → ℕ → Bool
user_any_mapping_range_ok addr len =
    not (len == 0 || leb user_limit addr) && leb len (user_limit - addr)

unfoldable pub user_addr_range_ok : ℕ → ℕ → Bool
user_addr_range_ok addr len =
    if len == 0 || leb user_limit addr
    then false
    else if ltb (user_limit - addr) len
    then false
    else true

-- `(prot & 2) && (prot & 4)`
unfoldable pub user_prot_wx : ℕ → Bool
user_prot_wx prot = not (prot / 2 % 2 == 0) && not (prot / 4 % 2 == 0)

-- `vmm_user_translate(va, &phys, NULL) == 0`
unfoldable pub is_mapped : Machine → ℕ → Bool
is_mapped m va = elim (vmm_user_translate m va) [ none ↦ false | some _ ↦ true ]

-- The loop of `user_mmap_range_free`, with the rounds left.
unfoldable pub free_loop : ℕ → Machine → ℕ → ℕ → Bool
free_loop zero m va last = false
free_loop (suc k) m va last =
    let rest = free_loop k m (va + page_size) last in
    if is_mapped m va
    then false
    else (if va == last then true else if ltb (user_limit - page_size) va then false else rest)

-- The rounds given are the number of pages.
unfoldable pub user_mmap_range_free : Machine → ℕ → ℕ → Bool
user_mmap_range_free m addr len =
    let first = page_of addr in
    let last = page_of (addr + len - 1) in
    if user_mmap_range_ok addr len
    then free_loop ((last - first) / page_size + 1) m first last
    else false

-- The inner loop: the first page from `probe` on that is mapped, or `last`.
unfoldable pub probe_loop : ℕ → Machine → ℕ → ℕ → ℕ
probe_loop zero m probe last = probe
probe_loop (suc k) m probe last =
    let rest = probe_loop k m (probe + page_size) last in
    if is_mapped m probe then probe else if probe == last then probe else rest

-- The outer loop. The inner result is `*base_out`, or `none` for a return of 0; the outer `none`
-- means that the rounds are used up.
unfoldable pub gap_loop : ℕ → Machine → ℕ → ℕ → ℕ → Option (Option ℕ)
gap_loop zero m size heap_end from = none
gap_loop (suc k) m size heap_end from =
    let base = if ltb from user_mmap_min then user_mmap_min else from in
    let hp = align_up heap_end in
    let last = page_of (base + size - 1) in
    let probe = probe_loop ((last - base) / page_size + 1) m base last in
    let above_heap = gap_loop k m size heap_end hp in
    let above_probe = gap_loop k m size heap_end (probe + page_size) in
    if not (user_mmap_range_ok base size)
    then some none
    else (if ltb user_heap_base heap_end && ltb base hp && ltb user_heap_base (base + size)
        then above_heap
        else (if user_mmap_range_free m base size
            then some (some base)
            else if ltb (user_limit - page_size) probe
            then some none
            else above_probe))

-- More rounds than the user space has pages.
abbrev pub gap_rounds : ℕ
gap_rounds = user_limit / page_size + 1

unfoldable pub user_mmap_find_gap : Machine → ℕ → ℕ → ℕ → Option (Option ℕ)
user_mmap_find_gap m start size heap_end =
    if size == 0 then some none else gap_loop gap_rounds m size heap_end (align_up start)
