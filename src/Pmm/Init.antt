-- ===== src/Pmm/Init.antt =====
-- src/kernel/pmm.c: `pmm_init`.
use yabro_os.Base.{
  ℕ, zero, suc, ◌+◌, ◌-◌, ◌/◌, ◌%◌, ◌^◌, Bool, true, false, ◌&&◌, ◌||◌, not, Option, none, some,
  List, [], ◌∷◌, ◌++◌, ltb, leb, ◌==◌, if◌then◌else◌,
}
use yabro_os.Pmm.State.{
  Pmm, Memory, page_size, word_mod, max_regions, pmm_min_phys, pmm_track_limit, align_up,
  align_down, page_set_allocated, phys_in_usable_region,
}
use yabro_os.Pmm.Reserve.{MemmapEntry, Memmap, reserve_page, reserve_active_page_tables}

-- `start` and `end` after alignment and clipping.
abbrev pub region_start : MemmapEntry → ℕ
region_start e = let a = align_up e.base in if ltb a pmm_min_phys then pmm_min_phys else a

abbrev pub region_end : MemmapEntry → ℕ
region_end e =
    let b = align_down ((e.base + e.length) % word_mod) in
    if ltb pmm_track_limit b then pmm_track_limit else b

-- The tests that skip an entry.
abbrev pub skipped : MemmapEntry → Bool
skipped e =
    not (e.kind == 0)
    || ltb e.length page_size
    || ltb ((e.base + e.length) % word_mod) e.base
    || leb (region_end e) (region_start e)

unfoldable pub add_region : MemmapEntry → Pmm → Pmm
add_region e s =
    let start = region_start e in
    let end = region_end e in
    if skipped e then s else record s {
      regions = s.regions ++ record { base = start; end = end; next = start; free_head = 0 } ∷ [];
      region_count = s.region_count + 1;
      g_free_pages = s.g_free_pages + (end - start) / page_size;
      g_total_pages = s.g_total_pages + (end - start) / page_size;
    }

unfoldable pub add_regions : List (Option MemmapEntry) → Pmm → Pmm
add_regions [] s = s
add_regions (none ∷ es) s = if ltb s.region_count max_regions then add_regions es s else s
add_regions (some e ∷ es) s =
    let rest = add_regions es (add_region e s) in if ltb s.region_count max_regions then rest else s

-- The pages of the kernel's image, with the rounds left.
unfoldable pub reserve_kernel : ℕ → ℕ → Pmm → Pmm
reserve_kernel zero p s = s
reserve_kernel (suc k) p s = reserve_kernel k (p + page_size) (reserve_page p s).1

-- One round of the loop over `reserved_pages`.
unfoldable pub settle : ℕ → Pmm → Pmm
settle rp s =
    let s' = if ltb rp pmm_track_limit then page_set_allocated rp true s else s in
    if phys_in_usable_region s rp then record s' { g_free_pages = s'.g_free_pages - 1 } else s'

unfoldable pub settle_all : List ℕ → Pmm → Pmm
settle_all [] s = s
settle_all (rp ∷ rps) s = settle_all rps (settle rp s)

unfoldable pub cleared : ℕ → ℕ → ℕ → Pmm → Pmm
cleared hhdm kernel_base kernel_end s = record s {
  regions = [];
  region_count = 0;
  region_index = 0;
  reserved_pages = [];
  reserved_count = 0;
  g_free_pages = 0;
  g_total_pages = 0;
  page_state = λ _. 0;
  reserved_state = λ _. 0;
  page_refs = λ _. 0;
  g_hhdm = hhdm;
  g_kernel_base = align_down kernel_base;
  g_kernel_end = align_up kernel_end;
  g_ready = false;
}

unfoldable pub reserve_kernel_image : Pmm → Pmm
reserve_kernel_image s =
    if ltb s.g_kernel_base s.g_kernel_end && ltb (s.g_kernel_end - s.g_kernel_base) (2 ^ 40)
    then reserve_kernel ((s.g_kernel_end - s.g_kernel_base) / page_size) s.g_kernel_base s
    else s

unfoldable pub init_from : ℕ → Memory → List (Option MemmapEntry) → Pmm → Pmm
init_from cr3 mem es s =
    let s1 = reserve_kernel_image (add_regions es s) in
    let s2 = reserve_active_page_tables cr3 mem (some es) s1 in
    let s3 = settle_all s2.reserved_pages s2 in record s3 { g_ready = not (s3.region_count == 0) }

unfoldable pub pmm_init : ℕ → Memory → Memmap → ℕ → ℕ → ℕ → Pmm → Pmm
pmm_init cr3 mem none hhdm kernel_base kernel_end s = cleared hhdm kernel_base kernel_end s
pmm_init cr3 mem (some es) hhdm kernel_base kernel_end s =
    let s' = cleared hhdm kernel_base kernel_end s in
    if hhdm == 0 then s' else init_from cr3 mem es s'
