-- ===== src/Pmm/State.antt =====
-- src/kernel/pmm.c: the file's static state, its two bitmaps and the address arithmetic.
-- A 64-bit word is a number below 2 ^ 64; every sum that can wrap is reduced. An array is a function
-- of the index, and `reserved_pages` is the list of the entries in use.
use yabro_os.Base.{
  ℕ, ◌+◌, ◌-◌, ◌*◌, ◌/◌, ◌%◌, ◌^◌, Bool, true, false, ◌&&◌, ◌||◌, not, Option, none, some, List, [],
  ◌∷◌, ltb, leb, ◌==◌, if◌then◌else◌, update, has, set_flag, clear_flag,
}

abbrev pub page_size : ℕ
page_size = 0x1000

abbrev pub word_mod : ℕ
word_mod = 2 ^ 64

abbrev pub max_regions : ℕ
max_regions = 64

abbrev pub max_reserved_pages : ℕ
max_reserved_pages = 65536

abbrev pub max_page_tables : ℕ
max_page_tables = 65536

abbrev pub page_table_hash_size : ℕ
page_table_hash_size = 131072

abbrev pub pmm_min_phys : ℕ
pmm_min_phys = 0x0100_0000

abbrev pub pmm_track_limit : ℕ
pmm_track_limit = 2 ^ 32

abbrev pub pte_addr_mask : ℕ
pte_addr_mask = 0x000F_FFFF_FFFF_F000

-- `struct pmm_region`
pub record Region : Type 0 where
  pub base : ℕ
  pub end : ℕ
  pub next : ℕ
  pub free_head : ℕ

-- The static variables.
pub record Pmm : Type 0 where
  pub regions : List Region
  pub region_count : ℕ
  pub region_index : ℕ
  pub reserved_pages : List ℕ
  pub reserved_count : ℕ
  pub seen_page_tables : ℕ → ℕ
  pub seen_page_table_count : ℕ
  pub g_hhdm : ℕ
  pub g_free_pages : ℕ
  pub g_total_pages : ℕ
  pub g_kernel_base : ℕ
  pub g_kernel_end : ℕ
  pub page_state : ℕ → ℕ
  pub reserved_state : ℕ → ℕ
  pub page_refs : ℕ → ℕ
  pub g_ready : Bool

-- Physical memory by 64-bit words: the word at index `i` of the page at physical address `p`.
abbrev pub Memory : Type 0
Memory = ℕ → ℕ → ℕ

abbrev pub align_up : ℕ → ℕ
align_up x = (x + page_size - 1) % word_mod / page_size * page_size

abbrev pub align_down : ℕ → ℕ
align_down x = x / page_size * page_size

abbrev pub page_of : ℕ → ℕ
page_of x = x / page_size * page_size

abbrev pub tracked : ℕ → Bool
tracked phys = ltb phys pmm_track_limit

-- `(map[n >> 6] >> (n & 63)) & 1`
unfoldable pub map_test : (ℕ → ℕ) → ℕ → Bool
map_test map n = has (n % 64) (map (n / 64))

-- `map[n >> 6] |= 1ULL << (n & 63)`
unfoldable pub map_set : (ℕ → ℕ) → ℕ → ℕ → ℕ
map_set map n = update map (n / 64) (set_flag (n % 64) (map (n / 64)))

-- `map[n >> 6] &= ~(1ULL << (n & 63))`
unfoldable pub map_clear : (ℕ → ℕ) → ℕ → ℕ → ℕ
map_clear map n = update map (n / 64) (clear_flag (n % 64) (map (n / 64)))

unfoldable pub page_is_allocated : Pmm → ℕ → Bool
page_is_allocated s phys =
    if not (tracked phys) then true else map_test s.page_state (phys / page_size)

unfoldable pub page_set_allocated : ℕ → Bool → Pmm → Pmm
page_set_allocated phys allocated s =
    if not (tracked phys)
    then s
    else (if allocated
        then record s { page_state = map_set s.page_state (phys / page_size) }
        else record s { page_state = map_clear s.page_state (phys / page_size) })

unfoldable pub page_is_reserved_fast : Pmm → ℕ → Bool
page_is_reserved_fast s phys =
    if not (tracked phys) then false else map_test s.reserved_state (phys / page_size)

unfoldable pub page_set_reserved : ℕ → Pmm → Pmm
page_set_reserved phys s =
    if not (tracked phys)
    then s
    else record s { reserved_state = map_set s.reserved_state (phys / page_size) }

abbrev pub in_region : ℕ → Region → Bool
in_region phys r = leb r.base phys && ltb phys r.end

unfoldable pub in_regions : ℕ → List Region → Bool
in_regions phys [] = false
in_regions phys (r ∷ rs) = in_region phys r || in_regions phys rs

unfoldable pub phys_in_usable_region : Pmm → ℕ → Bool
phys_in_usable_region s phys = in_regions phys s.regions

unfoldable pub is_reserved : Pmm → ℕ → Bool
is_reserved s phys = page_is_reserved_fast s (page_of phys)

-- `none` is the null pointer.
unfoldable pub pmm_phys_to_virt : Pmm → ℕ → Option ℕ
pmm_phys_to_virt s phys =
    if s.g_hhdm == 0
    then none
    else (if ltb (word_mod - 1 - s.g_hhdm) phys
        then none
        else (if (s.g_hhdm + phys) / 2 ^ 48 == 0xFFFF then some (s.g_hhdm + phys) else none))

abbrev pub pmm_free_count : Pmm → ℕ
pmm_free_count s = s.g_free_pages

abbrev pub pmm_total_count : Pmm → ℕ
pmm_total_count s = s.g_total_pages

abbrev pub pmm_hhdm : Pmm → ℕ
pmm_hhdm s = s.g_hhdm
