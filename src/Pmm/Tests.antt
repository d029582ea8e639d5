-- ===== src/Pmm/Tests.antt =====
-- A manager with one region of four pages, and the theorems about src/kernel/pmm.c at it.
use yabro_os.Base.{
  update, ℕ, ◌+◌, ◌-◌, ◌/◌, ◌≡◌, ◌≢◌, ◌↔◌, refl, true, false, [], ◌∷◌, ltb, leb, arith, ◌*◌, ◌%◌,
  ◌&&◌, count_interval, has, has_empty, set_flag,
}
use yabro_os.Pmm.State.{
  Pmm, page_size, page_is_allocated, in_regions, map_test, map_set, is_reserved,
  page_is_reserved_fast, page_set_allocated,
}
use yabro_os.Pmm.Alloc.{
  pmm_alloc_page, alloc_regions, alloc_region, next_scan, is_candidate, take_page, pmm_free_page,
  pmm_retain_page,
}
use yabro_os.Pmm.Reserve.{reserve_page}
use yabro_os.Pmm.Valid.{IsValid, Change, is_free_page, pmm_track_pages}
use yabro_os.Pmm.Take.{Allocated, pmm_alloc_page-Allocated, pmm_alloc_page-eq-zero}
use yabro_os.Pmm.Release.{InUse, pmm_free_page-last, pmm_free_page-shared, free-retain, free-alloc}
use yabro_os.Pmm.Keep.{pmm_retain_page-IsValid}
use yabro_os.Pmm.Reservation.{Reserved}
use yabro_os.Pmm.Held.{reserve_page-run}
use yabro_os.Pmm.Run.{alloc, free, retain, reserve, run, run-IsValid}

abbrev pub four_pages : Pmm
four_pages = record {
  regions =
      record { base = 0x0100_0000; end = 0x0100_4000; next = 0x0100_0000; free_head = 0 } ∷ [];
  region_count = 1;
  region_index = 0;
  reserved_pages = [];
  reserved_count = 0;
  seen_page_tables = λ _. 0;
  seen_page_table_count = 0;
  g_hhdm = 0xFFFF_8000_0000_0000;
  g_free_pages = 4;
  g_total_pages = 4;
  g_kernel_base = 0;
  g_kernel_end = 0;
  page_state = λ _. 0;
  reserved_state = λ _. 0;
  page_refs = λ _. 0;
  g_ready = true;
}

no_bit : (n : ℕ) → map_test (λ _. 0) n ≡ false
unfolding map_test
no_bit n = has_empty (n % 64)

four_free : (n : ℕ) → is_free_page four_pages n ≡ (leb 0x1000 n && ltb n 0x1004)
unfolding is_free_page in_regions page_is_allocated
four_free n = ground (arith, no_bit (n * page_size / page_size))

pub four_pages-IsValid : IsValid four_pages
unfolding page_is_allocated is_reserved page_is_reserved_fast in_regions
four_pages-IsValid = record {
  ready = refl;
  regions = omega arith;
  counted = omega (
    arith,
    count_interval (is_free_page four_pages) 0x1000 0x1004 (omega arith) four_free pmm_track_pages,
  );
  free_unused = λ n f. refl;
  in_use = λ n i a r. ground (arith, no_bit (n * page_size / page_size));
  reserved_in_use = λ n i r. ground (
    arith,
    no_bit (page_size * (n * page_size / page_size) / page_size),
    no_bit (n * page_size / page_size * page_size / page_size),
  );
  refs_small = λ n. omega arith;
}

-- The page that the manager gives first.
first_alloc : (pmm_alloc_page four_pages).0 ≡ 0x0100_0000
unfolding pmm_alloc_page alloc_regions alloc_region next_scan is_candidate is_reserved
    page_is_reserved_fast page_is_allocated map_test has
first_alloc = refl

alloc_found : (pmm_alloc_page four_pages).0 ≢ 0
alloc_found z = omega (arith, first_alloc, z)

pmm_alloc_page-Allocated_example :
    Allocated four_pages (pmm_alloc_page four_pages).0 (pmm_alloc_page four_pages).1
pmm_alloc_page-Allocated_example = pmm_alloc_page-Allocated four_pages-IsValid alloc_found

pmm_alloc_page-eq-zero_example : ((pmm_alloc_page four_pages).0 ≡ 0) ↔ (four_pages.g_free_pages ≡ 0)
pmm_alloc_page-eq-zero_example = pmm_alloc_page-eq-zero four_pages-IsValid (omega arith)

run-IsValid_example :
    IsValid (
      run
        (alloc ∷ retain 0x0100_0000 ∷ reserve 0x0100_2000 4096 ∷ free 0x0100_0000 ∷ [])
        four_pages)
run-IsValid_example =
    run-IsValid (alloc ∷ retain 0x0100_0000 ∷ reserve 0x0100_2000 4096 ∷ free 0x0100_0000 ∷ [])
      four_pages-IsValid

free-alloc_example :
    let (p, s1) = pmm_alloc_page four_pages in
    let s2 = pmm_free_page p s1 in
    ((n : ℕ) → page_is_allocated s2 (n * page_size) ≡ page_is_allocated four_pages (n * page_size))
    × ((n : ℕ) → s2.page_refs n ≡ four_pages.page_refs n)
    × (s2.g_free_pages ≡ four_pages.g_free_pages)
    × IsValid s2
free-alloc_example = free-alloc four_pages-IsValid alloc_found

-- The state after one allocation.
abbrev one_taken : Pmm
one_taken = (pmm_alloc_page four_pages).1

one_taken-IsValid : IsValid one_taken
one_taken-IsValid = pmm_alloc_page-Allocated_example.valid

taken : InUse one_taken 0x0100_0000
unfolding pmm_alloc_page alloc_regions alloc_region next_scan is_candidate is_reserved
    page_is_reserved_fast page_is_allocated map_test has take_page page_set_allocated map_set
    set_flag in_regions
taken = record { aligned = refl; inside = refl; allocated = refl; not_reserved = refl }

one_reference : one_taken.page_refs 0x1000 ≡ 1
unfolding pmm_alloc_page alloc_regions alloc_region next_scan is_candidate is_reserved
    page_is_reserved_fast page_is_allocated map_test has take_page page_set_allocated map_set
    set_flag in_regions
one_reference = refl

pmm_free_page-last_example :
    let s' = pmm_free_page 0x0100_0000 one_taken in
    Change one_taken s' 0x1000 false 0 × (s'.g_free_pages ≡ one_taken.g_free_pages + 1) × IsValid s'
pmm_free_page-last_example = pmm_free_page-last one_taken-IsValid taken one_reference

free-retain_example :
    let s' = pmm_free_page 0x0100_0000 (pmm_retain_page 0x0100_0000 one_taken).1 in
    Change one_taken s' 0x1000 true (one_taken.page_refs 0x1000)
    × (s'.g_free_pages ≡ one_taken.g_free_pages)
    × IsValid s'
free-retain_example = free-retain one_taken-IsValid taken (omega (arith, one_reference))

reserve_accepted : (reserve_page 0x0100_3000 four_pages).0 ≡ true
unfolding reserve_page page_is_reserved_fast map_test has
reserve_accepted = refl

reserve_page-run_example :
    let s1 = (reserve_page 0x0100_3000 four_pages).1 in
    let s' = run (free 0x0100_3000 ∷ alloc ∷ []) s1 in
    Reserved four_pages s1 0x1003
    × (is_reserved s' 0x0100_3000 ≡ true)
    × (is_free_page s' 0x1003 ≡ false)
    × ((pmm_alloc_page s').0 ≢ 0x0100_3000)
reserve_page-run_example =
    reserve_page-run 0x0100_3000 (free 0x0100_3000 ∷ alloc ∷ []) four_pages-IsValid (omega arith)
      reserve_accepted

abbrev twice_taken : Pmm
twice_taken = (pmm_retain_page 0x0100_0000 one_taken).1

taken_twice : InUse twice_taken 0x0100_0000
unfolding pmm_retain_page pmm_alloc_page alloc_regions alloc_region next_scan is_candidate
    is_reserved page_is_reserved_fast page_is_allocated map_test has take_page page_set_allocated
    map_set set_flag in_regions
taken_twice = record { aligned = refl; inside = refl; allocated = refl; not_reserved = refl }

two_references : twice_taken.page_refs 0x1000 ≡ 2
unfolding pmm_retain_page pmm_alloc_page alloc_regions alloc_region next_scan is_candidate
    is_reserved page_is_reserved_fast page_is_allocated map_test has take_page page_set_allocated
    map_set set_flag in_regions
two_references = refl

pmm_free_page-shared_example :
    let s' = pmm_free_page 0x0100_0000 twice_taken in
    Change twice_taken s' 0x1000 true (twice_taken.page_refs 0x1000 - 1)
    × (s' ≡ record twice_taken {
      page_refs = update twice_taken.page_refs 0x1000 (twice_taken.page_refs 0x1000 - 1);
    })
    × IsValid s'
pmm_free_page-shared_example =
    pmm_free_page-shared (pmm_retain_page-IsValid 0x0100_0000 one_taken-IsValid) taken_twice
      (omega (arith, two_references))
