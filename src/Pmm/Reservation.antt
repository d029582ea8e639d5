-- ===== src/Pmm/Reservation.antt =====
-- src/kernel/pmm.c: `reserve_page` marks one page, and keeps the invariant.
use yabro_os.Base.{
  ℕ, ◌+◌, ◌-◌, ◌*◌, ◌/◌, ◌≤◌, ◌<◌, ◌≡◌, sym, ◌∙◌, inl, inr, true, false, ◌&&◌, List, [], ◌∷◌, ◌++◌,
  ltb, ◌==◌, if◌then◌else◌, arith, Bool-cases, count_ext, count_taken,
}
use yabro_os.Pmm.State.{
  Pmm, page_size, page_of, pmm_track_limit, phys_in_usable_region, page_is_allocated,
  page_set_allocated, page_set_reserved, page_is_reserved_fast, is_reserved, map_set,
}
use yabro_os.Pmm.Bitmap.{map_test-map_set}
use yabro_os.Pmm.Reserve.{reserve_page, take_reserved}
use yabro_os.Pmm.Scan.{AllRegions}
use yabro_os.Pmm.Valid.{IsValid, is_free_page, pmm_track_pages, in_regions_bounds}

-- What `reserve_page` does to a page `m` below the limit: the reservation, and the page is taken if
-- it was free.
pub record Reserved (s s' : Pmm) (m : ℕ) : Type 0 where
  pub ready : s'.g_ready ≡ s.g_ready
  pub regions : s'.regions ≡ s.regions
  pub refs : s'.page_refs ≡ s.page_refs
  pub bit :
      (n : ℕ)
      → page_is_allocated s' (n * page_size)
        ≡ (if n == m && is_free_page s m then true else page_is_allocated s (n * page_size))
  pub reserved :
      (n : ℕ)
      → is_reserved s' (n * page_size) ≡ (if n == m then true else is_reserved s (n * page_size))
  pub free : s'.g_free_pages ≡ (if is_free_page s m then s.g_free_pages - 1 else s.g_free_pages)

module _ (s : Pmm) (addr : ℕ) where
  -- The state with the reservation noted.
  abbrev noted : Pmm
  noted = record s {
    reserved_pages = s.reserved_pages ++ page_of addr ∷ [];
    reserved_count = s.reserved_count + 1;
    reserved_state = map_set s.reserved_state (page_of addr / page_size);
  }

  reserve_page-noted :
      (reserve_page addr s).0 ≡ true
      → addr < pmm_track_limit
      → (reserve_page addr s).1 ≡ take_reserved (page_of addr) noted
  unfolding reserve_page page_set_reserved
  reserve_page-noted ok small = ground arith

  module _ (ready : s.g_ready ≡ true) (small : addr < pmm_track_limit) where
    take_reserved-Reserved : Reserved s (take_reserved (page_of addr) noted) (addr / page_size)
    unfolding take_reserved page_set_allocated page_is_allocated is_reserved page_is_reserved_fast
        is_free_page phys_in_usable_region
    take_reserved-Reserved = record {
      ready = ground arith;
      regions = ground arith;
      refs = ground arith;
      bit = λ n. ground (
        arith,
        map_test-map_set s.page_state (page_of addr / page_size) (n * page_size / page_size),
      );
      reserved = λ n. ground (
        arith,
        map_test-map_set s.reserved_state (page_of addr / page_size)
            (page_of (n * page_size) / page_size),
      );
      free = ground arith;
    }

Reserved-IsValid :
    {s s' : Pmm} {m : ℕ} → IsValid s → Reserved s s' m → m < pmm_track_pages → IsValid s'
unfolding is_free_page
Reserved-IsValid {s} {s'} {m} w r lt = record {
  ready = r.ready ∙ w.ready;
  regions = rw r.regions w.regions;
  counted = elim (Bool-cases (is_free_page s m)) [
    | inl f ↦ omega (
      arith,
      w.counted,
      count_taken (is_free_page s) (is_free_page s') m (λ q. ground (arith, r.regions, r.bit q))
          pmm_track_pages lt f,
      less f,
    )
    | inr f ↦
        same f
        ∙ w.counted
        ∙ sym (
            count_ext (is_free_page s) (is_free_page s') (λ q. ground (arith, r.regions, r.bit q))
              pmm_track_pages)
  ];
  free_unused = λ n g. ground (arith, r.regions, r.refs, r.bit n, w.free_unused n);
  in_use = λ n i a q. ground (arith, r.regions, r.refs, r.bit n, r.reserved n, w.in_use n);
  reserved_in_use = λ n i q. ground (arith, r.regions, r.bit n, r.reserved n, w.reserved_in_use n);
  refs_small = λ n. rw r.refs (w.refs_small n);
}
  where
    less : is_free_page s m ≡ true → s'.g_free_pages ≡ s.g_free_pages - 1
    less f = ground (arith, r.free)

    same : is_free_page s m ≡ false → s'.g_free_pages ≡ s.g_free_pages
    same f = ground (arith, r.free)

pub reserve_page-false :
    (s : Pmm) (addr : ℕ) → (reserve_page addr s).0 ≡ false → (reserve_page addr s).1 ≡ s
unfolding reserve_page
reserve_page-false s addr h = ground arith

-- Above the tracked memory only the list of reservations grows.
pub reserve_page-untracked :
    (s : Pmm) (addr : ℕ)
    → (reserve_page addr s).0 ≡ true
    → pmm_track_limit ≤ addr
    → AllRegions s.regions
    → (reserve_page addr s).1 ≡ record s {
      reserved_pages = s.reserved_pages ++ page_of addr ∷ [];
      reserved_count = s.reserved_count + 1;
    }
unfolding reserve_page take_reserved page_set_reserved phys_in_usable_region
reserve_page-untracked s addr h ge v = ground (arith, in_regions_bounds s.regions (page_of addr) v)

listed-IsValid :
    {s : Pmm} (ps : List ℕ) (n : ℕ)
    → IsValid s
    → IsValid (record s { reserved_pages = ps; reserved_count = n })
unfolding is_free_page page_is_allocated is_reserved page_is_reserved_fast
listed-IsValid ps n w = record {
  ready = w.ready;
  regions = w.regions;
  counted = w.counted;
  free_unused = w.free_unused;
  in_use = w.in_use;
  reserved_in_use = w.reserved_in_use;
  refs_small = w.refs_small;
}

-- In a ready manager, when `reserve_page` accepts an address below 4 GiB, its page is reserved,
-- taken if it was free, with the count of free pages lowered by one then, and no other page
-- changes.
pub reserve_page-Reserved :
    (s : Pmm) (addr : ℕ)
    → s.g_ready ≡ true
    → addr < pmm_track_limit
    → (reserve_page addr s).0 ≡ true
    → Reserved s (reserve_page addr s).1 (addr / page_size)
reserve_page-Reserved s addr ready small ok =
    rw (reserve_page-noted s addr ok small) (take_reserved-Reserved s addr ready small)

pub reserve_page-IsValid : {s : Pmm} (addr : ℕ) → IsValid s → IsValid (reserve_page addr s).1
reserve_page-IsValid {s} addr w = elim (Bool-cases (reserve_page addr s).0) [
  | inl ok ↦ elim (Bool-cases (ltb addr pmm_track_limit)) [
    | inl small ↦
        Reserved-IsValid w (reserve_page-Reserved s addr w.ready (ground arith) ok) (ground arith)
    | inr big ↦
        rw (reserve_page-untracked s addr ok (ground arith) w.regions) (listed-IsValid _ _ w)
  ]
  | inr bad ↦ rw (reserve_page-false s addr bad) w
]
