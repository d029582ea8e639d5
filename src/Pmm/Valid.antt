-- ===== src/Pmm/Valid.antt =====
-- src/kernel/pmm.c: the invariant of the running manager.
use yabro_os.Base.{
  ℕ, ◌+◌, ◌-◌, ◌*◌, ◌^◌, ◌≤◌, ◌<◌, ◌≡◌, sym, ◌∙◌, Bool, true, false, ◌&&◌, not, List, [], ◌∷◌, ◌==◌,
  if◌then◌else◌, arith, count_below, count_taken, count_put, count_ext,
}
use yabro_os.Pmm.State.{
  Pmm, Region, page_size, pmm_min_phys, pmm_track_limit, in_regions, page_is_allocated, is_reserved,
}
use yabro_os.Pmm.Scan.{AllRegions, SameSpans}

abbrev pub pmm_track_pages : ℕ
pmm_track_pages = 2 ^ 20

-- Page `n` lies in a region and is not allocated.
unfoldable pub is_free_page : Pmm → ℕ → Bool
is_free_page s n = in_regions (n * page_size) s.regions && not (page_is_allocated s (n * page_size))

pub record IsValid (s : Pmm) : Type 0 where
  pub ready : s.g_ready ≡ true
  pub regions : AllRegions s.regions
  pub counted : s.g_free_pages ≡ count_below (is_free_page s) pmm_track_pages
  pub free_unused : (n : ℕ) → is_free_page s n ≡ true → s.page_refs n ≡ 0
  pub in_use :
      (n : ℕ)
      → in_regions (n * page_size) s.regions ≡ true
      → page_is_allocated s (n * page_size) ≡ true
      → is_reserved s (n * page_size) ≡ false
      → 1 ≤ s.page_refs n
  pub reserved_in_use :
      (n : ℕ)
      → in_regions (n * page_size) s.regions ≡ true
      → is_reserved s (n * page_size) ≡ true
      → page_is_allocated s (n * page_size) ≡ true
  pub refs_small : (n : ℕ) → s.page_refs n < 65536

pub in_regions_bounds :
    (rs : List Region) (q : ℕ)
    → AllRegions rs
    → in_regions q rs ≡ true
    → (pmm_min_phys ≤ q) × (q < pmm_track_limit)
unfolding in_regions
in_regions_bounds [] q v h = absurd (ground arith)
in_regions_bounds (r ∷ rs) q v h = ground (arith, in_regions_bounds rs q v.1)

pub untracked : (s : Pmm) (q : ℕ) → pmm_track_limit ≤ q → page_is_allocated s q ≡ true
unfolding page_is_allocated
untracked s q h = ground arith

-- `s'` differs from `s` in the bit and the count of page `m` alone, and in no reservation.
pub record Change (s s' : Pmm) (m : ℕ) (b : Bool) (v : ℕ) : Type 0 where
  pub ready : s'.g_ready ≡ s.g_ready
  pub spans : SameSpans s.regions s'.regions
  pub regions : AllRegions s.regions → AllRegions s'.regions
  pub bit :
      (n : ℕ)
      → page_is_allocated s' (n * page_size)
        ≡ (if n == m then b else page_is_allocated s (n * page_size))
  pub reserved : (n : ℕ) → is_reserved s' (n * page_size) ≡ is_reserved s (n * page_size)
  pub refs : (n : ℕ) → s'.page_refs n ≡ (if n == m then v else s.page_refs n)

module _ {s s' : Pmm} {m v : ℕ} {b : Bool} (c : Change s s' m b v)
    (i : in_regions (m * page_size) s.regions ≡ true) where
  pub is_free_page-Change :
      (n : ℕ) → is_free_page s' n ≡ (if n == m then not b else is_free_page s n)
  unfolding is_free_page
  is_free_page-Change n = ground (arith, c.spans (n * page_size), c.bit n)

free-inside :
    (s : Pmm) (n : ℕ) → is_free_page s n ≡ true → in_regions (n * page_size) s.regions ≡ true
unfolding is_free_page
free-inside s n h = ground arith

free-unallocated :
    (s : Pmm) (n : ℕ) → is_free_page s n ≡ true → page_is_allocated s (n * page_size) ≡ false
unfolding is_free_page
free-unallocated s n h = ground arith

used-allocated :
    (s : Pmm) (n : ℕ)
    → is_free_page s n ≡ false
    → in_regions (n * page_size) s.regions ≡ true
    → page_is_allocated s (n * page_size) ≡ true
unfolding is_free_page
used-allocated s n h i = ground arith

-- A free page is taken.
module _ {s s' : Pmm} {m v : ℕ} (w : IsValid s) (c : Change s s' m true v) (pos : 1 ≤ v)
    (small : v < 65536) (i : in_regions (m * page_size) s.regions ≡ true) where
  -- The fields but the count, which differs by whether the page was free.
  written-IsValid : s'.g_free_pages ≡ count_below (is_free_page s') pmm_track_pages → IsValid s'
  written-IsValid e = record {
    ready = c.ready ∙ w.ready;
    regions = c.regions w.regions;
    counted = e;
    free_unused = λ n f. ground (arith, is_free_page-Change c i n, c.refs n, w.free_unused n);
    in_use = λ n j a r.
        ground (arith, c.spans (n * page_size), c.bit n, c.reserved n, c.refs n, w.in_use n);
    reserved_in_use = λ n j r.
        ground (arith, c.spans (n * page_size), c.bit n, c.reserved n, w.reserved_in_use n);
    refs_small = λ n. ground (arith, c.refs n, w.refs_small n);
  }

  pub take-IsValid :
      is_free_page s m ≡ true
      → m < pmm_track_pages
      → s'.g_free_pages ≡ s.g_free_pages - 1
      → IsValid s'
  take-IsValid f lt e = written-IsValid (
      omega (
        arith,
        w.counted,
        count_taken (is_free_page s) (is_free_page s') m (is_free_page-Change c i) pmm_track_pages
            lt f,
      ))

  -- Another count for a used page.
  pub share-IsValid : is_free_page s m ≡ false → s'.g_free_pages ≡ s.g_free_pages → IsValid s'
  share-IsValid f e = written-IsValid (e ∙ (w.counted ∙ sym same))
    where
      same :
          count_below (is_free_page s') pmm_track_pages
          ≡ count_below (is_free_page s) pmm_track_pages
      same =
          count_ext (is_free_page s) (is_free_page s')
            (λ q. ground (arith, is_free_page-Change c i q)) pmm_track_pages

-- A used page is given back.
pub give-IsValid :
    {s s' : Pmm} {m : ℕ}
    → IsValid s
    → Change s s' m false 0
    → in_regions (m * page_size) s.regions ≡ true
    → is_free_page s m ≡ false
    → is_reserved s (m * page_size) ≡ false
    → m < pmm_track_pages
    → s'.g_free_pages ≡ s.g_free_pages + 1
    → IsValid s'
give-IsValid {s} {s'} {m} w c i f r lt e = record {
  ready = c.ready ∙ w.ready;
  regions = c.regions w.regions;
  counted = omega (
    arith,
    w.counted,
    count_put (is_free_page s) (is_free_page s') m (is_free_page-Change c i) pmm_track_pages lt f,
  );
  free_unused = λ n g. ground (arith, is_free_page-Change c i n, c.refs n, w.free_unused n);
  in_use = λ n j a q.
      ground (arith, c.spans (n * page_size), c.bit n, c.reserved n, c.refs n, w.in_use n);
  reserved_in_use =
      λ n j q. ground (arith, c.spans (n * page_size), c.bit n, c.reserved n, w.reserved_in_use n);
  refs_small = λ n. ground (arith, c.refs n, w.refs_small n);
}
