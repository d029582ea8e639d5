-- ===== src/Pmm/Keep.antt =====
-- src/kernel/pmm.c: `pmm_alloc_page`, `pmm_free_page` and `pmm_retain_page` keep the invariant.
use yabro_os.Base.{
  ℕ, ◌+◌, ◌*◌, ◌/◌, ◌≤◌, ◌<◌, ◌≡◌, sym, ◌∙◌, ◌⊎◌, inl, inr, true, false, some, List, ltb, update,
  arith, Bool-cases, count_ext,
}
use yabro_os.Pmm.State.{
  Pmm, Region, page_size, page_of, phys_in_usable_region, page_is_allocated, page_is_reserved_fast,
  is_reserved,
}
use yabro_os.Pmm.Alloc.{pmm_alloc_page, alloc_regions, pmm_free_page, pmm_retain_page}
use yabro_os.Pmm.Scan.{
  AllRegions, SameSpans, alloc_regions_taken, alloc_regions-SameSpans, alloc_regions-AllRegions,
}
use yabro_os.Pmm.Valid.{IsValid, is_free_page, pmm_track_pages, in_regions_bounds}
use yabro_os.Pmm.Take.{pmm_alloc_page-Allocated}
use yabro_os.Pmm.Release.{InUse, pmm_free_page-last, pmm_free_page-shared, refs_pos}

-- The guards of `pmm_free_page`: it leaves the state alone, or acts on a page in use.
free_guard :
    (s : Pmm) (addr : ℕ)
    → (pmm_free_page addr s ≡ s)
      ⊎ (InUse s (page_of addr) × (pmm_free_page addr s ≡ pmm_free_page (page_of addr) s))
unfolding pmm_free_page phys_in_usable_region
free_guard s addr = ground arith

pub pmm_free_page-IsValid : {s : Pmm} (addr : ℕ) → IsValid s → IsValid (pmm_free_page addr s)
pmm_free_page-IsValid {s} addr w = elim (free_guard s addr) [
  | inl e ↦ rw e w
  | inr (u, e) ↦ rw e (elim (Bool-cases (ltb 1 (s.page_refs (page_of addr / page_size)))) [
    | inl l ↦ (pmm_free_page-shared w u (ground arith)).2
    | inr l ↦ (pmm_free_page-last w u (ground (arith, refs_pos w u))).2
  ])
]

-- Another count for a page that is not free.
refs-IsValid :
    {s : Pmm} (m v : ℕ)
    → IsValid s
    → is_free_page s m ≡ false
    → 1 ≤ v
    → v < 65536
    → IsValid (record s { page_refs = update s.page_refs m v })
unfolding is_free_page page_is_allocated is_reserved page_is_reserved_fast
refs-IsValid {s} m v w f pos small = record {
  ready = w.ready;
  regions = w.regions;
  counted = w.counted;
  free_unused = λ n g. ground (arith, w.free_unused n);
  in_use = λ n i a r. ground (arith, w.in_use n);
  reserved_in_use = w.reserved_in_use;
  refs_small = λ n. ground (arith, w.refs_small n);
}

module _ (s : Pmm) (addr : ℕ) where
  -- A successful `pmm_retain_page` adds one to the count.
  pub Retained : Type 0
  Retained =
      (page_is_allocated s (page_of addr) ≡ true)
      × (s.page_refs (page_of addr / page_size) < 65535)
      × ((pmm_retain_page addr s).1 ≡ record s {
        page_refs =
            update s.page_refs (page_of addr / page_size)
              (s.page_refs (page_of addr / page_size) + 1);
      })

  retain_cases : ((n : ℕ) → s.page_refs n < 65536) → ((pmm_retain_page addr s).1 ≡ s) ⊎ Retained
  unfolding pmm_retain_page Retained
  retain_cases small = ground (arith, small (page_of addr / page_size))

allocated-not_free :
    (s : Pmm) (addr : ℕ)
    → page_is_allocated s (page_of addr) ≡ true
    → is_free_page s (page_of addr / page_size) ≡ false
unfolding is_free_page
allocated-not_free s addr a =
    let same : page_of addr / page_size * page_size ≡ page_of addr = omega arith in
    rw (same, a) (ground arith)

pub pmm_retain_page-IsValid : {s : Pmm} (addr : ℕ) → IsValid s → IsValid (pmm_retain_page addr s).1
unfolding Retained
pmm_retain_page-IsValid {s} addr w = elim (retain_cases s addr w.refs_small) [
  | inl e ↦ rw e w
  | inr (a, small, e) ↦ rw e (
      refs-IsValid (page_of addr / page_size) _ w (allocated-not_free s addr a) (omega arith)
        (omega arith))
]

-- The state with other regions over the same addresses.
regions-IsValid :
    {s : Pmm} (rs : List Region)
    → IsValid s
    → SameSpans s.regions rs
    → AllRegions rs
    → IsValid (record s { regions = rs })
unfolding is_free_page page_is_allocated is_reserved page_is_reserved_fast
regions-IsValid {s} rs w spans v = record {
  ready = w.ready;
  regions = v;
  counted =
      w.counted
      ∙ sym (
          count_ext (is_free_page s) (is_free_page (record s { regions = rs }))
            (λ q. ground (arith, spans (q * page_size))) pmm_track_pages);
  free_unused = λ n g. ground (arith, w.free_unused n, spans (n * page_size));
  in_use = λ n i a r. ground (arith, w.in_use n, spans (n * page_size));
  reserved_in_use = λ n i r. ground (arith, w.reserved_in_use n, spans (n * page_size));
  refs_small = w.refs_small;
}

alloc_cases :
    (s : Pmm)
    → ((pmm_alloc_page s).1 ≡ s)
      ⊎ ((pmm_alloc_page s).1 ≡ record s { regions = (alloc_regions s s.regions).1 })
      ⊎ ((alloc_regions s s.regions).0 ≡ some (pmm_alloc_page s).0)
unfolding pmm_alloc_page
alloc_cases s = ground arith

pub pmm_alloc_page-IsValid : {s : Pmm} → IsValid s → IsValid (pmm_alloc_page s).1
pmm_alloc_page-IsValid {s} w = elim (alloc_cases s) [
  | inl e ↦ rw e w
  | inr (inl e) ↦ rw e (
      regions-IsValid _ w (alloc_regions-SameSpans s s.regions)
        (alloc_regions-AllRegions s s.regions w.regions))
  | inr (inr e) ↦
      let t = alloc_regions_taken s s.regions _ w.regions e in
      let b = in_regions_bounds s.regions _ w.regions t.inside in
      (pmm_alloc_page-Allocated w (omega (arith, b))).valid
]
