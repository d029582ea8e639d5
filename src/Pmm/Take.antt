-- ===== src/Pmm/Take.antt =====
-- src/kernel/pmm.c: `pmm_alloc_page` takes a free page, and fails only when there is none.
use yabro_os.Base.{
  ℕ, ◌+◌, ◌-◌, ◌*◌, ◌/◌, ◌%◌, ◌≤◌, ◌<◌, ◌≡◌, ◌≢◌, refl, ap, ◌∙◌, ◌↔◌, inl, inr, true, false, none,
  some, List, ◌==◌, if◌then◌else◌, arith, Option-cases, count_taken, count_none,
}
use yabro_os.Pmm.State.{
  Pmm, Region, page_size, pmm_min_phys, pmm_track_limit, in_regions, page_is_allocated,
  page_set_allocated, page_is_reserved_fast, is_reserved,
}
use yabro_os.Pmm.Bitmap.{map_test-map_set}
use yabro_os.Pmm.Alloc.{is_candidate, alloc_regions, take_page, pmm_alloc_page}
use yabro_os.Pmm.Scan.{
  AllRegions, SameSpans, TakenFrom, alloc_regions_taken, alloc_regions_full,
  alloc_regions-SameSpans, alloc_regions-AllRegions,
}
use yabro_os.Pmm.Valid.{
  IsValid, Change, is_free_page, in_regions_bounds, take-IsValid, pmm_track_pages,
}

abbrev pub with_regions : List Region → Pmm → Pmm
with_regions rs s = record s { regions = rs }

module _ (s : Pmm) (p : ℕ) (lt : p < pmm_track_limit) where
  pub take_page-Change :
      (rs : List Region)
      → SameSpans s.regions rs
      → (AllRegions s.regions → AllRegions rs)
      → Change s (take_page p (with_regions rs s)) (p / page_size) true 1
  unfolding take_page page_set_allocated page_is_allocated is_reserved page_is_reserved_fast
  take_page-Change rs spans regions = record {
    ready = ground arith;
    spans = ground (arith, spans);
    regions = ground arith;
    bit = λ n.
        ground (arith, map_test-map_set s.page_state (p / page_size) (n * page_size / page_size));
    reserved = λ n. ground arith;
    refs = λ n. ground arith;
  }

candidate-free :
    (s : Pmm) (p : ℕ)
    → is_candidate s p ≡ true
    → in_regions p s.regions ≡ true
    → p % page_size ≡ 0
    → is_free_page s (p / page_size) ≡ true
unfolding is_candidate is_free_page
candidate-free s p c i al =
    let e : p / page_size * page_size ≡ p = omega arith in rw e (ground arith)

candidate-unallocated :
    (s : Pmm) (p : ℕ)
    → is_candidate s p ≡ true
    → (page_is_allocated s p ≡ false) × (is_reserved s p ≡ false)
unfolding is_candidate
candidate-unallocated s p c = ground arith

-- What a successful `pmm_alloc_page` has done.
pub record Allocated (s : Pmm) (p : ℕ) (s' : Pmm) : Type 0 where
  pub inside : in_regions p s.regions ≡ true
  pub aligned : p % page_size ≡ 0
  pub was_free : page_is_allocated s p ≡ false
  pub not_reserved : is_reserved s p ≡ false
  pub change : Change s s' (p / page_size) true 1
  pub one_less : s.g_free_pages ≡ s'.g_free_pages + 1
  pub valid : IsValid s'

positive_of_free :
    {s : Pmm} (n : ℕ)
    → IsValid s
    → is_free_page s n ≡ true
    → n < pmm_track_pages
    → 0 < s.g_free_pages
positive_of_free {s} n w f lt = omega (
  arith,
  w.counted,
  count_taken (is_free_page s) (λ q. if q == n then false else is_free_page s q) n (λ q. refl)
      pmm_track_pages lt f,
)

take_page-Allocated :
    {s : Pmm} (p : ℕ) (rs : List Region)
    → IsValid s
    → TakenFrom s s.regions p
    → SameSpans s.regions rs
    → (AllRegions s.regions → AllRegions rs)
    → Allocated s p (take_page p (with_regions rs s))
take_page-Allocated {s} p rs w t spans regions = record {
  inside = t.inside;
  aligned = t.aligned;
  was_free = (candidate-unallocated s p t.candidate).0;
  not_reserved = (candidate-unallocated s p t.candidate).1;
  change = change;
  one_less = omega (arith, less, positive_of_free (p / page_size) w free small);
  valid = take-IsValid w change (omega arith) (omega arith) inside' free small less;
}
  where
    bounds : (pmm_min_phys ≤ p) × (p < pmm_track_limit)
    bounds = in_regions_bounds s.regions p w.regions t.inside

    change : Change s (take_page p (with_regions rs s)) (p / page_size) true 1
    change = take_page-Change s p bounds.1 rs spans regions

    free : is_free_page s (p / page_size) ≡ true
    free = candidate-free s p t.candidate t.inside t.aligned

    small : p / page_size < pmm_track_pages
    small = omega (arith, bounds)

    inside' : in_regions (p / page_size * page_size) s.regions ≡ true
    inside' = let e : p / page_size * page_size ≡ p = omega (arith, t.aligned) in rw e t.inside

    less : (take_page p (with_regions rs s)).g_free_pages ≡ s.g_free_pages - 1
    less = unfold take_page in refl

module _ (s : Pmm) (ready : s.g_ready ≡ true) (mapped : s.g_hhdm ≢ 0) where
  pmm_alloc_page-some :
      (p : ℕ)
      → (alloc_regions s s.regions).0 ≡ some p
      → pmm_alloc_page s ≡ (p, take_page p (with_regions (alloc_regions s s.regions).1 s))
  unfolding pmm_alloc_page
  pmm_alloc_page-some p e = ground arith

  pmm_alloc_page-none :
      (alloc_regions s s.regions).0 ≡ none
      → pmm_alloc_page s ≡ (0, with_regions (alloc_regions s s.regions).1 s)
  unfolding pmm_alloc_page
  pmm_alloc_page-none e = ground arith

unmapped : (s : Pmm) → s.g_hhdm ≡ 0 → (pmm_alloc_page s).0 ≡ 0
unfolding pmm_alloc_page
unmapped s e = ground arith

-- In a valid manager, a result of `pmm_alloc_page` other than 0 is an aligned page of a usable
-- region that was free and not reserved, and it alone is taken, with one reference and one free
-- page less.
pub pmm_alloc_page-Allocated :
    {s : Pmm}
    → IsValid s
    → (pmm_alloc_page s).0 ≢ 0
    → Allocated s (pmm_alloc_page s).0 (pmm_alloc_page s).1
pmm_alloc_page-Allocated {s} w ne = elim (Option-cases (alloc_regions s s.regions).0) [
  | inl e ↦ absurd (ne (ap (λ (r : ℕ × Pmm). r.0) (pmm_alloc_page-none s w.ready mapped e)))
  | inr (p, e) ↦ rw (pmm_alloc_page-some s w.ready mapped p e) (
      take_page-Allocated p _ w (alloc_regions_taken s s.regions p w.regions e)
        (alloc_regions-SameSpans s s.regions) (alloc_regions-AllRegions s s.regions))
]
  where
    mapped : s.g_hhdm ≢ 0
    mapped = λ e. ne (unmapped s e)

full-unavailable :
    {s : Pmm} (n : ℕ) → IsValid s → (alloc_regions s s.regions).0 ≡ none → is_free_page s n ≡ false
unfolding is_free_page is_candidate
full-unavailable {s} n w e = ground (
  arith,
  alloc_regions_full s s.regions (n * page_size) w.regions e,
  w.reserved_in_use n,
  in_regions_bounds s.regions (n * page_size) w.regions,
)

-- In a valid manager with a direct mapping, `pmm_alloc_page` returns 0 exactly when the count of
-- free pages is 0.
pub pmm_alloc_page-eq-zero :
    {s : Pmm} → IsValid s → s.g_hhdm ≢ 0 → ((pmm_alloc_page s).0 ≡ 0) ↔ (s.g_free_pages ≡ 0)
pmm_alloc_page-eq-zero {s} w h = elim (Option-cases (alloc_regions s s.regions).0) [
  | inl e ↦ (
    λ _. w.counted ∙ count_none (is_free_page s) pmm_track_pages (λ n _. full-unavailable n w e),
    λ _. ap (λ (r : ℕ × Pmm). r.0) (pmm_alloc_page-none s w.ready h e),
  )
  | inr (p, e) ↦
      let t = alloc_regions_taken s s.regions p w.regions e in
      let b = in_regions_bounds s.regions p w.regions t.inside in
      let f = candidate-free s p t.candidate t.inside t.aligned in
      let pos : 0 < s.g_free_pages = positive_of_free (p / page_size) w f (omega (arith, b)) in
      (
        λ z.
            absurd (
              omega (arith, b, z, ap (λ (r : ℕ × Pmm). r.0) (pmm_alloc_page-some s w.ready h p e))),
        λ z. absurd (omega arith),
      )
]
