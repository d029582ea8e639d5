-- ===== src/Pmm/Release.antt =====
-- src/kernel/pmm.c: `pmm_free_page`, `pmm_retain_page`, `reserve_page` keep the invariant, and how they
-- undo one another.
use yabro_os.Base.{
  ℕ, ◌+◌, ◌-◌, ◌*◌, ◌/◌, ◌%◌, ◌≤◌, ◌<◌, ◌≡◌, ◌≢◌, refl, ap, ◌∙◌, inl, inr, Bool, true, false, ◌==◌,
  update, arith, Bool-cases,
}
use yabro_os.Pmm.State.{
  Pmm, page_size, page_of, pmm_min_phys, pmm_track_limit, in_regions, phys_in_usable_region,
  page_is_allocated, page_set_allocated, page_is_reserved_fast, is_reserved,
}
use yabro_os.Pmm.Bitmap.{map_test-map_clear}
use yabro_os.Pmm.Alloc.{pmm_alloc_page, pmm_free_page, pmm_retain_page}
use yabro_os.Pmm.Valid.{
  IsValid, Change, is_free_page, in_regions_bounds, give-IsValid, share-IsValid,
}
use yabro_os.Pmm.Take.{Allocated, pmm_alloc_page-Allocated}

-- A page in use that the operations act on: in a region, allocated, not reserved.
pub record InUse (s : Pmm) (p : ℕ) : Type 0 where
  pub aligned : p % page_size ≡ 0
  pub inside : in_regions p s.regions ≡ true
  pub allocated : page_is_allocated s p ≡ true
  pub not_reserved : is_reserved s p ≡ false

module _ {s : Pmm} {p : ℕ} (w : IsValid s) (u : InUse s p) where
  bounds : (pmm_min_phys ≤ p) × (p < pmm_track_limit)
  bounds = in_regions_bounds s.regions p w.regions u.inside

  same_page : page_of p ≡ p
  same_page = omega (arith, u.aligned)

  pub refs_pos : 1 ≤ s.page_refs (p / page_size)
  refs_pos =
      w.in_use (p / page_size) (rw same_page u.inside) (rw same_page u.allocated)
        (rw same_page u.not_reserved)

  not_free : is_free_page s (p / page_size) ≡ false
  unfolding is_free_page
  not_free = rw (same_page, u.allocated) (ground arith)

  free_value-last :
      s.page_refs (p / page_size) ≡ 1
      → pmm_free_page p s ≡ record (page_set_allocated p false s) {
        page_refs = update s.page_refs (p / page_size) 0;
        g_free_pages = s.g_free_pages + 1;
      }
  unfolding pmm_free_page phys_in_usable_region
  free_value-last e =
      ground (arith, w.ready, bounds, same_page, u.inside, u.allocated, u.not_reserved)

  free_value-shared :
      1 < s.page_refs (p / page_size)
      → pmm_free_page p s ≡ record s {
        page_refs = update s.page_refs (p / page_size) (s.page_refs (p / page_size) - 1);
      }
  unfolding pmm_free_page phys_in_usable_region
  free_value-shared e =
      ground (arith, w.ready, bounds, same_page, u.inside, u.allocated, u.not_reserved)

  retain_value :
      s.page_refs (p / page_size) < 65535
      → pmm_retain_page p s ≡ (
        true,
        record s {
          page_refs = update s.page_refs (p / page_size) (s.page_refs (p / page_size) + 1);
        },
      )
  unfolding pmm_retain_page
  retain_value e =
      ground (arith, w.ready, bounds, same_page, refs_pos, u.inside, u.allocated, u.not_reserved)

  refs-Change :
      (v : ℕ)
      → Change s
          (record s { page_refs = update s.page_refs (p / page_size) v })
          (p / page_size)
          true
          v
  unfolding page_is_allocated is_reserved page_is_reserved_fast
  refs-Change v = record {
    ready = refl;
    spans = λ q. refl;
    regions = λ a. a;
    bit = λ n. elim (Bool-cases (n == p / page_size)) [
      | inl e ↦ let e' : n * page_size ≡ p = ground (arith, same_page) in rw (e, e') u.allocated
      | inr e ↦ rw e
    ];
    reserved = λ n. refl;
    refs = λ n. ground arith;
  }

  freed-Change :
      (g : ℕ)
      → Change s
          (record (page_set_allocated p false s) {
            page_refs = update s.page_refs (p / page_size) 0;
            g_free_pages = g;
          })
          (p / page_size)
          false
          0
  unfolding page_set_allocated page_is_allocated is_reserved page_is_reserved_fast
  freed-Change g = record {
    ready = ground (arith, bounds);
    spans = λ q. ground (arith, bounds);
    regions = ground (arith, bounds);
    bit = λ n. ground (
      arith,
      bounds,
      map_test-map_clear s.page_state (p / page_size) (n * page_size / page_size),
    );
    reserved = λ n. ground (arith, bounds);
    refs = λ n. ground arith;
  }

  inside_page : in_regions (p / page_size * page_size) s.regions ≡ true
  inside_page = rw same_page u.inside

  -- For a page in use in a valid manager whose count is 1, `pmm_free_page` frees that page and no
  -- other, the number of free pages goes up by one, and the manager is valid.
  pub pmm_free_page-last :
      s.page_refs (p / page_size) ≡ 1
      → Change s (pmm_free_page p s) (p / page_size) false 0
        × ((pmm_free_page p s).g_free_pages ≡ s.g_free_pages + 1)
        × IsValid (pmm_free_page p s)
  pmm_free_page-last e =
      let c = freed-Change (s.g_free_pages + 1) in
      rw (free_value-last e) (
        c,
        refl,
        give-IsValid w c inside_page not_free (rw same_page u.not_reserved) (omega (arith, bounds))
            refl,
      )

  -- For a page in use in a valid manager whose count is above 1, `pmm_free_page` lowers the count
  -- by one and changes nothing else of the manager, which is valid.
  pub pmm_free_page-shared :
      1 < s.page_refs (p / page_size)
      → Change s (pmm_free_page p s) (p / page_size) true (s.page_refs (p / page_size) - 1)
        × (pmm_free_page p s ≡ record s {
          page_refs = update s.page_refs (p / page_size) (s.page_refs (p / page_size) - 1);
        })
        × IsValid (pmm_free_page p s)
  pmm_free_page-shared e =
      let c = refs-Change (s.page_refs (p / page_size) - 1) in
      rw (free_value-shared e) (
        c,
        refl,
        share-IsValid w c (omega arith) (omega (arith, w.refs_small (p / page_size))) inside_page
            not_free refl,
      )

  -- A further reference, below the limit of the 16-bit count.
  pub pmm_retain_page-ok :
      s.page_refs (p / page_size) < 65535
      → ((pmm_retain_page p s).0 ≡ true)
        × Change s (pmm_retain_page p s).1 (p / page_size) true (s.page_refs (p / page_size) + 1)
        × ((pmm_retain_page p s).1.g_free_pages ≡ s.g_free_pages)
        × IsValid (pmm_retain_page p s).1
  pmm_retain_page-ok e =
      let c = refs-Change (s.page_refs (p / page_size) + 1) in
      rw (retain_value e)
        (refl, c, refl, share-IsValid w c (omega arith) (omega arith) inside_page not_free refl)

-- A page with a changed count is in use as before.
InUse-Change : {s s' : Pmm} {m v : ℕ} (p : ℕ) → Change s s' m true v → InUse s p → InUse s' p
InUse-Change {s} {s'} {m} p c u = record {
  aligned = u.aligned;
  inside = c.spans p ∙ u.inside;
  allocated = rw (← same) (ground (arith, c.bit (p / page_size), allocated));
  not_reserved = rw (← same) (c.reserved (p / page_size) ∙ not_reserved);
}
  where
    same : p / page_size * page_size ≡ p
    same = omega (arith, u.aligned)

    allocated : page_is_allocated s (p / page_size * page_size) ≡ true
    allocated = rw same u.allocated

    not_reserved : is_reserved s (p / page_size * page_size) ≡ false
    not_reserved = rw same u.not_reserved

Change-trans :
    {s t u : Pmm} {m v v' : ℕ} {b b' : Bool}
    → Change s t m b v
    → Change t u m b' v'
    → Change s u m b' v'
Change-trans c d = record {
  ready = d.ready ∙ c.ready;
  spans = λ q. d.spans q ∙ c.spans q;
  regions = λ a. d.regions (c.regions a);
  bit = λ n. ground (arith, d.bit n, c.bit n);
  reserved = λ n. d.reserved n ∙ c.reserved n;
  refs = λ n. ground (arith, d.refs n, c.refs n);
}

-- For a page in use in a valid manager, with a count below 65535, `pmm_free_page` undoes
-- `pmm_retain_page`: the count, the bits and the number of free pages are as before, and the
-- manager is valid.
pub free-retain :
    {s : Pmm} {p : ℕ}
    → IsValid s
    → InUse s p
    → s.page_refs (p / page_size) < 65535
    → let s' = pmm_free_page p (pmm_retain_page p s).1 in
      Change s s' (p / page_size) true (s.page_refs (p / page_size))
      × (s'.g_free_pages ≡ s.g_free_pages)
      × IsValid s'
free-retain {s} {p} w u e =
    let (done, c, k, w') = pmm_retain_page-ok w u e in
    let u' = InUse-Change p c u in
    let n : (pmm_retain_page p s).1.page_refs (p / page_size) ≡ s.page_refs (p / page_size) + 1 =
      ground (arith, c.refs (p / page_size)) in
    let (d, f, w'') = pmm_free_page-shared w' u' (omega (arith, n, refs_pos w u)) in
    let back : (pmm_retain_page p s).1.page_refs (p / page_size) - 1 ≡ s.page_refs (p / page_size) =
      omega (arith, n) in
    (rw (← back) (Change-trans c d), ap (λ (t : Pmm). t.g_free_pages) f ∙ k, w'')

-- What `pmm_alloc_page` returns is in use, with one reference.
Allocated-InUse :
    {s s' : Pmm} {p : ℕ} → Allocated s p s' → InUse s' p × (s'.page_refs (p / page_size) ≡ 1)
Allocated-InUse {s} {s'} {p} a = (
  record {
    aligned = a.aligned;
    inside = a.change.spans p ∙ a.inside;
    allocated = rw (← same) (ground (arith, a.change.bit (p / page_size)));
    not_reserved = rw (← same) (a.change.reserved (p / page_size) ∙ rw same a.not_reserved);
  },
  ground (arith, a.change.refs (p / page_size)),
)
  where
    same : p / page_size * page_size ≡ p
    same = omega (arith, a.aligned)

free_of_Allocated : {s s' : Pmm} {p : ℕ} → Allocated s p s' → is_free_page s (p / page_size) ≡ true
unfolding is_free_page
free_of_Allocated {s} {s'} {p} a =
    let same : p / page_size * page_size ≡ p = omega (arith, a.aligned) in
    rw (same, a.inside, a.was_free)

-- In a valid manager whose `pmm_alloc_page` succeeds, freeing the page it returns restores every
-- bit, every count and the number of free pages, and the manager is valid.
pub free-alloc :
    {s : Pmm}
    → IsValid s
    → (pmm_alloc_page s).0 ≢ 0
    → let (p, s1) = pmm_alloc_page s in
      let s2 = pmm_free_page p s1 in
      ((n : ℕ) → page_is_allocated s2 (n * page_size) ≡ page_is_allocated s (n * page_size))
      × ((n : ℕ) → s2.page_refs n ≡ s.page_refs n)
      × (s2.g_free_pages ≡ s.g_free_pages)
      × IsValid s2
free-alloc {s} w ne =
    let a = pmm_alloc_page-Allocated w ne in
    let (u, one) = Allocated-InUse a in
    let (d, k, w'') = pmm_free_page-last a.valid u one in
    let f : is_free_page s ((pmm_alloc_page s).0 / page_size) ≡ true = free_of_Allocated a in
    let same : (pmm_alloc_page s).0 / page_size * page_size ≡ (pmm_alloc_page s).0 =
      omega (arith, a.aligned) in
    (
      λ n. ground (arith, d.bit n, a.change.bit n, a.was_free, same),
      λ n.
          ground
            (arith, d.refs n, a.change.refs n, w.free_unused ((pmm_alloc_page s).0 / page_size) f),
      omega (arith, k, a.one_less),
      w'',
    )
