-- ===== src/Pmm/Scan.antt =====
-- src/kernel/pmm.c: what the two scans of `pmm_alloc_page` find.
use yabro_os.Base.{
  ℕ, zero, suc, ◌+◌, ◌-◌, ◌*◌, ◌%◌, ◌≤◌, ◌<◌, ◌≡◌, refl, inl, inr, true, false, none, some, List,
  [], ◌∷◌, Option-cases, arith,
}
use yabro_os.Pmm.State.{
  Pmm, Region, page_size, pmm_min_phys, pmm_track_limit, in_region, in_regions,
}
use yabro_os.Pmm.Alloc.{is_candidate, next_scan, base_scan, rounds, alloc_region, alloc_regions}

-- A page that a scan from `p` to `end` can return.
pub record Found (s : Pmm) (p end q : ℕ) : Type 0 where
  pub candidate : is_candidate s q ≡ true
  pub after : p ≤ q
  pub before : q < end
  pub aligned : (q - p) % page_size ≡ 0

pub base_scan-Found :
    (k : ℕ) (s : Pmm) (end p q : ℕ) → base_scan k s end p ≡ some q → Found s p end q
unfolding base_scan
base_scan-Found zero s end p q h = absurd (ground arith)
base_scan-Found (suc k) s end p q h = ground (arith, base_scan-Found k s end (p + page_size) q)

pub base_scan-none :
    (k : ℕ) (s : Pmm) (end p q : ℕ)
    → end < p + k * page_size + 1
    → base_scan k s end p ≡ none
    → p ≤ q
    → q < end
    → (q - p) % page_size ≡ 0
    → is_candidate s q ≡ false
unfolding base_scan
base_scan-none zero s end p q fuel h le lt al = absurd (omega arith)
base_scan-none (suc k) s end p q fuel h le lt al =
    ground (arith, base_scan-none k s end (p + page_size) q)

pub next_scan-Found :
    (k : ℕ) (s : Pmm) (end p q : ℕ)
    → (next_scan k s end p).0 ≡ some q
    → Found s p end q × ((next_scan k s end p).1 ≡ q + page_size)
unfolding next_scan
next_scan-Found zero s end p q h = absurd (ground arith)
next_scan-Found (suc k) s end p q h = ground (arith, next_scan-Found k s end (p + page_size) q)

-- The scan moves `next` forward in whole pages.
pub next_scan_next :
    (k : ℕ) (s : Pmm) (end p : ℕ)
    → (p ≤ (next_scan k s end p).1) × (((next_scan k s end p).1 - p) % page_size ≡ 0)
unfolding next_scan
next_scan_next zero s end p = omega arith
next_scan_next (suc k) s end p = ground (arith, next_scan_next k s end (p + page_size))

-- What `pmm_init` makes of a region and every operation keeps.
pub record IsRegion (r : Region) : Type 0 where
  pub low : pmm_min_phys ≤ r.base
  pub high : r.end ≤ pmm_track_limit
  pub base_aligned : r.base % page_size ≡ 0
  pub end_aligned : r.end % page_size ≡ 0
  pub next_aligned : r.next % page_size ≡ 0
  pub next_after : r.base ≤ r.next

-- A free page of the region, and the region that `alloc_region` leaves.
pub record Taken (s : Pmm) (r r' : Region) (q : ℕ) : Type 0 where
  pub candidate : is_candidate s q ≡ true
  pub inside : in_region q r ≡ true
  pub aligned : q % page_size ≡ 0
  pub same_base : r'.base ≡ r.base
  pub same_end : r'.end ≡ r.end
  pub region : IsRegion r'

pub record Full (s : Pmm) (r r' : Region) : Type 0 where
  pub none_left : (q : ℕ) → in_region q r ≡ true → q % page_size ≡ 0 → is_candidate s q ≡ false
  pub same_base : r'.base ≡ r.base
  pub same_end : r'.end ≡ r.end
  pub region : IsRegion r'

module _ (s : Pmm) (r : Region) (v : IsRegion r) where
  pub alloc_region-Taken :
      (q : ℕ) → (alloc_region s r).0 ≡ some q → Taken s r (alloc_region s r).1 q
  unfolding alloc_region
  alloc_region-Taken q h = ground (
    arith,
    next_scan-Found (rounds r.next r.end) s r.end r.next q,
    next_scan_next (rounds r.next r.end) s r.end r.next,
    base_scan-Found (rounds r.base r.end) s r.end r.base q,
  )

  pub alloc_region-Full : (alloc_region s r).0 ≡ none → Full s r (alloc_region s r).1
  unfolding alloc_region
  alloc_region-Full h = record {
    none_left =
        λ q inside al. ground (arith, base_scan-none (rounds r.base r.end) s r.end r.base q);
    same_base = ground arith;
    same_end = ground arith;
    region = ground (arith, next_scan_next (rounds r.next r.end) s r.end r.next);
  }

abbrev pub AllRegions : List Region → Type 0
AllRegions [] = Unit
AllRegions (r ∷ rs) = IsRegion r × AllRegions rs

-- Two lists of regions that cover the same addresses.
abbrev pub SameSpans : List Region → List Region → Type 0
SameSpans rs rs' = (q : ℕ) → in_regions q rs' ≡ in_regions q rs

pub record TakenFrom (s : Pmm) (rs : List Region) (q : ℕ) : Type 0 where
  pub candidate : is_candidate s q ≡ true
  pub inside : in_regions q rs ≡ true
  pub aligned : q % page_size ≡ 0

pub alloc_regions_taken :
    (s : Pmm) (rs : List Region) (q : ℕ)
    → AllRegions rs
    → (alloc_regions s rs).0 ≡ some q
    → TakenFrom s rs q
unfolding alloc_regions in_regions
alloc_regions_taken s [] q v h = absurd (ground arith)
alloc_regions_taken s (r ∷ rs) q v h =
    ground (arith, alloc_region-Taken s r v.0 q, alloc_regions_taken s rs q v.1)

pub alloc_regions_full :
    (s : Pmm) (rs : List Region) (q : ℕ)
    → AllRegions rs
    → (alloc_regions s rs).0 ≡ none
    → in_regions q rs ≡ true
    → q % page_size ≡ 0
    → is_candidate s q ≡ false
unfolding alloc_regions in_regions
alloc_regions_full s [] q v h i al = absurd (ground arith)
alloc_regions_full s (r ∷ rs) q v h i al = elim (Option-cases (alloc_region s r).0) [
  | inl e ↦ ground (arith, (alloc_region-Full s r v.0 e).none_left q, alloc_regions_full s rs q v.1)
  | inr (p, e) ↦ absurd (ground arith)
]

alloc_region_span :
    (s : Pmm) (r : Region) (q : ℕ) → in_region q (alloc_region s r).1 ≡ in_region q r
unfolding alloc_region
alloc_region_span s r q = ground arith

alloc_region-IsRegion : (s : Pmm) (r : Region) → IsRegion r → IsRegion (alloc_region s r).1
alloc_region-IsRegion s r v = elim (Option-cases (alloc_region s r).0) [
  | inl e ↦ (alloc_region-Full s r v e).region
  | inr (p, e) ↦ (alloc_region-Taken s r v p e).region
]

pub alloc_regions-SameSpans : (s : Pmm) (rs : List Region) → SameSpans rs (alloc_regions s rs).1
unfolding alloc_regions in_regions
alloc_regions-SameSpans s [] q = refl
alloc_regions-SameSpans s (r ∷ rs) q =
    ground (arith, alloc_region_span s r q, alloc_regions-SameSpans s rs q)

pub alloc_regions-AllRegions :
    (s : Pmm) (rs : List Region) → AllRegions rs → AllRegions (alloc_regions s rs).1
unfolding alloc_regions
alloc_regions-AllRegions s [] v = tt
alloc_regions-AllRegions s (r ∷ rs) v =
    ground (arith, alloc_region-IsRegion s r v.0, alloc_regions-AllRegions s rs v.1)
