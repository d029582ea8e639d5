-- ===== src/Kernel/Mmap/GapFree.antt =====
-- src/kernel/main.c: what the search for a gap finds, and that it ends.
use yabro_os.Base.{
  ℕ, zero, suc, ◌+◌, ◌-◌, ◌*◌, ◌/◌, ◌%◌, ◌<◌, ◌≤◌, ◌≡◌, ◌⊎◌, inl, inr, Bool, true, false, ◌&&◌,
  Option, none, some, ltb, ◌==◌, if◌then◌else◌, arith, Bool-cases,
}
use yabro_os.Pmm.State.{page_size, page_of, align_up}
use yabro_os.Vmm.Machine.{Machine}
use yabro_os.Kernel.Mmap.Gap.{
  user_limit, user_mmap_min, user_heap_base, user_mmap_range_ok, is_mapped, free_loop,
  user_mmap_range_free, probe_loop, gap_loop, gap_rounds, user_mmap_find_gap,
}

module _ (m : Machine) where
  free_loop_sound :
      (k va last q : ℕ)
      → free_loop k m va last ≡ true
      → va ≤ q
      → q ≤ last
      → (q - va) % page_size ≡ 0
      → is_mapped m q ≡ false
  unfolding free_loop
  free_loop_sound zero va last q h a b c = absurd (ground arith)
  free_loop_sound (suc k) va last q h a b c =
      ground (arith, free_loop_sound k (va + page_size) last q)

  probe_loop-ge :
      (k probe last : ℕ)
      → probe % page_size ≡ 0
      → (probe ≤ probe_loop k m probe last) × (probe_loop k m probe last % page_size ≡ 0)
  unfolding probe_loop
  probe_loop-ge zero probe last al = (omega arith, al)
  probe_loop-ge (suc k) probe last al =
      let rest = probe_loop-ge k (probe + page_size) last (omega arith) in ground (arith, rest)

  -- A free range of the user space, clear of the heap.
  pub record FreeRange (size heap_end base : ℕ) : Type 0 where
    pub aligned : base % page_size ≡ 0
    pub low : user_mmap_min ≤ base
    pub high : base + size ≤ user_limit
    pub clear : heap_end ≤ base ⊎ heap_end ≤ user_heap_base
    pub free : (q : ℕ) → q % page_size ≡ 0 → base ≤ q → q < base + size → is_mapped m q ≡ false

  range_free_sound :
      (base size q : ℕ)
      → base % page_size ≡ 0
      → user_mmap_range_free m base size ≡ true
      → q % page_size ≡ 0
      → base ≤ q
      → q < base + size
      → is_mapped m q ≡ false
  unfolding user_mmap_range_free
  range_free_sound base size q al h alq lo hi =
      let last = page_of (base + size - 1) in
      free_loop_sound ((last - page_of base) / page_size + 1) (page_of base) last q (ground arith)
        (omega arith) (omega arith) (omega arith)

  -- The first page that the round looks at.
  abbrev first_base : ℕ → ℕ
  first_base from = if ltb from user_mmap_min then user_mmap_min else from

  abbrev hits_heap : ℕ → ℕ → ℕ → Bool
  hits_heap size heap_end base =
      ltb user_heap_base heap_end
      && ltb base (align_up heap_end)
      && ltb user_heap_base (base + size)

  abbrev probe_from : ℕ → ℕ → ℕ
  probe_from size base =
      let last = page_of (base + size - 1) in probe_loop ((last - base) / page_size + 1) m base last

  found-FreeRange :
      (size heap_end base : ℕ)
      → heap_end < user_limit
      → base % page_size ≡ 0
      → user_mmap_range_ok base size ≡ true
      → hits_heap size heap_end base ≡ false
      → user_mmap_range_free m base size ≡ true
      → FreeRange size heap_end base
  unfolding user_mmap_range_ok
  found-FreeRange size heap_end base small al r hits free = record {
    aligned = al;
    low = ground arith;
    high = ground arith;
    clear = ground arith;
    free = λ q alq lo hi. range_free_sound base size q al free alq lo hi;
  }

  gap_loop-FreeRange :
      (k size heap_end from base : ℕ)
      → heap_end < user_limit
      → from % page_size ≡ 0
      → gap_loop k m size heap_end from ≡ some (some base)
      → FreeRange size heap_end base
  unfolding gap_loop
  gap_loop-FreeRange zero size heap_end from base small al h = cc
  gap_loop-FreeRange (suc k) size heap_end from base small al h =
      let b = first_base from in
      let alb : b % page_size ≡ 0 = ground arith in
      let alh : align_up heap_end % page_size ≡ 0 = omega arith in
      let alp =
        (probe_loop-ge ((page_of (b + size - 1) - b) / page_size + 1) b (page_of (b + size - 1))
          alb).1 in
      elim (Bool-cases (user_mmap_range_ok b size)) [
        | inr e ↦ absurd (ground arith)
        | inl e ↦ elim (Bool-cases (hits_heap size heap_end b)) [
          | inl f ↦
              gap_loop-FreeRange k size heap_end (align_up heap_end) base small alh (ground arith)
          | inr f ↦ elim (Bool-cases (user_mmap_range_free m b size)) [
            | inl g ↦
                let same : b ≡ base = ground arith in
                rw (← same) (found-FreeRange size heap_end b small alb e f g)
            | inr g ↦ elim (Bool-cases (ltb (user_limit - page_size) (probe_from size b))) [
              | inl l ↦ absurd (ground arith)
              | inr l ↦
                  gap_loop-FreeRange k size heap_end (probe_from size b + page_size) base small
                    (omega (arith, alp)) (ground arith)
            ]
          ]
        ]
      ]

  -- Each round goes up by a page, so the loop ends.
  gap_loop-ends :
      (k size heap_end from : ℕ)
      → heap_end < user_limit
      → from % page_size ≡ 0
      → user_limit - from + page_size ≤ k * page_size
      → (r : Option ℕ) × (gap_loop k m size heap_end from ≡ some r)
  unfolding gap_loop user_mmap_range_ok
  gap_loop-ends zero size heap_end from small al f = absurd (omega arith)
  gap_loop-ends (suc k) size heap_end from small al f =
      let b = first_base from in
      let alb : b % page_size ≡ 0 = ground arith in
      let up : from ≤ b = ground arith in
      let (pge, alp) =
        probe_loop-ge ((page_of (b + size - 1) - b) / page_size + 1) b (page_of (b + size - 1))
          alb in
      elim (Bool-cases (user_mmap_range_ok b size)) [
        | inr e ↦ (none, ground arith)
        | inl e ↦
            let below : b < user_limit = ground arith in
            elim (Bool-cases (hits_heap size heap_end b)) [
              | inl g ↦
                  let above : b < align_up heap_end = ground arith in
                  let (r, x) =
                    gap_loop-ends k size heap_end (align_up heap_end) small (omega arith)
                      (omega (arith, above, f, up, alb, below)) in
                  (r, ground (arith, x))
              | inr g ↦ elim (Bool-cases (user_mmap_range_free m b size)) [
                | inl l ↦ (some b, ground arith)
                | inr l ↦ elim (Bool-cases (ltb (user_limit - page_size) (probe_from size b))) [
                  | inl n ↦ (none, ground arith)
                  | inr n ↦
                      let (r, x) =
                        gap_loop-ends k size heap_end (probe_from size b + page_size) small
                          (omega (arith, alp)) (omega (arith, pge, f, up, below)) in
                      (r, ground (arith, x))
                ]
              ]
            ]
      ]

-- `user_mmap_find_gap` ends, with the heap below the end of the user space, and what it finds is an
-- aligned range of the user space that is clear of the heap and has no mapped page.
pub user_mmap_find_gap-FreeRange :
    (m : Machine) (start size heap_end : ℕ)
    → heap_end < user_limit
    → ((r : Option ℕ) × (user_mmap_find_gap m start size heap_end ≡ some r))
      × ((base : ℕ)
          → user_mmap_find_gap m start size heap_end ≡ some (some base)
          → FreeRange m size heap_end base)
unfolding user_mmap_find_gap
user_mmap_find_gap-FreeRange m start size heap_end small = elim (Bool-cases (size == 0)) [
  | inl e ↦ ((none, ground arith), λ base h. absurd (ground arith))
  | inr e ↦
      let al : align_up start % page_size ≡ 0 = omega arith in
      let (r, x) =
        gap_loop-ends m gap_rounds size heap_end (align_up start) small al (omega arith) in
      (
        (r, ground (arith, x)),
        λ base h.
            gap_loop-FreeRange m gap_rounds size heap_end (align_up start) base small al
              (ground arith),
      )
]
