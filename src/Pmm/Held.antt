-- ===== src/Pmm/Held.antt =====
-- src/kernel/pmm.c: a reserved page is never handed out again.
use yabro_os.Base.{
  ℕ, zero, suc, ◌+◌, ◌-◌, ◌*◌, ◌/◌, ◌%◌, ◌<◌, ◌≡◌, ◌≢◌, refl, inl, inr, true, false, List, [], ◌∷◌,
  ltb, ◌==◌, arith, Bool-cases,
}
use yabro_os.Pmm.State.{
  Pmm, page_size, page_of, word_mod, align_up, pmm_track_limit, page_set_allocated,
  page_is_reserved_fast, is_reserved,
}
use yabro_os.Pmm.Alloc.{take_page, pmm_alloc_page, pmm_free_page, pmm_retain_page}
use yabro_os.Pmm.Reserve.{reserve_page, reserve_range_loop, pmm_reserve_range}
use yabro_os.Pmm.Valid.{IsValid, is_free_page}
use yabro_os.Pmm.Take.{pmm_alloc_page-Allocated}
use yabro_os.Pmm.Reservation.{
  Reserved, reserve_page-Reserved, reserve_page-false, reserve_page-untracked, reserve_page-IsValid,
}
use yabro_os.Pmm.Run.{Call, alloc, free, retain, reserve, run, run-IsValid}

-- The page `n` is reserved.
abbrev Held : Pmm → ℕ → Type 0
Held s n = is_reserved s (n * page_size) ≡ true

Held-same : (s s' : Pmm) (n : ℕ) → s'.reserved_state ≡ s.reserved_state → Held s n → Held s' n
unfolding is_reserved page_is_reserved_fast
Held-same s s' n e h = rw e h

alloc-Held : (s : Pmm) → (pmm_alloc_page s).1.reserved_state ≡ s.reserved_state
unfolding pmm_alloc_page take_page page_set_allocated
alloc-Held s = ground arith

free-Held : (s : Pmm) (addr : ℕ) → (pmm_free_page addr s).reserved_state ≡ s.reserved_state
unfolding pmm_free_page page_set_allocated
free-Held s addr = ground arith

retain-Held : (s : Pmm) (addr : ℕ) → (pmm_retain_page addr s).1.reserved_state ≡ s.reserved_state
unfolding pmm_retain_page
retain-Held s addr = ground arith

reserve-Held : (s : Pmm) (addr n : ℕ) → IsValid s → Held s n → Held (reserve_page addr s).1 n
reserve-Held s addr n w h = elim (Bool-cases (reserve_page addr s).0) [
  | inr bad ↦ rw (reserve_page-false s addr bad) h
  | inl ok ↦ elim (Bool-cases (ltb addr pmm_track_limit)) [
    | inl small ↦
        let r = reserve_page-Reserved s addr w.ready (ground arith) ok in
        ground (arith, r.reserved n, h)
    | inr big ↦
        rw (reserve_page-untracked s addr ok (ground arith) w.regions) (Held-same s _ n refl h)
  ]
]

range_loop-Held :
    (k p end n : ℕ) (s : Pmm) → IsValid s → Held s n → Held (reserve_range_loop k p end s) n
unfolding reserve_range_loop
range_loop-Held zero p end n s w h = h
range_loop-Held (suc k) p end n s w h =
    let h' = reserve-Held s p n w h in
    let rest =
      range_loop-Held k (p + page_size) end n (reserve_page p s).1 (reserve_page-IsValid p w) h' in
    elim (Bool-cases (ltb p end)) [
      | inl e ↦ rw e (elim (Bool-cases (ltb (word_mod - 1 - page_size) p)) [
        | inl top ↦ rw top h'
        | inr below ↦ rw below rest
      ])
      | inr e ↦ rw e h
    ]

range-Held :
    (base len n : ℕ) (s : Pmm) → IsValid s → Held s n → Held (pmm_reserve_range base len s) n
unfolding pmm_reserve_range
range-Held base len n s w h =
    let end = align_up ((base + len) % word_mod) in
    let looped =
      range_loop-Held ((end - page_of base) / page_size + 1) (page_of base) end n s w h in
    elim (Bool-cases (len == 0)) [
      | inl e ↦ rw e h
      | inr e ↦ rw e (elim (Bool-cases (ltb end base)) [ inl f ↦ rw f h | inr f ↦ rw f looped ])
    ]

run-Held : (cs : List Call) (n : ℕ) (s : Pmm) → IsValid s → Held s n → Held (run cs s) n
unfolding run
run-Held [] n s w h = h
run-Held (alloc ∷ cs) n s w h =
    run-Held cs n _ (run-IsValid (alloc ∷ []) w) (Held-same s _ n (alloc-Held s) h)
run-Held (free addr ∷ cs) n s w h =
    run-Held cs n _ (run-IsValid (free addr ∷ []) w) (Held-same s _ n (free-Held s addr) h)
run-Held (retain addr ∷ cs) n s w h =
    run-Held cs n _ (run-IsValid (retain addr ∷ []) w) (Held-same s _ n (retain-Held s addr) h)
run-Held (reserve base len ∷ cs) n s w h =
    run-Held cs n _ (run-IsValid (reserve base len ∷ []) w) (range-Held base len n s w h)

Held-not_free : {s : Pmm} (n : ℕ) → IsValid s → Held s n → is_free_page s n ≡ false
unfolding is_free_page
Held-not_free n w h = ground (arith, w.reserved_in_use n, h)

Held-not_allocated :
    {s : Pmm} (n : ℕ) → IsValid s → Held s n → n ≢ 0 → (pmm_alloc_page s).0 ≢ n * page_size
Held-not_allocated {s} n w h ne e =
    let a = pmm_alloc_page-Allocated w (omega arith) in
    let free : is_reserved s (n * page_size) ≡ false = rw (← e) a.not_reserved in
    absurd (ground (arith, free, h))

accepted-ne_zero : (s : Pmm) (addr : ℕ) → (reserve_page addr s).0 ≡ true → addr / page_size ≢ 0
unfolding reserve_page
accepted-ne_zero s addr ok = ground arith

-- In a valid manager, when `reserve_page` accepts an address below 4 GiB, its page is reserved,
-- taken if it was free, with the count of free pages lowered by one then, and no other page changes;
-- and after any sequence of allocations, frees, retains and range reservations, with any arguments,
-- the page is still reserved and not free, and the next allocation does not return it.
pub reserve_page-run :
    {s : Pmm} (addr : ℕ) (cs : List Call)
    → IsValid s
    → addr < pmm_track_limit
    → (reserve_page addr s).0 ≡ true
    → let s1 = (reserve_page addr s).1 in
      let s' = run cs s1 in
      Reserved s s1 (addr / page_size)
      × (is_reserved s' (page_of addr) ≡ true)
      × (is_free_page s' (addr / page_size) ≡ false)
      × ((pmm_alloc_page s').0 ≢ page_of addr)
reserve_page-run {s} addr cs w small ok =
    let n = addr / page_size in
    let r = reserve_page-Reserved s addr w.ready small ok in
    let w1 = reserve_page-IsValid addr w in
    let h1 : Held (reserve_page addr s).1 n = ground (arith, r.reserved n) in
    let h = run-Held cs n (reserve_page addr s).1 w1 h1 in
    let w' = run-IsValid cs w1 in
    (r, h, Held-not_free n w' h, Held-not_allocated n w' h (accepted-ne_zero s addr ok))
