-- ===== src/Pmm/Run.antt =====
-- src/kernel/pmm.c: any sequence of calls of the manager keeps its invariant.
use yabro_os.Base.{ℕ, zero, suc, ◌+◌, ◌-◌, ◌/◌, ◌%◌, inl, inr, List, [], ◌∷◌, ltb, ◌==◌, Bool-cases}
use yabro_os.Pmm.State.{Pmm, page_size, word_mod, align_up, page_of}
use yabro_os.Pmm.Alloc.{pmm_alloc_page, pmm_free_page, pmm_retain_page}
use yabro_os.Pmm.Reserve.{reserve_page, reserve_range_loop, pmm_reserve_range}
use yabro_os.Pmm.Valid.{IsValid}
use yabro_os.Pmm.Keep.{pmm_alloc_page-IsValid, pmm_free_page-IsValid, pmm_retain_page-IsValid}
use yabro_os.Pmm.Reservation.{reserve_page-IsValid}

reserve_range_loop-IsValid :
    (k p end : ℕ) {s : Pmm} → IsValid s → IsValid (reserve_range_loop k p end s)
unfolding reserve_range_loop
reserve_range_loop-IsValid zero p end w = w
reserve_range_loop-IsValid (suc k) p end {s} w =
    let w' : IsValid (reserve_page p s).1 = reserve_page-IsValid p w in
    elim (Bool-cases (ltb p end)) [
      | inl e ↦ rw e (elim (Bool-cases (ltb (word_mod - 1 - page_size) p)) [
        | inl top ↦ rw top w'
        | inr below ↦ rw below (reserve_range_loop-IsValid k (p + page_size) end w')
      ])
      | inr e ↦ rw e w
    ]

pub pmm_reserve_range-IsValid :
    {s : Pmm} (base len : ℕ) → IsValid s → IsValid (pmm_reserve_range base len s)
unfolding pmm_reserve_range
pmm_reserve_range-IsValid {s} base len w =
    let end = align_up ((base + len) % word_mod) in
    let looped =
      reserve_range_loop-IsValid ((end - page_of base) / page_size + 1) (page_of base) end w in
    elim (Bool-cases (len == 0)) [
      | inl e ↦ rw e w
      | inr e ↦ rw e (elim (Bool-cases (ltb end base)) [ inl f ↦ rw f w | inr f ↦ rw f looped ])
    ]

-- The calls that other parts of the kernel make of the manager.
pub data Call : Type 0 where
  alloc : Call
  free retain : ℕ → Call
  reserve : ℕ → ℕ → Call

unfoldable pub run : List Call → Pmm → Pmm
run [] s = s
run (alloc ∷ cs) s = run cs (pmm_alloc_page s).1
run (free addr ∷ cs) s = run cs (pmm_free_page addr s)
run (retain addr ∷ cs) s = run cs (pmm_retain_page addr s).1
run (reserve base len ∷ cs) s = run cs (pmm_reserve_range base len s)

-- From a valid manager, every sequence of allocations, frees, retains and range reservations,
-- with any arguments, leaves a valid manager.
pub run-IsValid : (cs : List Call) {s : Pmm} → IsValid s → IsValid (run cs s)
unfolding run
run-IsValid [] w = w
run-IsValid (alloc ∷ cs) w = run-IsValid cs (pmm_alloc_page-IsValid w)
run-IsValid (free addr ∷ cs) w = run-IsValid cs (pmm_free_page-IsValid addr w)
run-IsValid (retain addr ∷ cs) w = run-IsValid cs (pmm_retain_page-IsValid addr w)
run-IsValid (reserve base len ∷ cs) w = run-IsValid cs (pmm_reserve_range-IsValid base len w)
