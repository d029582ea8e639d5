-- ===== src/Kernel/Mmap/Tests.antt =====
-- A table of lazy ranges and a user space, and the theorems about src/kernel/main.c at them.
use yabro_os.Base.{
  ℕ, ◌<◌, ◌≤◌, ◌≡◌, refl, ◌↔◌, true, ◌&&◌, Option, some, List, [], ◌∷◌, ltb, leb, if◌then◌else◌,
  arith, ok,
}
use yabro_os.Vmm.Tests.{used_space}
use yabro_os.Kernel.Mmap.Lazy.{
  Lazy, lazy, set_prot, push_lazy, transform_one, transform_all, task_lazy_mmap_transform,
  task_lazy_mmap_protection, task_lazy_mmap_range_covered,
}
use yabro_os.Kernel.Mmap.Spans.{in_range, task_lazy_mmap_transform-protection}
use yabro_os.Kernel.Mmap.Covered.{is_lazy, range_covered_iff}
use yabro_os.Kernel.Mmap.Gap.{user_mmap_find_gap}
use yabro_os.Kernel.Mmap.GapFree.{FreeRange, user_mmap_find_gap-FreeRange}

abbrev two_ranges : List Lazy
two_ranges = lazy 0x1000_0000 0x1000_4000 3 ∷ lazy 0x1000_4000 0x1000_6000 1 ∷ []

changed_ok : (task_lazy_mmap_transform 0x1000_1000 0x1000_5000 set_prot 1 two_ranges).0 ≡ ok
unfolding task_lazy_mmap_transform transform_all transform_one push_lazy
changed_ok = refl

task_lazy_mmap_transform-protection_example :
    task_lazy_mmap_protection
      (task_lazy_mmap_transform 0x1000_1000 0x1000_5000 set_prot 1 two_ranges).1
      0x1000_2000
    ≡ (if leb 0x1000_1000 0x1000_2000 && ltb 0x1000_2000 0x1000_5000
        then in_range set_prot 1 (task_lazy_mmap_protection two_ranges 0x1000_2000)
        else task_lazy_mmap_protection two_ranges 0x1000_2000)
task_lazy_mmap_transform-protection_example =
    task_lazy_mmap_transform-protection 0x1000_1000 0x1000_5000 set_prot 1 two_ranges 0x1000_2000
      changed_ok

range_covered_iff_example :
    (task_lazy_mmap_range_covered two_ranges 0x1000_2000 0x1000_5000 ≡ true) ↔ (
      (0x1000_2000 < 0x1000_5000)
      × ((a : ℕ) → 0x1000_2000 ≤ a → a < 0x1000_5000 → is_lazy two_ranges a ≡ true))
range_covered_iff_example = range_covered_iff two_ranges 0x1000_2000 0x1000_5000

user_mmap_find_gap-FreeRange_example :
    ((r : Option ℕ) × (user_mmap_find_gap used_space 0x1000_0000 8192 0x0060_0000 ≡ some r))
    × ((base : ℕ)
        → user_mmap_find_gap used_space 0x1000_0000 8192 0x0060_0000 ≡ some (some base)
        → FreeRange used_space 8192 0x0060_0000 base)
user_mmap_find_gap-FreeRange_example =
    user_mmap_find_gap-FreeRange used_space 0x1000_0000 8192 0x0060_0000 (omega arith)
