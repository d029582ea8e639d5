-- ===== src/Kernel/Mmap/Covered.antt =====
-- src/kernel/main.c: `task_lazy_mmap_range_covered` looks at every address of the range.
use yabro_os.Base.{
  ℕ, zero, suc, ◌-◌, ◌<◌, ◌≤◌, ◌≡◌, inl, inr, ◌↔◌, Bool, true, false, ◌&&◌, ◌||◌, List, [], ◌∷◌,
  ltb, leb, if◌then◌else◌, arith, Bool-cases,
}
use yabro_os.Kernel.Mmap.Lazy.{
  Lazy, covers, next_cursor, covered_loop, task_lazy_mmap_range_covered,
}

-- Whether a range of the table has the address.
unfoldable pub is_lazy : List Lazy → ℕ → Bool
is_lazy [] a = false
is_lazy (m ∷ ms) a = covers a m || is_lazy ms a

next_cursor-ge :
    (ms : List Lazy) (cursor end next : ℕ)
    → next ≤ end
    → (next ≤ next_cursor ms cursor end next) × (next_cursor ms cursor end next ≤ end)
unfolding next_cursor
next_cursor-ge [] cursor end next h = omega arith
next_cursor-ge (m ∷ ms) cursor end next h =
    let next1 =
      if m.used && leb m.start cursor && ltb next m.end
      then if ltb m.end end then m.end else end
      else next in
    let up : (next ≤ next1) × (next1 ≤ end) = ground arith in
    let rest = next_cursor-ge ms cursor end next1 up.1 in omega (arith, up, rest)

next_cursor-is_lazy :
    (ms : List Lazy) (cursor end next a : ℕ)
    → cursor ≤ a
    → next ≤ a
    → a < next_cursor ms cursor end next
    → is_lazy ms a ≡ true
unfolding next_cursor is_lazy
next_cursor-is_lazy [] cursor end next a lo hi h = absurd (omega arith)
next_cursor-is_lazy (m ∷ ms) cursor end next a lo hi h =
    let next1 =
      if m.used && leb m.start cursor && ltb next m.end
      then if ltb m.end end then m.end else end
      else next in
    elim (Bool-cases (ltb a next1)) [
      | inl e ↦ ground arith
      | inr e ↦
          let rest = next_cursor-is_lazy ms cursor end next1 a lo (ground arith) h in
          ground (arith, rest)
    ]

next_cursor-progress :
    (ms : List Lazy) (cursor end next : ℕ)
    → cursor < end
    → next ≤ end
    → is_lazy ms cursor ≡ true
    → cursor < next_cursor ms cursor end next
unfolding next_cursor is_lazy
next_cursor-progress [] cursor end next lt le h = absurd (ground arith)
next_cursor-progress (m ∷ ms) cursor end next lt le h =
    let next1 =
      if m.used && leb m.start cursor && ltb next m.end
      then if ltb m.end end then m.end else end
      else next in
    let up : (next ≤ next1) × (next1 ≤ end) = ground arith in
    elim (Bool-cases (covers cursor m)) [
      | inl e ↦
          let rest = next_cursor-ge ms cursor end next1 up.1 in
          let above : cursor < next1 = ground arith in omega (arith, rest, above)
      | inr e ↦ next_cursor-progress ms cursor end next1 lt up.1 (ground arith)
    ]

covered_loop_sound :
    (k : ℕ) (ms : List Lazy) (cursor end a : ℕ)
    → covered_loop k ms cursor end ≡ true
    → cursor ≤ a
    → a < end
    → is_lazy ms a ≡ true
unfolding covered_loop
covered_loop_sound zero ms cursor end a h lo hi = absurd (ground arith)
covered_loop_sound (suc k) ms cursor end a h lo hi =
    let next = next_cursor ms cursor end cursor in
    elim (Bool-cases (ltb a next)) [
      | inl e ↦ next_cursor-is_lazy ms cursor end cursor a lo lo (ground arith)
      | inr e ↦ covered_loop_sound k ms next end a (ground arith) (ground arith) hi
    ]

covered_loop_complete :
    (k : ℕ) (ms : List Lazy) (cursor end : ℕ)
    → cursor ≤ end
    → end - cursor ≤ k
    → ((a : ℕ) → cursor ≤ a → a < end → is_lazy ms a ≡ true)
    → covered_loop k ms cursor end ≡ true
unfolding covered_loop
covered_loop_complete zero ms cursor end le f h = ground arith
covered_loop_complete (suc k) ms cursor end le f h = elim (Bool-cases (leb end cursor)) [
  | inl e ↦ ground arith
  | inr e ↦
      let lt : cursor < end = ground arith in
      let next = next_cursor ms cursor end cursor in
      let up = next_cursor-progress ms cursor end cursor lt le (h cursor (omega arith) lt) in
      let top = (next_cursor-ge ms cursor end cursor le).1 in
      let rest =
        covered_loop_complete k ms next end top (omega (arith, up, f))
          (λ a lo hi. h a (omega (arith, up, lo)) hi) in
      ground (arith, rest, up)
]

-- `task_lazy_mmap_range_covered` accepts exactly the ranges that are not empty and whose every
-- address is in a range of the table.
pub range_covered_iff :
    (ms : List Lazy) (start end : ℕ)
    → (task_lazy_mmap_range_covered ms start end ≡ true)
      ↔ ((start < end) × ((a : ℕ) → start ≤ a → a < end → is_lazy ms a ≡ true))
unfolding task_lazy_mmap_range_covered
range_covered_iff ms start end = (
  λ h.
      let loop : covered_loop (end - start) ms start end ≡ true = ground arith in
      (ground arith, λ a lo hi. covered_loop_sound (end - start) ms start end a loop lo hi),
  λ (lt, h).
      let loop = covered_loop_complete (end - start) ms start end (omega arith) (omega arith) h in
      ground (arith, loop, lt),
)
