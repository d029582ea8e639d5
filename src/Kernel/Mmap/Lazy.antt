-- ===== src/Kernel/Mmap/Lazy.antt =====
-- src/kernel/main.c: the table of ranges that are mapped on the first access.
use yabro_os.Base.{
  ℕ, zero, suc, ◌-◌, Bool, true, false, ◌&&◌, ◌||◌, not, Option, none, some, List, [], ◌∷◌, ◌++◌,
  ltb, leb, ◌==◌, if◌then◌else◌, length, ◌>>=◌, Code, ok, err,
}

abbrev pub max_lazy_user_mmaps : ℕ
max_lazy_user_mmaps = 128

-- `lazy_user_mmap_t`
pub record Lazy : Type 0 where
  pub start : ℕ
  pub end : ℕ
  pub prot : ℕ
  pub used : Bool

abbrev pub unused_lazy : Lazy
unused_lazy = record { start = 0; end = 0; prot = 0; used = false }

abbrev pub lazy : ℕ → ℕ → ℕ → Lazy
lazy start end prot = record { start = start; end = end; prot = prot; used = true }

-- `LAZY_MMAP_REMOVE`, `LAZY_MMAP_SET_PROT`, `LAZY_MMAP_REPLACE`
pub data Operation : Type 0 where
  remove set_prot replace : Operation

abbrev pub is_set_prot : Operation → Bool
is_set_prot set_prot = true
is_set_prot remove = false
is_set_prot replace = false

abbrev pub is_replace : Operation → Bool
is_replace replace = true
is_replace remove = false
is_replace set_prot = false

-- `if (count >= MAX_LAZY_USER_MMAPS) return -12; out[count++] = m;`
unfoldable pub push_lazy : Lazy → List Lazy → Option (List Lazy)
push_lazy m out = if leb max_lazy_user_mmaps (length out) then none else some (out ++ m ∷ [])

-- The same, under a test.
abbrev pub push_if : Bool → Lazy → List Lazy → Option (List Lazy)
push_if test m out = if test then push_lazy m out else some out

-- One round of the loop: the range `m` without what lies from `start` to `end`.
unfoldable pub transform_one : ℕ → ℕ → Operation → ℕ → Lazy → List Lazy → Option (List Lazy)
transform_one start end op prot m out =
    let os = if ltb start m.start then m.start else start in
    let oe = if ltb m.end end then m.end else end in
    if not m.used || leb m.end m.start
    then some out
    else (if leb m.end start || leb end m.start
        then push_lazy m out
        else (push_if (ltb m.start start) (lazy m.start start m.prot) out >>= λ out1.
            push_if (is_set_prot op && ltb os oe) (lazy os oe prot) out1 >>= λ out2.
            push_if (ltb end m.end) (lazy end m.end m.prot) out2))

unfoldable pub transform_all : ℕ → ℕ → Operation → ℕ → List Lazy → List Lazy → Option (List Lazy)
transform_all start end op prot [] out = some out
transform_all start end op prot (m ∷ ms) out =
    transform_one start end op prot m out >>= λ out1. transform_all start end op prot ms out1

-- The slots after the ranges: `(i < count) ? out[i] : {0, 0, 0, 0}`.
unfoldable pub unused_slots : ℕ → List Lazy
unused_slots zero = []
unused_slots (suc k) = unused_lazy ∷ unused_slots k

abbrev pub fill_slots : List Lazy → List Lazy
fill_slots out = out ++ unused_slots (max_lazy_user_mmaps - length out)

-- The table of one task. The codes are those of the source: -22 and -12.
unfoldable pub task_lazy_mmap_transform : ℕ → ℕ → Operation → ℕ → List Lazy → Code × List Lazy
task_lazy_mmap_transform start end op prot ms =
    if leb end start
    then (err 22, ms)
    else elim (transform_all start end op prot ms [] >>= λ out.
        push_if (is_replace op) (lazy start end prot) out) [
          | none ↦ (err 12, ms)
          | some out ↦ (ok, fill_slots out)
        ]

abbrev pub covers : ℕ → Lazy → Bool
covers addr m = m.used && leb m.start addr && ltb addr m.end

-- `*prot_out` where the result is 1.
unfoldable pub task_lazy_mmap_protection : List Lazy → ℕ → Option ℕ
task_lazy_mmap_protection [] addr = none
task_lazy_mmap_protection (m ∷ ms) addr =
    if covers addr m then some m.prot else task_lazy_mmap_protection ms addr

-- The `for` of `task_lazy_mmap_range_covered`, with `next` so far.
unfoldable pub next_cursor : List Lazy → ℕ → ℕ → ℕ → ℕ
next_cursor [] cursor end next = next
next_cursor (m ∷ ms) cursor end next = next_cursor ms cursor end (
    if m.used && leb m.start cursor && ltb next m.end
    then (if ltb m.end end then m.end else end)
    else next)

-- The `while`, with the rounds left.
unfoldable pub covered_loop : ℕ → List Lazy → ℕ → ℕ → Bool
covered_loop zero ms cursor end = leb end cursor
covered_loop (suc k) ms cursor end =
    let next = next_cursor ms cursor end cursor in
    let rest = covered_loop k ms next end in
    if leb end cursor then true else if next == cursor then false else rest

-- The cursor moves up by one at least.
unfoldable pub task_lazy_mmap_range_covered : List Lazy → ℕ → ℕ → Bool
task_lazy_mmap_range_covered ms start end =
    if leb end start then false else covered_loop (end - start) ms start end
