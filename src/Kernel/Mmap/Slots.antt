-- ===== src/Kernel/Mmap/Slots.antt =====
-- src/kernel/main.c: the table of lazy ranges never has more ranges than slots.
use yabro_os.Base.{
  ℕ, zero, suc, ◌-◌, ◌<◌, ◌≤◌, ◌≡◌, refl, ◌⊎◌, inl, inr, Bool, true, false, ◌&&◌, ◌||◌, not, some,
  List, [], ◌∷◌, ◌++◌, ltb, leb, if◌then◌else◌, length, length-append, ◌>>=◌, ok, err, arith,
  Bool-cases, Option-cases, >>=-eq-some,
}
use yabro_os.Kernel.Mmap.Lazy.{
  Lazy, lazy, Operation, is_set_prot, is_replace, push_lazy, push_if, transform_one, transform_all,
  unused_slots, fill_slots, task_lazy_mmap_transform, max_lazy_user_mmaps,
}

-- The ranges fit the table.
abbrev Fits : List Lazy → Type 0
Fits out = length out ≤ max_lazy_user_mmaps

push_if-Fits :
    (test : Bool) (m : Lazy) (out out1 : List Lazy)
    → push_if test m out ≡ some out1
    → Fits out
    → Fits out1
unfolding push_lazy
push_if-Fits true m out out1 h f =
    let e : out1 ≡ out ++ m ∷ [] = ground arith in rw e (ground (arith, length-append out (m ∷ [])))
push_if-Fits false m out out1 h f = ground arith

transform_one-Fits :
    (start end : ℕ) (op : Operation) (prot : ℕ) (m : Lazy) (out out1 : List Lazy)
    → transform_one start end op prot m out ≡ some out1
    → Fits out
    → Fits out1
unfolding transform_one
transform_one-Fits start end op prot m out out1 h f =
    let os = if ltb start m.start then m.start else start in
    let oe = if ltb m.end end then m.end else end in
    elim (Bool-cases (not m.used || leb m.end m.start)) [
      | inl e ↦ let same : out ≡ out1 = ground arith in rw (← same) f
      | inr e ↦ elim (Bool-cases (leb m.end start || leb end m.start)) [
        | inl g ↦ push_if-Fits true m out out1 (ground arith) f
        | inr g ↦
            let parts : (push_if (ltb m.start start) (lazy m.start start m.prot) out >>= λ o1.
            push_if (is_set_prot op && ltb os oe) (lazy os oe prot) o1 >>= λ o2.
            push_if (ltb end m.end) (lazy end m.end m.prot) o2)
                ≡ some out1 =
              ground arith in
            let left = ltb m.start start in
            let mid = is_set_prot op && ltb os oe in
            let (o1, e1, h1) = >>=-eq-some (push_if left (lazy m.start start m.prot) out) _ parts in
            let (o2, e2, e3) = >>=-eq-some (push_if mid (lazy os oe prot) o1) _ h1 in
            push_if-Fits (ltb end m.end) (lazy end m.end m.prot) o2 out1 e3 (
              push_if-Fits mid (lazy os oe prot) o1 o2 e2
                (push_if-Fits left (lazy m.start start m.prot) out o1 e1 f))
      ]
    ]

transform_all-Fits :
    (start end : ℕ) (op : Operation) (prot : ℕ) (ms out out1 : List Lazy)
    → transform_all start end op prot ms out ≡ some out1
    → Fits out
    → Fits out1
unfolding transform_all
transform_all-Fits start end op prot [] out out1 h f =
    let same : out ≡ out1 = ground arith in rw (← same) f
transform_all-Fits start end op prot (m ∷ ms) out out1 h f =
    let (mid, e, rest) = >>=-eq-some (transform_one start end op prot m out) _ h in
    transform_all-Fits start end op prot ms mid out1 rest
      (transform_one-Fits start end op prot m out mid e f)

pub length-unused_slots : (k : ℕ) → length (unused_slots k) ≡ k
unfolding unused_slots
length-unused_slots zero = refl
length-unused_slots (suc k) = omega (arith, length-unused_slots k)

length-fill_slots : (out : List Lazy) → Fits out → length (fill_slots out) ≡ max_lazy_user_mmaps
length-fill_slots out f =
    let slots = length-unused_slots (max_lazy_user_mmaps - length out) in
    omega (arith, length-append out (unused_slots (max_lazy_user_mmaps - length out)), slots)

-- `task_lazy_mmap_transform` either returns 0 and leaves a table of as many slots, or returns -22
-- for a range without an address or -12 otherwise, and leaves the table as it was.
pub task_lazy_mmap_transform-slots :
    (start end : ℕ) (op : Operation) (prot : ℕ) (ms : List Lazy)
    → length ms ≡ max_lazy_user_mmaps
    → let (c, ms') = task_lazy_mmap_transform start end op prot ms in
      ((c ≡ ok) × (start < end) × (length ms' ≡ max_lazy_user_mmaps))
      ⊎ ((c ≡ err 22) × (end ≤ start) × (ms' ≡ ms))
      ⊎ ((c ≡ err 12) × (start < end) × (ms' ≡ ms))
unfolding task_lazy_mmap_transform
task_lazy_mmap_transform-slots start end op prot ms len = elim (Bool-cases (leb end start)) [
  | inl e ↦ inr (inl (ground arith, ground arith, ground arith))
  | inr e ↦
      elim (Option-cases (
        transform_all start end op prot ms [] >>= λ o.
        push_if (is_replace op) (lazy start end prot) o)) [
          | inl g ↦ inr (inr (ground arith, ground arith, ground arith))
          | inr (out, g) ↦
              let (mid, e1, e2) = >>=-eq-some (transform_all start end op prot ms []) _ g in
              let fits =
                push_if-Fits (is_replace op) (lazy start end prot) mid out e2
                  (transform_all-Fits start end op prot ms [] mid e1 (omega arith)) in
              let size = length-fill_slots out fits in
              inl (ground arith, ground arith, ground (arith, size))
        ]
]
