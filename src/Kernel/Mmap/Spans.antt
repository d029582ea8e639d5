-- ===== src/Kernel/Mmap/Spans.antt =====
-- src/kernel/main.c: what a change of the lazy ranges does to the protection of each address.
use yabro_os.Base.{
  ℕ, zero, suc, ◌-◌, ◌<◌, ◌≡◌, refl, ap, ◌∙◌, inl, inr, Bool, true, false, ◌&&◌, ◌||◌, not, Option,
  none, some, List, [], ◌∷◌, ◌++◌, ltb, leb, if◌then◌else◌, length, ◌>>=◌, ok, arith, Bool-cases,
  Option-cases, >>=-eq-some,
}
use yabro_os.Kernel.Mmap.Lazy.{
  Lazy, lazy, Operation, remove, set_prot, replace, is_set_prot, is_replace, push_lazy, push_if,
  transform_one, transform_all, unused_slots, fill_slots, task_lazy_mmap_transform, covers,
  task_lazy_mmap_protection, max_lazy_user_mmaps,
}

-- The first of two results.
abbrev or_else : Option ℕ → Option ℕ → Option ℕ
or_else none o = o
or_else (some x) o = some x

or_else-none : (o : Option ℕ) → or_else o none ≡ o
or_else-none none = refl
or_else-none (some x) = refl

protection_nil : (a : ℕ) (o : Option ℕ) → or_else (task_lazy_mmap_protection [] a) o ≡ o
unfolding task_lazy_mmap_protection
protection_nil a o = refl

protection-append :
    (xs ys : List Lazy) (a : ℕ)
    → task_lazy_mmap_protection (xs ++ ys) a
      ≡ or_else (task_lazy_mmap_protection xs a) (task_lazy_mmap_protection ys a)
unfolding task_lazy_mmap_protection
protection-append [] ys a = refl
protection-append (x ∷ xs) ys a = ground (arith, protection-append xs ys a)

protection-unused : (k a : ℕ) → task_lazy_mmap_protection (unused_slots k) a ≡ none
unfolding task_lazy_mmap_protection unused_slots
protection-unused zero a = refl
protection-unused (suc k) a = protection-unused k a

push_lazy-some :
    (m : Lazy) (out out1 : List Lazy)
    → push_lazy m out ≡ some out1
    → (out1 ≡ out ++ m ∷ []) × (length out < max_lazy_user_mmaps)
unfolding push_lazy
push_lazy-some m out out1 h = (ground arith, ground arith)

-- Pushing a range under a test adds its protection to the addresses that have none.
push_if-protection :
    (test : Bool) (m : Lazy) (out out1 : List Lazy) (a : ℕ)
    → push_if test m out ≡ some out1
    → task_lazy_mmap_protection out1 a
      ≡ or_else (task_lazy_mmap_protection out a) (if test && covers a m then some m.prot else none)
unfolding task_lazy_mmap_protection
push_if-protection true m out out1 a h =
    let (e, _) = push_lazy-some m out out1 h in rw (e, protection-append) refl
push_if-protection false m out out1 a h = ground arith

-- What the operation makes of the protection of the address `a`, before a replacement is added.
abbrev pub changed : ℕ → ℕ → Operation → ℕ → ℕ → Option ℕ → Option ℕ
changed start end op prot a none = none
changed start end op prot a (some x) =
    if leb start a && ltb a end then (if is_set_prot op then some prot else none) else some x

abbrev own : ℕ → Lazy → Option ℕ
own a m = if covers a m then some m.prot else none

module _ (start end : ℕ) (op : Operation) (prot : ℕ) (lt : start < end) where
  three_parts :
      (m : Lazy) (out out3 : List Lazy) (a : ℕ)
      → m.used ≡ true
      → m.start < m.end
      → (leb m.end start || leb end m.start) ≡ false
      → let os = if ltb start m.start then m.start else start in
        let oe = if ltb m.end end then m.end else end in
        (push_if (ltb m.start start) (lazy m.start start m.prot) out >>= λ out1.
        push_if (is_set_prot op && ltb os oe) (lazy os oe prot) out1 >>= λ out2.
        push_if (ltb end m.end) (lazy end m.end m.prot) out2)
          ≡ some out3
        → task_lazy_mmap_protection out3 a
          ≡ or_else (task_lazy_mmap_protection out a) (changed start end op prot a (own a m))
  three_parts m out out3 a used full over h =
      let os = if ltb start m.start then m.start else start in
      let oe = if ltb m.end end then m.end else end in
      let (out1, e1, h1) =
        >>=-eq-some (push_if (ltb m.start start) (lazy m.start start m.prot) out) _ h in
      let (out2, e2, e3) =
        >>=-eq-some (push_if (is_set_prot op && ltb os oe) (lazy os oe prot) out1) _ h1 in
      let p1 = push_if-protection (ltb m.start start) (lazy m.start start m.prot) out out1 a e1 in
      let p2 = push_if-protection (is_set_prot op && ltb os oe) (lazy os oe prot) out1 out2 a e2 in
      let p3 = push_if-protection (ltb end m.end) (lazy end m.end m.prot) out2 out3 a e3 in
      rw (p3, p2, p1)
        (elim (Option-cases (task_lazy_mmap_protection out a)) [
          | inl e ↦ rw e (ground (arith, used, full, over))
          | inr (x, e) ↦ rw e refl
        ])

  one-protection :
      (m : Lazy) (out out1 : List Lazy) (a : ℕ)
      → transform_one start end op prot m out ≡ some out1
      → task_lazy_mmap_protection out1 a
        ≡ or_else (task_lazy_mmap_protection out a) (changed start end op prot a (own a m))
  unfolding transform_one
  one-protection m out out1 a h = elim (Bool-cases (not m.used || leb m.end m.start)) [
    | inl e ↦
        let same : out ≡ out1 = ground arith in
        let nothing : own a m ≡ none = ground arith in rw (← same, nothing) (ground arith)
    | inr e ↦ elim (Bool-cases (leb m.end start || leb end m.start)) [
      | inl f ↦
          let pushed : push_if true m out ≡ some out1 = ground arith in
          let p = push_if-protection true m out out1 a pushed in
          rw p (elim (Option-cases (task_lazy_mmap_protection out a)) [
            | inl g ↦ rw g (ground (arith, lt))
            | inr (x, g) ↦ rw g refl
          ])
      | inr f ↦ three_parts m out out1 a (ground arith) (ground arith) f (ground arith)
    ]
  ]

  all-protection :
      (ms out out1 : List Lazy) (a : ℕ)
      → transform_all start end op prot ms out ≡ some out1
      → task_lazy_mmap_protection out1 a
        ≡ or_else
            (task_lazy_mmap_protection out a)
            (changed start end op prot a (task_lazy_mmap_protection ms a))
  unfolding transform_all task_lazy_mmap_protection
  all-protection [] out out1 a h = let same : out ≡ out1 = ground arith in rw same (ground arith)
  all-protection (m ∷ ms) out out1 a h =
      let (mid, e, rest) = >>=-eq-some (transform_one start end op prot m out) _ h in
      let one = one-protection m out mid a e in
      let all = all-protection ms mid out1 a rest in rw (all, one) (ground arith)

-- The operation at one address of the range: the protection is gone, or replaced where there was
-- one, or the new one.
unfoldable pub in_range : Operation → ℕ → Option ℕ → Option ℕ
in_range remove prot o = none
in_range set_prot prot none = none
in_range set_prot prot (some x) = some prot
in_range replace prot o = some prot

transform_value :
    (start end : ℕ) (op : Operation) (prot : ℕ) (ms : List Lazy)
    → (task_lazy_mmap_transform start end op prot ms).0 ≡ ok
    → (start < end)
      × (out : List Lazy) × ((transform_all start end op prot ms [] >>= λ out1.
            push_if (is_replace op) (lazy start end prot) out1)
          ≡ some out)
      × ((task_lazy_mmap_transform start end op prot ms).1 ≡ fill_slots out)
unfolding task_lazy_mmap_transform
transform_value start end op prot ms h =
    elim (Option-cases (
      transform_all start end op prot ms [] >>= λ out1.
      push_if (is_replace op) (lazy start end prot) out1)) [
        | inl e ↦ absurd (ground arith)
        | inr (out, e) ↦ (ground arith, out, e, ground arith)
      ]

in_range-changed :
    (start end : ℕ) (op : Operation) (prot a : ℕ) (o : Option ℕ)
    → start < end
    → or_else
        (changed start end op prot a o)
        (if is_replace op && covers a (lazy start end prot) then some prot else none)
      ≡ (if leb start a && ltb a end then in_range op prot o else o)
unfolding in_range
in_range-changed start end remove prot a none lt = ground arith
in_range-changed start end remove prot a (some x) lt = ground arith
in_range-changed start end set_prot prot a none lt = ground arith
in_range-changed start end set_prot prot a (some x) lt = ground arith
in_range-changed start end replace prot a none lt = ground arith
in_range-changed start end replace prot a (some x) lt = ground arith

-- When `task_lazy_mmap_transform` succeeds, the addresses from `start` to `end` have lost their
-- protection, changed it where they had one, or all got the new one, by the operation; the
-- protection of every other address is as before. This holds however the ranges of the table
-- overlap.
pub task_lazy_mmap_transform-protection :
    (start end : ℕ) (op : Operation) (prot : ℕ) (ms : List Lazy) (a : ℕ)
    → (task_lazy_mmap_transform start end op prot ms).0 ≡ ok
    → task_lazy_mmap_protection (task_lazy_mmap_transform start end op prot ms).1 a ≡ (
        if leb start a && ltb a end
        then in_range op prot (task_lazy_mmap_protection ms a)
        else task_lazy_mmap_protection ms a)
task_lazy_mmap_transform-protection start end op prot ms a h =
    let (lt, out, e, value) = transform_value start end op prot ms h in
    let (mid, e1, e2) = >>=-eq-some (transform_all start end op prot ms []) _ e in
    let all = all-protection start end op prot lt ms [] mid a e1 in
    let last = push_if-protection (is_replace op) (lazy start end prot) mid out a e2 in
    let slots = protection-append out (unused_slots (max_lazy_user_mmaps - length out)) a in
    let none' = protection-unused (max_lazy_user_mmaps - length out) a in
    let ends = in_range-changed start end op prot a (task_lazy_mmap_protection ms a) lt in
    let added = if is_replace op && covers a (lazy start end prot) then some prot else none in
    ap (λ (t : List Lazy). task_lazy_mmap_protection t a) value
    ∙ slots
    ∙ ap (or_else (task_lazy_mmap_protection out a)) none'
    ∙ or_else-none (task_lazy_mmap_protection out a)
    ∙ last
    ∙ ap (λ (o : Option ℕ). or_else o added) (all ∙ protection_nil a _)
    ∙ ends
