-- ===== src/Kernel/Tty/Translate.antt =====
-- src/kernel/main.c: what reaches the master of a pseudo-terminal.
use yabro_os.Base.{
  ℕ, suc, ◌+◌, ◌-◌, ◌≤◌, ◌≡◌, refl, sym, ap, ◌∙◌, ◌⊎◌, inl, inr, true, Option, none, some, List, [],
  ◌∷◌, ◌++◌, ltb, leb, ◌==◌, if◌then◌else◌, arith, min, length, take, append_assoc, append_nil, has,
  ◌&&◌, Bool-cases,
}
use yabro_os.Kernel.Ring.{Ring, pty_cap, pty_ring_write}
use yabro_os.Kernel.Ring.Contents.{IsRing, contents}
use yabro_os.Kernel.Ring.Refine.{pty_ring_write-Queue}
use yabro_os.Kernel.Tty.{Pty, tty_oflag}
use yabro_os.Kernel.Tty.Output.{adds_cr, output_byte, output_loop, pty_output_write}

-- The text with a carriage return before each line feed, where the flags `OPOST`, 1, and `ONLCR`, 4,
-- are both set, and as it is else.
unfoldable pub with_cr : ℕ → List ℕ → List ℕ
with_cr oflag [] = []
with_cr oflag (c ∷ cs) =
    (if has 0 oflag && has 2 oflag && c == 10 then 13 ∷ 10 ∷ [] else c ∷ []) ++ with_cr oflag cs

-- A write that fits.
write_all :
    (s : Ring) (src : List ℕ)
    → IsRing s
    → length src + s.count ≤ pty_cap
    → let (done, s') = pty_ring_write s src in
      IsRing s' × (done ≡ length src) × (contents s' ≡ contents s ++ src)
write_all s src v fits =
    let (v', n, c) = pty_ring_write-Queue s src v in
    let all : min (length src) (pty_cap - s.count) ≡ length src = omega arith in
    (v', n ∙ all, c ∙ rw (n, all, take-length src) refl)
  where
    take-length : (xs : List ℕ) → take (length xs) xs ≡ xs
    take-length [] = refl
    take-length (x ∷ xs) = ap (λ l. x ∷ l) (take-length xs)

output_byte_lem :
    (p : Pty) (c : ℕ)
    → IsRing p.s2m
    → ((output_byte p c ≡ none) × (pty_cap ≤ p.s2m.count + 1))
      ⊎ ((p' : Pty) × (output_byte p c ≡ some p')
          × IsRing p'.s2m
          × (p' ≡ record p { s2m = p'.s2m })
          × (contents p'.s2m ≡ contents p.s2m ++ with_cr (tty_oflag p.termios) (c ∷ [])))
unfolding output_byte with_cr
output_byte_lem p c v = elim (Bool-cases (adds_cr (tty_oflag p.termios) c)) [
  | inl cr ↦ elim (Bool-cases (ltb (pty_cap - p.s2m.count) 2)) [
    | inl full ↦ rw (cr, full) (inl (refl, ground arith))
    | inr room ↦
        let (v', n, e) = write_all p.s2m (13 ∷ 10 ∷ []) v (ground (arith, v.full)) in
        let both : ((pty_ring_write p.s2m (13 ∷ 10 ∷ [])).0 == 2) ≡ true = rw n refl in
        rw (cr, room, both)
          (inr (record p { s2m = (pty_ring_write p.s2m (13 ∷ 10 ∷ [])).1 }, refl, v', refl, e))
  ]
  | inr plain ↦ elim (Bool-cases (leb pty_cap p.s2m.count)) [
    | inl full ↦ rw (plain, full) (inl (refl, ground arith))
    | inr room ↦
        let (v', n, e) = write_all p.s2m (c ∷ []) v (ground (arith, v.full)) in
        let one : ((pty_ring_write p.s2m (c ∷ [])).0 == 1) ≡ true = rw n refl in
        rw (plain, room, one)
          (inr (record p { s2m = (pty_ring_write p.s2m (c ∷ [])).1 }, refl, v', refl, e))
  ]
]

-- Of an output to the master the ring alone is changed.
pub record OutputDone (p p' : Pty) (src : List ℕ) (done : ℕ) : Type 0 where
  pub ring : IsRing p'.s2m
  pub rest_same : p' ≡ record p { s2m = p'.s2m }
  pub text : contents p'.s2m ≡ contents p.s2m ++ with_cr (tty_oflag p.termios) (take done src)
  pub not_more : done ≤ length src
  pub full : (done ≡ length src) ⊎ (pty_cap ≤ p'.s2m.count + 1)

nothing_written :
    (src : List ℕ) (p : Pty)
    → IsRing p.s2m
    → (0 ≡ length src) ⊎ (pty_cap ≤ p.s2m.count + 1)
    → OutputDone p p src 0
unfolding with_cr
nothing_written src p v f = record {
  ring = v;
  rest_same = refl;
  text = sym (append_nil (contents p.s2m));
  not_more = omega arith;
  full = f;
}

with_cr-first :
    (oflag c : ℕ) (cs : List ℕ)
    → with_cr oflag (c ∷ cs) ≡ with_cr oflag (c ∷ []) ++ with_cr oflag cs
unfolding with_cr
with_cr-first oflag c cs =
    rw (append_nil (if has 0 oflag && has 2 oflag && c == 10 then 13 ∷ 10 ∷ [] else c ∷ [])) refl

written_after :
    (c : ℕ) (cs : List ℕ) (p p1 : Pty)
    → p1 ≡ record p { s2m = p1.s2m }
    → contents p1.s2m ≡ contents p.s2m ++ with_cr (tty_oflag p.termios) (c ∷ [])
    → {p' : Pty} {done : ℕ} → OutputDone p1 p' cs done
    → OutputDone p p' (c ∷ cs) (suc done)
written_after c cs p p1 same text {p'} {done} w =
    let flags : tty_oflag p1.termios ≡ tty_oflag p.termios =
      ap (λ (q : Pty). tty_oflag q.termios) same in
    record {
      ring = w.ring;
      rest_same = w.rest_same ∙ ap (λ (q : Pty). record q { s2m = p'.s2m }) same;
      text =
          w.text
          ∙ rw (text, flags, with_cr-first (tty_oflag p.termios) c (take done cs))
              (append_assoc (contents p.s2m) _ _);
      not_more = omega (arith, w.not_more);
      full = elim w.full [ inl e ↦ inl (omega arith) | inr f ↦ inr f ];
    }

loop_stops :
    (c : ℕ) (cs : List ℕ) (i : ℕ) (p : Pty)
    → output_byte p c ≡ none
    → output_loop (c ∷ cs) i p ≡ (i, p)
unfolding output_loop
loop_stops c cs i p e =
    ap
      (λ (o : Option Pty). elim o as (λ _. ℕ × Pty) [
        | none ↦ (i, p)
        | some p' ↦ output_loop cs (i + 1) p'
      ])
      e

loop_goes :
    (c : ℕ) (cs : List ℕ) (i : ℕ) (p p1 : Pty)
    → output_byte p c ≡ some p1
    → output_loop (c ∷ cs) i p ≡ output_loop cs (i + 1) p1
unfolding output_loop
loop_goes c cs i p p1 e =
    ap
      (λ (o : Option Pty). elim o as (λ _. ℕ × Pty) [
        | none ↦ (i, p)
        | some p' ↦ output_loop cs (i + 1) p'
      ])
      e

output_loop_lem :
    (src : List ℕ) (i : ℕ) (p : Pty)
    → IsRing p.s2m
    → (done : ℕ) × ((output_loop src i p).0 ≡ i + done)
      × OutputDone p (output_loop src i p).1 src done
output_loop_lem [] i p v = unfold output_loop in (0, omega arith, nothing_written [] p v (inl refl))
output_loop_lem (c ∷ cs) i p v = elim (output_byte_lem p c v) [
  | inl (e, full) ↦
      rw (loop_stops c cs i p e) (0, omega arith, nothing_written (c ∷ cs) p v (inr full))
  | inr (p1, e, v1, same, text) ↦
      let (done, n, w) = output_loop_lem cs (i + 1) p1 v1 in
      rw (loop_goes c cs i p p1 e) (suc done, n ∙ omega arith, written_after c cs p p1 same text w)
]

-- With a well-formed ring to the master, `pty_output_write` takes a first part of the bytes and
-- puts it, with a carriage return before each line feed when the flags `OPOST` and
-- `ONLCR` are both set and as they are else, behind the bytes
-- that the ring to the master holds; it stops before the last byte only when the ring has room for
-- one byte at most. Nothing else is changed.
pub pty_output_write-OutputDone :
    (p : Pty) (src : List ℕ)
    → IsRing p.s2m
    → let (done, p') = pty_output_write p src in OutputDone p p' src done
unfolding pty_output_write
pty_output_write-OutputDone p src v =
    let (done, n, w) = output_loop_lem src 0 p v in
    let same : 0 + done ≡ done = omega arith in rw (n ∙ same) w
