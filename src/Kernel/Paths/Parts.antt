-- ===== src/Kernel/Paths/Parts.antt =====
-- src/kernel/main.c: the parts that a path is taken apart into.
use yabro_os.Base.{
  ℕ, zero, suc, ◌+◌, ◌<◌, ◌≤◌, ◌≡◌, refl, Bool, true, false, ◌&&◌, not, Option, none, some, List,
  [], ◌∷◌, ◌++◌, leb, ◌==◌, length, length-append, arith, Code, ok, err, if-cases,
}
use yabro_os.Vfs.Node.{vfs_name_max}
use yabro_os.Vfs.Path.{slash, eq_name, drop_slashes}
use yabro_os.Kernel.Paths.{
  max_depth, read_part, is_current, is_parent, drop_last, next_parts, parts_loop,
}

unfoldable pub no_slash : List ℕ → Bool
no_slash [] = true
no_slash (c ∷ cs) = not (c == slash) && no_slash cs

-- A part of a normal path: short enough, without a slash, neither empty nor "." nor "..".
unfoldable pub is_part : List ℕ → Bool
is_part p = no_slash p && leb (length p) vfs_name_max && not (is_current p) && not (is_parent p)

unfoldable pub all_parts : List (List ℕ) → Bool
all_parts [] = true
all_parts (p ∷ ps) = is_part p && all_parts ps

all_parts-append :
    (ps : List (List ℕ)) (p : List ℕ)
    → all_parts ps ≡ true
    → is_part p ≡ true
    → all_parts (ps ++ p ∷ []) ≡ true
unfolding all_parts
all_parts-append [] p a b = rw b refl
all_parts-append (q ∷ ps) p a b = ground (arith, all_parts-append ps p)

all_parts-drop_last : (ps : List (List ℕ)) → all_parts ps ≡ true → all_parts (drop_last ps) ≡ true
unfolding all_parts drop_last
all_parts-drop_last [] a = refl
all_parts-drop_last (p ∷ []) a = refl
all_parts-drop_last (p ∷ q ∷ ps) a = ground (arith, all_parts-drop_last (q ∷ ps))

length-drop_last : (ps : List (List ℕ)) → length (drop_last ps) ≤ length ps
unfolding drop_last
length-drop_last [] = omega arith
length-drop_last (p ∷ []) = omega arith
length-drop_last (p ∷ q ∷ ps) = omega (arith, length-drop_last (q ∷ ps))

-- The path goes on with a part.
unfoldable pub starts_part : List ℕ → Bool
starts_part [] = false
starts_part (c ∷ cs) = not (c == slash)

-- What is read is free of slashes and short, and is not empty where a part starts.
Reading : List ℕ → ℕ → Option (List ℕ × List ℕ) → Type 0
Reading bytes n none = Unit {0}
Reading bytes n (some (part, rest)) =
    (no_slash part ≡ true)
    × (n + length part ≤ vfs_name_max)
    × (length part + length rest ≡ length bytes)
    × (starts_part bytes ≡ true → 0 < length part)

longer-Reading :
    (c : ℕ) (cs : List ℕ) (n : ℕ)
    → (c == slash) ≡ false
    → (o : Option (List ℕ × List ℕ)) → Reading cs (n + 1) o
    → Reading (c ∷ cs) n (elim o [ none ↦ none | some (part, rest) ↦ some (c ∷ part, rest) ])
unfolding Reading no_slash
longer-Reading c cs n plain none r = tt
longer-Reading c cs n plain (some (part, rest)) (a, b, l, f) =
    (ground (arith, a), omega (arith, b), omega (arith, l), λ _. omega arith)

read_part-Reading :
    (bytes : List ℕ) (n : ℕ) → n ≤ vfs_name_max → Reading bytes n (read_part bytes n)
unfolding read_part Reading no_slash starts_part
read_part-Reading [] n le = (refl, omega arith, omega arith, λ h. absurd (ground (arith, h)))
read_part-Reading (c ∷ cs) n le =
    if-cases (Reading (c ∷ cs) n) (c == slash)
      (λ e. (refl, omega arith, omega arith, λ h. absurd (ground (arith, h, e))))
      (λ plain.
        if-cases (Reading (c ∷ cs) n) (leb vfs_name_max n) (λ _. tt)
          (λ room.
            longer-Reading c cs n plain (read_part cs (n + 1))
              (read_part-Reading cs (n + 1) (ground arith))))

-- Parts that are normal, and not too many.
pub record Normal (parts : List (List ℕ)) : Type 0 where
  pub parts_ok : all_parts parts ≡ true
  pub depth : length parts ≤ max_depth

Next : Option (List (List ℕ)) → Type 0
Next none = Unit {0}
Next (some parts) = Normal parts

next_parts-Next :
    (part : List ℕ) (parts : List (List ℕ))
    → no_slash part ≡ true
    → length part ≤ vfs_name_max
    → Normal parts
    → Next (next_parts part parts)
unfolding next_parts Next is_part
next_parts-Next part parts clean short v =
    if-cases Next (is_current part) (λ _. v)
      (λ named.
        if-cases Next (is_parent part)
          (λ _. record {
            parts_ok = all_parts-drop_last parts v.parts_ok;
            depth = omega (arith, length-drop_last parts, v.depth);
          })
          (λ proper.
            if-cases Next (leb max_depth (length parts)) (λ _. tt)
              (λ room. record {
                parts_ok = all_parts-append parts part v.parts_ok (ground arith);
                depth = ground (arith, length-append parts (part ∷ []));
              })))

-- The loop ends, and parts that it gives are normal.
unfoldable pub Ended : Option (Code × List (List ℕ)) → Type 0
Ended none = ⊥
Ended (some (ok, parts)) = Normal parts
Ended (some (err n, parts)) = Unit {0}

starts-drop_slashes :
    (path : List ℕ)
    → (length (drop_slashes path) ≤ length path)
      × (eq_name (drop_slashes path) [] ≡ false → starts_part (drop_slashes path) ≡ true)
unfolding drop_slashes starts_part eq_name
starts-drop_slashes [] = (omega arith, λ h. absurd (ground (arith, h)))
starts-drop_slashes (c ∷ cs) =
    let (le, st) = starts-drop_slashes cs in
    if-cases
      (λ (l : List ℕ). (length l ≤ suc (length cs)) × (eq_name l [] ≡ false → starts_part l ≡ true))
      (c == slash) (λ e. (omega (arith, le), st))
      (λ plain. (omega arith, λ _. ground (arith, plain)))

-- The rounds after this one, when they end well.
module _ (k : ℕ)
    (later : (rest : List ℕ) (parts : List (List ℕ))
      → length rest < k
      → Normal parts
      → Ended (parts_loop k rest parts))
    (parts : List (List ℕ)) where
  later_parts-Ended :
      (rest : List ℕ)
      → length rest < k
      → (o : Option (List (List ℕ))) → Next o
      → Ended (elim o [ none ↦ some (err 36, parts) | some parts' ↦ parts_loop k rest parts' ])
  unfolding Ended Next
  later_parts-Ended rest less none nx = tt
  later_parts-Ended rest less (some parts') nx = later rest parts' less nx

  read-Ended :
      (bytes : List ℕ)
      → starts_part bytes ≡ true
      → length bytes ≤ k
      → Normal parts
      → (o : Option (List ℕ × List ℕ)) → Reading bytes 0 o
      → Ended (elim o [
        | none ↦ some (err 36, parts)
        | some (part, rest) ↦ elim (next_parts part parts) [
          | none ↦ some (err 36, parts)
          | some parts' ↦ parts_loop k rest parts'
        ]
      ])
  unfolding Ended Reading
  read-Ended bytes st le v none r = tt
  read-Ended bytes st le v (some (part, rest)) (a, b, l, f) =
      later_parts-Ended rest (omega (arith, l, f st, le)) (next_parts part parts)
        (next_parts-Next part parts a (omega (arith, b)) v)

pub parts_loop-Ended :
    (k : ℕ) (path : List ℕ) (parts : List (List ℕ))
    → length path < k
    → Normal parts
    → Ended (parts_loop k path parts)
unfolding parts_loop Ended
parts_loop-Ended zero path parts lt v = absurd (omega arith)
parts_loop-Ended (suc k) path parts lt v =
    let bytes = drop_slashes path in
    let (le, st) = starts-drop_slashes path in
    if-cases Ended (eq_name bytes []) (λ _. v)
      (λ more.
        read-Ended k (parts_loop-Ended k) parts bytes (st more) (omega (arith, le)) v
          (read_part bytes 0) (read_part-Reading bytes 0 (omega arith)))
