-- ===== src/Kernel/Paths/Normal.antt =====
-- src/kernel/main.c: what a normal path looks like, and that it is left as it is.
use yabro_os.Base.{
  ℕ, zero, suc, ◌+◌, ◌<◌, ◌≤◌, ◌≡◌, refl, sym, ap, ◌∙◌, true, false, ◌||◌, not, Option, none, some,
  List, [], ◌∷◌, ◌++◌, ltb, leb, ◌==◌, length, length-append, arith, Code, ok, err, if-cases,
  append_assoc, append_nil,
}
use yabro_os.Vfs.Node.{vfs_name_max}
use yabro_os.Vfs.Path.{slash, eq_name, drop_slashes}
use yabro_os.Kernel.Paths.{
  max_depth, read_part, is_current, is_parent, next_parts, parts_loop, put_parts, normalize_from,
  normalize_abs_path, put_result,
}
use yabro_os.Kernel.Paths.Parts.{no_slash, is_part, all_parts, Normal, Ended, parts_loop-Ended}

-- Each part with a slash before it.
unfoldable pub slashed : List (List ℕ) → List ℕ
slashed [] = []
slashed (p ∷ ps) = slash ∷ p ++ slashed ps

-- The path of some parts.
unfoldable pub path_text : List (List ℕ) → List ℕ
path_text [] = slash ∷ []
path_text (p ∷ ps) = slashed (p ∷ ps)

-- The bytes of a successful output.
OutputText : ℕ → List ℕ → Code × List ℕ → Type 0
OutputText cap text (ok, out) = (out ≡ text) × (length out < cap)
OutputText cap text (err n, out) = Unit {0}

put_parts-OutputText :
    (cap : ℕ) (ps : List (List ℕ)) (out : List ℕ)
    → 1 < length out
    → length out < cap
    → OutputText cap (out ++ slashed ps) (put_parts cap ps out)
unfolding put_parts OutputText slashed
put_parts-OutputText cap [] out long fits = (sym (append_nil out), fits)
put_parts-OutputText cap (p ∷ ps) out long fits =
    let long' : ltb 1 (length out) ≡ true = ground arith in
    let start = out ++ slash ∷ [] in
    let text =
      append_assoc start p (slashed ps) ∙ append_assoc out (slash ∷ []) (p ++ slashed ps) in
    let longer = length-append start p in
    let long_start = length-append out (slash ∷ []) in
    rw long' (
      if-cases (OutputText cap (out ++ (slash ∷ (p ++ slashed ps)))) (leb cap (length out + 1))
        (λ _. tt)
        (λ room.
          if-cases (OutputText cap (out ++ (slash ∷ (p ++ slashed ps))))
            (leb cap (length start + length p)) (λ _. tt)
            (λ room2. rw (← text) (
              put_parts-OutputText cap ps (start ++ p) (omega (arith, longer, long_start))
                (ground (arith, longer))))))

not_empty : (p : List ℕ) → is_part p ≡ true → 0 < length p
unfolding is_part eq_name
not_empty [] h = absurd (ground (arith, h))
not_empty (c ∷ cs) h = omega arith

put_first :
    (cap : ℕ) (ps : List (List ℕ))
    → 1 < cap
    → all_parts ps ≡ true
    → OutputText cap (path_text ps) (put_parts cap ps (slash ∷ []))
unfolding put_parts OutputText path_text slashed all_parts
put_first cap [] big a = (refl, big)
put_first cap (p ∷ ps) big a =
    let named : is_part p ≡ true = ground arith in
    let some_byte = not_empty p named in
    if-cases (OutputText cap (slash ∷ p ++ slashed ps)) (leb cap (1 + length p)) (λ _. tt)
      (λ room. put_parts-OutputText cap ps (slash ∷ p) (omega (arith, some_byte)) (ground arith))

-- A normal part is read whole.
read_part-part :
    (p : List ℕ) (rest : List (List ℕ)) (n : ℕ)
    → no_slash p ≡ true
    → n + length p ≤ vfs_name_max
    → read_part (p ++ slashed rest) n ≡ some (p, slashed rest)
unfolding read_part no_slash slashed
read_part-part [] [] n a le = refl
read_part-part [] (q ∷ rest) n a le = refl
read_part-part (c ∷ cs) rest n a le =
    let plain : (c == slash) ≡ false = ground arith in
    let room : leb vfs_name_max n ≡ false = ground arith in
    let more = read_part-part cs rest (n + 1) (ground arith) (omega (arith, le)) in
    rw (plain, room, more) refl

starts_plain :
    (p path : List ℕ)
    → no_slash p ≡ true
    → 0 < length p
    → (drop_slashes (p ++ path) ≡ p ++ path) × (eq_name (p ++ path) [] ≡ false)
unfolding drop_slashes no_slash eq_name
starts_plain [] path a lt = absurd (omega arith)
starts_plain (c ∷ cs) path a lt =
    let plain : (c == slash) ≡ false = ground arith in (rw plain refl, refl)

parts_loop-slash :
    (k : ℕ) (path : List ℕ) (parts : List (List ℕ))
    → parts_loop k (slash ∷ path) parts ≡ parts_loop k path parts
unfolding parts_loop drop_slashes
parts_loop-slash zero path parts = refl
parts_loop-slash (suc k) path parts = refl

-- One round at a normal part.
parts_loop-part :
    (k : ℕ) (p : List ℕ) (rest parts : List (List ℕ))
    → is_part p ≡ true
    → length parts < max_depth
    → parts_loop (suc k) (p ++ slashed rest) parts ≡ parts_loop k (slashed rest) (parts ++ p ∷ [])
unfolding parts_loop next_parts is_part
parts_loop-part k p rest parts named room =
    let clean : no_slash p ≡ true = ground arith in
    let (at, more) = starts_plain p (slashed rest) clean (not_empty p named) in
    let proper : is_current p ≡ false = ground arith in
    let proper2 : is_parent p ≡ false = ground arith in
    let room' : leb max_depth (length parts) ≡ false = ground arith in
    let got = read_part-part p rest 0 clean (ground arith) in
    rw (at, more, got, proper, proper2, room') refl

-- The loop finds the parts of a path again.
parts_loop-slashed :
    (k : ℕ) (ps parts : List (List ℕ))
    → length ps < k
    → all_parts ps ≡ true
    → length parts + length ps ≤ max_depth
    → parts_loop k (slashed ps) parts ≡ some (ok, parts ++ ps)
unfolding all_parts slashed
parts_loop-slashed zero ps parts lt a le = absurd (omega arith)
parts_loop-slashed (suc k) [] parts lt a le =
    unfold parts_loop slashed drop_slashes eq_name in rw (append_nil parts) refl
parts_loop-slashed (suc k) (p ∷ ps) parts lt a le =
    parts_loop-slash (suc k) (p ++ slashed ps) parts
    ∙ parts_loop-part k p ps parts (ground arith) (omega arith)
    ∙ parts_loop-slashed k ps (parts ++ p ∷ []) (omega arith) (ground arith)
        (omega (arith, le, length-append parts (p ∷ [])))
    ∙ ap (λ (l : List (List ℕ)). some (ok, l)) (append_assoc parts (p ∷ []) ps)

length-slashed : (ps : List (List ℕ)) → length ps ≤ length (slashed ps)
unfolding slashed
length-slashed [] = omega arith
length-slashed (p ∷ ps) = omega (arith, length-slashed ps, length-append p (slashed ps))

from_parts :
    (cap : ℕ) (path : List ℕ) (ps : List (List ℕ))
    → parts_loop (length path + 1) path [] ≡ some (ok, ps)
    → normalize_from cap path ≡ some (put_parts cap ps (slash ∷ []))
unfolding normalize_from
from_parts cap path ps e = ap (put_result cap) e

starts_absolute :
    (cap : ℕ) (path : List ℕ)
    → 1 < cap
    → normalize_abs_path (slash ∷ path) cap ≡ normalize_from cap path
unfolding normalize_abs_path
starts_absolute cap path big = let enough : ltb cap 2 ≡ false = ground arith in rw enough refl

-- A normal path has the same parts.
normalize-text :
    (cap : ℕ) (ps : List (List ℕ))
    → 1 < cap
    → Normal ps
    → normalize_abs_path (path_text ps) cap ≡ some (put_parts cap ps (slash ∷ []))
unfolding path_text slashed
normalize-text cap [] big v =
    starts_absolute cap [] big
    ∙ from_parts cap [] [] (parts_loop-slashed 1 [] [] (omega arith) v.parts_ok (omega arith))
normalize-text cap (p ∷ ps) big v =
    let path = p ++ slashed ps in
    let named : is_part p ≡ true = unfold all_parts in ground (arith, v.parts_ok) in
    let rounds : suc (length ps) < length path + 1 =
      omega (arith, length-append p (slashed ps), length-slashed ps, not_empty p named) in
    starts_absolute cap path big
    ∙ from_parts cap path (p ∷ ps) (
        sym (parts_loop-slash (length path + 1) path [])
        ∙ parts_loop-slashed (length path + 1) (p ∷ ps) [] rounds v.parts_ok
            (omega (arith, v.depth)))

-- What `normalize_abs_path` gives for a path.
Normalized : ℕ → Option (Code × List ℕ) → Type 0
Normalized cap o =
    (c : Code) × (out : List ℕ) × (o ≡ some (c, out))
    × (c ≡ ok
        → (ps : List (List ℕ)) × Normal ps
          × (out ≡ path_text ps)
          × (length out < cap)
          × (normalize_abs_path out cap ≡ some (ok, out)))

refused : (cap n : ℕ) (out : List ℕ) → Normalized cap (some (err n, out))
unfolding Normalized
refused cap n out = (err n, out, refl, λ h. absurd (ground (arith, h)))

put-Normalized :
    (cap : ℕ) (ps : List (List ℕ))
    → 1 < cap
    → Normal ps
    → (q : Code × List ℕ) → put_parts cap ps (slash ∷ []) ≡ q
    → OutputText cap (path_text ps) q
    → Normalized cap (some q)
unfolding OutputText
put-Normalized cap ps big v (err n, out) e t = refused cap n out
put-Normalized cap ps big v (ok, out) e (same, fits) =
    unfold Normalized in
    (ok, out, refl, λ _. (ps, v, same, fits, rw same (normalize-text cap ps big v) ∙ ap some e))

parts-Normalized :
    (cap : ℕ) (path : List ℕ)
    → 1 < cap
    → (o : Option (Code × List (List ℕ))) → parts_loop (length path + 1) path [] ≡ o
    → Ended o
    → Normalized cap (normalize_from cap path)
unfolding Ended normalize_from
parts-Normalized cap path big none e v = absurd v
parts-Normalized cap path big (some (err n, ps)) e v = rw (ap (put_result cap) e) (refused cap n [])
parts-Normalized cap path big (some (ok, ps)) e v = rw e (
    put-Normalized cap ps big v (put_parts cap ps (slash ∷ [])) refl
      (put_first cap ps big v.parts_ok))

-- `normalize_abs_path` ends for every path, and a path that it gives without an error is the text
-- of at most 32 parts, each of 1 to 31 bytes, without a slash and neither "." nor "..", fits the
-- buffer with its end, and is given again when it is normalized itself.
pub normalize_abs_path-Normalized :
    (path : List ℕ) (cap : ℕ)
    → (c : Code) × (out : List ℕ) × (normalize_abs_path path cap ≡ some (c, out))
      × (c ≡ ok
          → (ps : List (List ℕ)) × Normal ps
            × (out ≡ path_text ps)
            × (length out < cap)
            × (normalize_abs_path out cap ≡ some (ok, out)))
unfolding normalize_abs_path Normalized all_parts
normalize_abs_path-Normalized [] cap = refused cap 22 []
normalize_abs_path-Normalized (c ∷ path) cap =
    if-cases (Normalized cap) (ltb cap 2 || not (c == slash)) (λ _. refused cap 22 [])
      (λ good.
        parts-Normalized cap path (ground arith) (parts_loop (length path + 1) path []) refl (
          parts_loop-Ended (length path + 1) path [] (omega arith)
            (record { parts_ok = refl; depth = omega arith })))
