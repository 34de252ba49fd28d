-- ===== src/Snapshotter/Main/Argv.antt =====
-- The arguments of the child, in snapshotter/src/main.c.
use process_bridge.Base.{
  ℕ, zero, suc, Option, some, none, List, [], ◌∷◌, ◌++◌, ◌≡◌, map, length, set, get_or, ◌+◌, ◌-◌,
  arith, length-append, ap, ◌∙◌, refl, append_assoc, length-map, returned, ◌≤◌, ltb, drop, true,
  if◌then◌else◌,
}
use process_bridge.Snapshotter.Main.{copy_args, child_args, store_arg, until_null, fresh_array}

get_or-append :
    {A : Type 0} (xs ys : List A) (y d : A) (n : ℕ) → length xs ≡ n → get_or (xs ++ y ∷ ys) n d ≡ y
get_or-append [] ys y d zero h = refl
get_or-append [] ys y d (suc n) h = absurd (omega arith)
get_or-append (x ∷ xs) ys y d zero h = absurd (omega arith)
get_or-append (x ∷ xs) ys y d (suc n) h = get_or-append xs ys y d n (omega arith)

set-append :
    {A : Type 0} (xs ys : List A) (y v : A) (n : ℕ)
    → length xs ≡ n
    → set (xs ++ y ∷ ys) n v ≡ xs ++ v ∷ ys
set-append [] ys y v zero h = refl
set-append [] ys y v (suc n) h = absurd (omega arith)
set-append (x ∷ xs) ys y v zero h = absurd (omega arith)
set-append (x ∷ xs) ys y v (suc n) h = ap (λ zs. x ∷ zs) (set-append xs ys y v n (omega arith))

store_arg-append :
    {W : Type 0} (xs ys : List (Option (List ℕ))) (y v : Option (List ℕ)) (n : ℕ) (w : W)
    → length xs ≡ n
    → store_arg n v (xs ++ y ∷ ys) w ≡ returned (xs ++ v ∷ ys) w
unfolding store_arg
store_arg-append xs ys y v n w h =
    let size = length-append xs (y ∷ ys) in
    let inner : ltb n (length (xs ++ y ∷ ys)) ≡ true = ground arith in
    rw (if◌then◌else◌, inner, set-append xs ys y v n h)

-- The loop fills the places behind those that are filled, whatever they held.
copy_args_lem :
    {W : Type 0} (args front : List (List ℕ)) (filled held rest : List (Option (List ℕ))) (i : ℕ)
    (w : W)
    → length filled ≡ 1 + i
    → length front ≡ 3 + i
    → length held ≡ length args
    → copy_args (length args) i (front ++ args) (filled ++ (held ++ rest)) w
      ≡ returned (filled ++ (map some args ++ rest)) w
unfolding copy_args
copy_args_lem [] front filled [] rest i w h k l = refl
copy_args_lem [] front filled (p ∷ held) rest i w h k l = absurd (omega arith)
copy_args_lem (arg ∷ args) front filled [] rest i w h k l = absurd (omega arith)
copy_args_lem (arg ∷ args) front filled (p ∷ held) rest i w h k l =
    let found : get_or (front ++ arg ∷ args) (3 + i) [] ≡ arg =
      get_or-append front args arg [] (3 + i) k in
    let stored = store_arg-append filled (held ++ rest) p (some arg) (1 + i) w h in
    let more =
      copy_args_lem args (front ++ arg ∷ []) (filled ++ some arg ∷ []) held rest (i + 1) w
        (length-append filled (some arg ∷ []) ∙ omega (arith, h))
        (length-append front (arg ∷ []) ∙ omega (arith, k)) (omega arith) in
    rw (found) (rw (stored) (rw (append_assoc, append_assoc, append_assoc) at more))

length-fresh_array :
    (held : ℕ → Option (List ℕ)) (places i : ℕ) → length (fresh_array held places i) ≡ places
unfolding fresh_array
length-fresh_array held zero i = refl
length-fresh_array held (suc places) i = ap suc (length-fresh_array held places (i + 1))

-- The last place of the memory, and those before it.
fresh_array-last :
    (held : ℕ → Option (List ℕ)) (places i : ℕ)
    → fresh_array held (places + 1) i ≡ fresh_array held places i ++ held (i + places) ∷ []
unfolding fresh_array
fresh_array-last held zero i = let e : i ≡ i + 0 = omega arith in ap (λ j. held j ∷ []) e
fresh_array-last held (suc places) i =
    let e : i + 1 + places ≡ i + suc places = omega arith in
    let f : suc places + 1 ≡ suc (places + 1) = omega arith in
    ap (λ n. fresh_array held n i) f
    ∙ ap (λ xs. held i ∷ xs) (fresh_array-last held places (i + 1))
    ∙ ap (λ j. held i ∷ (fresh_array held places (i + 1) ++ held j ∷ [])) e

fresh_array-ends :
    (held : ℕ → Option (List ℕ)) (n : ℕ)
    → fresh_array held (n + 2) 0 ≡ held 0 ∷ (fresh_array held n 1 ++ held (1 + n) ∷ [])
unfolding fresh_array
fresh_array-ends held n =
    let e : n + 2 ≡ suc (n + 1) = omega arith in
    ap (λ m. fresh_array held m 0) e ∙ ap (λ xs. held 0 ∷ xs) (fresh_array-last held n 1)

-- For a command line with a program, an offset and a child, and whatever the memory held that was
-- allocated, no store is outside of the array for the child, which is the child and its arguments
-- in their order, each once, and `NULL` behind them.
pub child_args-eq-map :
    {W : Type 0} (held : ℕ → Option (List ℕ)) (program offset child : List ℕ) (args : List (List ℕ))
    (w : W)
    → child_args held (program ∷ offset ∷ child ∷ args) w
      ≡ returned (map some (child ∷ args) ++ none ∷ []) w
unfolding child_args
child_args-eq-map held program offset child args w =
    let n = length args in
    let places = fresh_array held n 1 in
    let last = held (1 + n) in
    let count : length (program ∷ offset ∷ child ∷ args) - 3 ≡ n = omega arith in
    let memory : fresh_array held (n + 2) 0 ≡ held 0 ∷ (places ++ last ∷ []) =
      fresh_array-ends held n in
    let front = program ∷ offset ∷ child ∷ [] in
    let looped =
      copy_args_lem args front (some child ∷ []) places (last ∷ []) 0 w refl refl
        (length-fresh_array held n 1) in
    let ended =
      store_arg-append (some child ∷ map some args) [] last none (1 + n) w
        (omega (arith, length-map args (λ (a : List ℕ). some a))) in
    rw (count, memory)
      (rw (store_arg-append [] (places ++ last ∷ []) (held 0) (some child) 0 w refl)
        (rw (looped) ended))

-- `execve` reads all of them, and no further.
pub until_null-map :
    {W : Type 0} (args : List (List ℕ)) (w : W)
    → until_null (map some args ++ none ∷ []) w ≡ returned args w
unfolding until_null
until_null-map [] w = refl
until_null-map (arg ∷ args) w = rw (until_null-map args w)

pub child_args-drop :
    {W : Type 0} (held : ℕ → Option (List ℕ)) (argv : List (List ℕ)) (w : W)
    → 3 ≤ length argv
    → child_args held argv w ≡ returned (map some (drop 2 argv) ++ none ∷ []) w
child_args-drop held [] w h = absurd (omega arith)
child_args-drop held (program ∷ []) w h = absurd (omega arith)
child_args-drop held (program ∷ offset ∷ []) w h = absurd (omega arith)
child_args-drop held (program ∷ offset ∷ child ∷ args) w h =
    child_args-eq-map held program offset child args w
