-- ===== src/Strings/Copy.antt =====
-- Copies into memory: what `xstrcpy`, `xstrlcpy` and `xstrjoinex` leave there, and that they stay inside.
use c_mx.Common.{
  ℕ, zero, suc, ◌+◌, ◌-◌, ◌≤◌, ◌<◌, min, true, false, Option, none, some, List, [], ◌∷◌, ◌++◌,
  length,
}
use c_mx.Common.{take, drop, length-append, length-drop, length-take, take-append-drop, take_all}
use c_mx.Common.{append_assoc, memcpy, store, memcpy_lem, store_lem, ltb, leb, ◌==◌}
use c_mx.Common.{inl, inr, Bool-cases, if◌then◌else◌, arith, ◌≡◌, refl, sym, ap, ◌∙◌}
use c_mx.Libc.{has, memchr_zero}
use c_mx.Libc.Laws.{has_not}
use c_mx.Strings.{xstrcpy, xstrlcpy, xstrjoinex, joined_size, xstrndup, found_or}

-- A block in which `n` bytes are there, and one more: its parts.
next_byte : (n : ℕ) (xs : List ℕ) → n < length xs → (y : ℕ) × (drop n xs ≡ y ∷ drop (suc n) xs)
next_byte zero [] h = absurd (omega arith)
next_byte (suc n) [] h = absurd (omega arith)
next_byte zero (x ∷ xs) h = (x, refl)
next_byte (suc n) (x ∷ xs) h = next_byte n xs (omega arith)

memcpy_front :
    (dst src : List ℕ) (n : ℕ)
    → n ≤ length dst
    → n ≤ length src
    → memcpy dst 0 src n ≡ some (take n src ++ drop n dst)
memcpy_front dst src n room there =
    ap (λ m. memcpy m 0 src n) (sym (take-append-drop n dst))
    ∙ memcpy_lem [] (take n dst) (drop n dst) src n 0 refl (omega (arith, length-take n dst)) there

take-min : (n : ℕ) (xs : List ℕ) → take (min n (length xs)) xs ≡ take n xs
take-min n xs = elim (Bool-cases (ltb n (length xs))) [
  | inl less ↦ ap (λ t. take t xs) (ground arith)
  | inr more ↦ take_all xs (min n (length xs)) (ground arith) ∙ sym (take_all xs n (ground arith))
]

-- Where the destination has `size` bytes, `xstrlcpy` stays inside them: for a size of 0 it writes nothing, else it leaves as much of the string as fits
-- before a terminator, touches nothing behind that, and returns the length of the whole string.
pub xstrlcpy_lem :
    (dst src : List ℕ) (size : ℕ)
    → size ≤ length dst
    → xstrlcpy dst src size
      ≡ some (
        (if size == 0
            then dst
            else take (size - 1) src ++ (0 ∷ drop (min (size - 1) (length src) + 1) dst)),
        length src,
      )
unfolding xstrlcpy
xstrlcpy_lem dst src zero room = refl
xstrlcpy_lem dst src (suc room_left) room =
    let size = suc room_left in
    let len = min (size - 1) (length src) in
    let chosen : (if leb size (length src) then size - 1 else length src) ≡ len = ground arith in
    let (y, next) = next_byte len dst (omega arith) in
    let kept : length (take len src) ≡ len = omega (arith, length-take len src) in
    let ends : store (take len src ++ drop len dst) len 0
        ≡ some (take len src ++ (0 ∷ drop (suc len) dst)) =
      rw next (store_lem (take len src) (drop (suc len) dst) y 0 len (sym kept)) in
    let nonzero : (size == 0) ≡ false = ground arith in
    rw (nonzero, chosen, memcpy_front dst src len (omega arith) (omega arith), ends)
      (ap (λ t. some (t ++ (0 ∷ drop (suc len) dst), length src)) {x = take len src}
          {y = take (size - 1) src} (take-min (size - 1) src)
        ∙ ap (λ t. some (take (size - 1) src ++ (0 ∷ drop t dst), length src)) {x = suc len}
            (omega arith))

-- One string copied behind `front`: the block is cut there anew.
xstrcpy_lem :
    (front old src : List ℕ) (dst : ℕ)
    → dst ≡ length front
    → length src + 1 ≤ length old
    → (rest : List ℕ) × (xstrcpy (front ++ old) dst src
        ≡ some ((front ++ src) ++ (0 ∷ rest), length (front ++ src)))
      × (length rest + 1 + length src ≡ length old)
unfolding xstrcpy
xstrcpy_lem front old src dst e room =
    let n = length src + 1 in
    let ended = src ++ (0 ∷ []) in
    let size : length ended ≡ n = length-append src (0 ∷ []) in
    let copied : memcpy (front ++ old) dst ended n ≡ some (front ++ (ended ++ drop n old)) =
      ap (λ m. memcpy (front ++ m) dst ended n) (sym (take-append-drop n old))
      ∙ memcpy_lem front (take n old) (drop n old) ended n dst e (omega (arith, length-take n old))
          (omega (arith, size))
      ∙ ap (λ m. some (front ++ (m ++ drop n old))) (take_all ended n (omega (arith, size))) in
    let where_ends : dst + length src ≡ length (front ++ src) =
      omega (arith, e, length-append front src) in
    (
      drop n old,
      rw
          (
            copied,
            append_assoc src (0 ∷ []) (drop n old),
            ← append_assoc front src (0 ∷ drop n old),
            where_ends,
          )
          refl,
      omega (arith, length-drop n old),
    )

empty_lem : (xs : List ℕ) → length xs ≡ 0 → xs ≡ []
empty_lem [] h = refl
empty_lem (x ∷ xs) h = absurd (omega arith)

abbrev pub or_empty : Option (List ℕ) → List ℕ
or_empty none = []
or_empty (some str) = str

-- In a block of the size that it allocates, `xstrjoinex` makes the joined string with its terminator, and
-- this fills the block to its last byte.
pub xstrjoinex_lem :
    (buffer first second : List ℕ) (third : Option (List ℕ))
    → length buffer ≡ joined_size first second third
    → xstrjoinex buffer first second third
      ≡ some (first ++ (second ++ (or_empty third ++ (0 ∷ []))))
unfolding xstrjoinex joined_size
xstrjoinex_lem buffer first second none size =
    let (rest, copied, left) = xstrcpy_lem [] buffer first 0 refl (omega arith) in
    let (rest', copied', left') =
      xstrcpy_lem first (0 ∷ rest) second (length first) refl (omega arith) in
    let full : rest' ≡ [] = empty_lem rest' (omega arith) in
    rw (copied, copied', full) (ap some (append_assoc first second (0 ∷ [])))
xstrjoinex_lem buffer first second (some third) size =
    let (rest, copied, left) = xstrcpy_lem [] buffer first 0 refl (omega arith) in
    let (rest', copied', left') =
      xstrcpy_lem first (0 ∷ rest) second (length first) refl (omega arith) in
    let (rest'', copied'', left'') =
      xstrcpy_lem (first ++ second) (0 ∷ rest') third (length (first ++ second)) refl
        (omega arith) in
    let full : rest'' ≡ [] = empty_lem rest'' (omega arith) in
    rw (copied, copied', copied'', full)
      (ap some (
        append_assoc (first ++ second) third (0 ∷ [])
        ∙ append_assoc first second (third ++ (0 ∷ []))))

terminator :
    (src : List ℕ) (len : ℕ)
    → has src 0 ≡ false
    → memchr_zero (src ++ (0 ∷ [])) len ≡ (if ltb (length src) len then some (length src) else none)
unfolding memchr_zero has
terminator src zero h = let no : ltb (length src) 0 ≡ false = ground arith in rw no refl
terminator [] (suc len) h = let yes_ : ltb 0 (suc len) ≡ true = ground arith in rw yes_ refl
terminator (x ∷ src) (suc len) h =
    let (differs, others) = has_not x src 0 h in
    elim (Bool-cases (ltb (length src) len)) [
      | inl less ↦
          let less' : ltb (suc (length src)) (suc len) ≡ true = ground (arith, less) in
          rw (differs, terminator src len others, less, less') refl
      | inr more ↦
          let more' : ltb (suc (length src)) (suc len) ≡ false = ground (arith, more) in
          rw (differs, terminator src len others, more, more') refl
    ]

-- `xstrndup` copies what there is of the first `len` characters.
pub xstrndup_lem : (src : List ℕ) (len : ℕ) → has src 0 ≡ false → xstrndup src len ≡ take len src
unfolding xstrndup found_or
xstrndup_lem src len h = elim (Bool-cases (ltb (length src) len)) [
  | inl less ↦
      rw (terminator src len h, less)
        (take_all src (length src) (omega arith) ∙ sym (take_all src len (ground arith)))
  | inr more ↦ rw (terminator src len h, more) refl
]
