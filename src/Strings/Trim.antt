-- ===== src/Strings/Trim.antt =====
-- Words, blanks and prefixes: what the measuring and trimming functions find in a string made of parts.
use c_mx.Common.{
  ℕ, zero, suc, ◌+◌, ◌-◌, ◌≤◌, ◌<◌, Bool, true, false, Option, none, some, List, [], ◌∷◌, ◌++◌,
  length,
}
use c_mx.Common.{
  take, take_all, take-take, length-append, ltb, ◌==◌, ◌↔◌, if◌then◌else◌, inl, inr, Bool-cases,
}
use c_mx.Common.{arith, ◌≡◌, refl, sym, ap, ◌∙◌, append-nil}
use c_mx.Libc.{is_graph, strncmp_equal}
use c_mx.Libc.Laws.{strncmp_equal-append}
use c_mx.Strings.{
  ends_word, xstr_word_len, xstr_space_len, xstrrtrim, rtrim_loop, graph_at, xstrstarts,
}

-- Do all characters end a word, or none?
unfoldable pub all_blank : Option (List ℕ) → List ℕ → Bool
all_blank space_chars [] = true
all_blank space_chars (x ∷ str) =
    if ends_word space_chars x then all_blank space_chars str else false

unfoldable pub no_blank : Option (List ℕ) → List ℕ → Bool
no_blank space_chars [] = true
no_blank space_chars (x ∷ str) = if ends_word space_chars x then false else no_blank space_chars str

-- Does something that is no part of the word follow?
unfoldable pub ends_here : Option (List ℕ) → List ℕ → Bool
ends_here space_chars [] = true
ends_here space_chars (x ∷ str) = ends_word space_chars x

no_blank_parts :
    (sp : Option (List ℕ)) (x : ℕ) (str : List ℕ)
    → no_blank sp (x ∷ str) ≡ true
    → (ends_word sp x ≡ false) × (no_blank sp str ≡ true)
unfolding no_blank
no_blank_parts sp x str h = elim (Bool-cases (ends_word sp x)) [
  | inl blank ↦ let no : false ≡ true = rw blank at h in cc
  | inr ink ↦ (ink, rw ink at h)
]

pub xstr_word_len_lem :
    (sp : Option (List ℕ)) (word rest : List ℕ)
    → no_blank sp word ≡ true
    → ends_here sp rest ≡ true
    → xstr_word_len (word ++ rest) sp ≡ length word
unfolding xstr_word_len ends_here
xstr_word_len_lem sp [] [] h k = refl
xstr_word_len_lem sp [] (x ∷ rest) h k = rw k refl
xstr_word_len_lem sp (x ∷ word) rest h k =
    let (ink, others) = no_blank_parts sp x word h in
    rw (ink, xstr_word_len_lem sp word rest others k) (omega arith)

-- Nothing to skip in front of a character that is no blank.
pub xstr_space_len_none :
    (sp : Option (List ℕ)) (x : ℕ) (rest : List ℕ)
    → ends_word sp x ≡ false
    → xstr_space_len (x ∷ rest) sp ≡ 0
unfolding xstr_space_len
xstr_space_len_none sp x rest h = rw h refl

pub xstr_space_len_one :
    (sp : Option (List ℕ)) (c x : ℕ) (rest : List ℕ)
    → ends_word sp c ≡ true
    → ends_word sp x ≡ false
    → xstr_space_len (c ∷ (x ∷ rest)) sp ≡ 1
unfolding xstr_space_len
xstr_space_len_one sp c x rest h k = rw (h, k) (omega arith)

strncmp_equal-prefix :
    (str prefix : List ℕ)
    → length prefix ≤ length str
    → strncmp_equal str prefix (length prefix) ≡ true
    → (rest : List ℕ) × (str ≡ prefix ++ rest)
unfolding strncmp_equal
strncmp_equal-prefix str [] h e = (str, refl)
strncmp_equal-prefix [] (y ∷ prefix) h e = absurd (omega arith)
strncmp_equal-prefix (x ∷ str) (y ∷ prefix) h e = elim (Bool-cases (x == y)) [
  | inl same ↦
      let (rest, parts) = strncmp_equal-prefix str prefix (omega arith) (rw same at e) in
      let equal : x ≡ y = ground (arith, same) in
      (rest, ap (λ (t : ℕ). t ∷ str) equal ∙ ap (λ t. y ∷ t) parts)
  | inr differs ↦ let no : false ≡ true = rw differs at e in cc
]

-- A prefix is found exactly where the string begins with it.
pub xstrstarts_lem :
    (str prefix : List ℕ)
    → (xstrstarts str prefix ≡ true) ↔ ((rest : List ℕ) × (str ≡ prefix ++ rest))
unfolding xstrstarts
xstrstarts_lem str prefix = (
  λ found. elim (Bool-cases (ltb (length str) (length prefix))) [
    | inl short ↦ let no : false ≡ true = rw short at found in cc
    | inr long ↦ strncmp_equal-prefix str prefix (ground arith) (rw long at found)
  ],
  λ begins.
      let long : ltb (length str) (length prefix) ≡ false =
        ground (arith, ap length begins.1, length-append prefix begins.0) in
      rw (long, begins.1) (strncmp_equal-append prefix begins.0),
)

graph_at-append : (a b : List ℕ) (i n : ℕ) → n ≡ length a + i → graph_at (a ++ b) n ≡ graph_at b i
unfolding graph_at
graph_at-append [] b i n e = ap (graph_at b) (omega arith)
graph_at-append (x ∷ a) b i zero e = absurd (omega arith)
graph_at-append (x ∷ a) b i (suc n) e = graph_at-append a b i n (omega arith)

all_blank_parts :
    (x : ℕ) (str : List ℕ)
    → all_blank none (x ∷ str) ≡ true
    → (is_graph x ≡ false) × (all_blank none str ≡ true)
unfolding all_blank ends_word
all_blank_parts x str h = elim (Bool-cases (is_graph x)) [
  | inl ink ↦ let no : false ≡ true = rw ink at h in cc
  | inr blank ↦ (blank, rw blank at h)
]

graph_at_blank : (b : List ℕ) (n i : ℕ) → all_blank none b ≡ true → graph_at (take n b) i ≡ false
unfolding graph_at
graph_at_blank b zero i h = refl
graph_at_blank [] (suc n) i h = refl
graph_at_blank (x ∷ b) (suc n) zero h = (all_blank_parts x b h).0
graph_at_blank (x ∷ b) (suc n) (suc i) h = graph_at_blank b n i (all_blank_parts x b h).1

take-append_more : (a b : List ℕ) (n k : ℕ) → n ≡ length a + k → take n (a ++ b) ≡ a ++ take k b
take-append_more [] b n k e = ap (λ t. take t b) (omega arith)
take-append_more (x ∷ a) b zero k e = absurd (omega arith)
take-append_more (x ∷ a) b (suc n) k e = ap (λ t. x ∷ t) (take-append_more a b n k (omega arith))

graph_at_here : (c : ℕ) → is_graph c ≡ true → graph_at (c ∷ []) 0 ≡ true
unfolding graph_at
graph_at_here c ink = ink

trim_loop_of :
    (str : List ℕ) → 0 < length str → xstrrtrim str ≡ some (rtrim_loop str (length str - 1))
unfolding xstrrtrim
trim_loop_of [] h = absurd (omega arith)
trim_loop_of (x ∷ str) h = ap (λ n. some (rtrim_loop (x ∷ str) n)) (omega arith)

rtrim_loop_lem :
    (front blanks : List ℕ) (c n i : ℕ)
    → is_graph c ≡ true
    → all_blank none blanks ≡ true
    → n ≤ length blanks
    → i ≡ length front + n
    → rtrim_loop ((front ++ (c ∷ [])) ++ take n blanks) i ≡ front ++ (c ∷ [])
unfolding rtrim_loop
rtrim_loop_lem front blanks c zero zero ink all room e = append-nil (front ++ (c ∷ []))
rtrim_loop_lem front blanks c zero (suc j) ink all room e =
    let stays : graph_at ((front ++ (c ∷ [])) ++ []) (suc j) ≡ true =
      ap (λ t. graph_at t (suc j)) (append-nil (front ++ (c ∷ [])))
      ∙ graph_at-append front (c ∷ []) 0 (suc j) (omega arith)
      ∙ graph_at_here c ink in
    rw stays (append-nil (front ++ (c ∷ [])))
rtrim_loop_lem front blanks c (suc m) zero ink all room e = absurd (omega arith)
rtrim_loop_lem front blanks c (suc m) (suc j) ink all room e =
    let kept = front ++ (c ∷ []) in
    let size : length kept ≡ length front + 1 = length-append front (c ∷ []) in
    let cuts : graph_at (kept ++ take (suc m) blanks) (suc j) ≡ false =
      graph_at-append kept (take (suc m) blanks) m (suc j) (omega (arith, size))
      ∙ graph_at_blank blanks (suc m) m all in
    let shorter : take (suc j) (kept ++ take (suc m) blanks) ≡ kept ++ take m blanks =
      take-append_more kept (take (suc m) blanks) (suc j) m (omega (arith, size))
      ∙ ap (λ t. kept ++ t) (take-take m (suc m) blanks (omega arith)) in
    rw (cuts, shorter) (rtrim_loop_lem front blanks c m j ink all (omega arith) (omega arith))

-- Trimming from the right keeps the string up to its last graphic character.
pub xstrrtrim_lem :
    (front blanks : List ℕ) (c : ℕ)
    → is_graph c ≡ true
    → all_blank none blanks ≡ true
    → xstrrtrim ((front ++ (c ∷ [])) ++ blanks) ≡ some (front ++ (c ∷ []))
xstrrtrim_lem front blanks c ink all =
    let kept = front ++ (c ∷ []) in
    let size : length kept ≡ length front + 1 = length-append front (c ∷ []) in
    let whole : length (kept ++ blanks) ≡ length kept + length blanks = length-append kept blanks in
    let trimmed =
      rtrim_loop_lem front blanks c (length blanks) (length (kept ++ blanks) - 1) ink all
        (omega arith) (omega (arith, size, whole)) in
    trim_loop_of (kept ++ blanks) (omega (arith, size, whole))
    ∙ ap (λ b. some (rtrim_loop (kept ++ b) (length (kept ++ blanks) - 1)))
        (sym (take_all blanks (length blanks) (omega arith)))
    ∙ ap some trimmed
