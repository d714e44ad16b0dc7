-- ===== src/Strings.antt =====
-- Strings: source/string.c. A string is the list of its characters up to the terminator (see Libc), and
-- memory is a list of bytes, where an access outside is `none`. The functions that only allocate and copy
-- (`xstrdup`, `xstrdupex`, `xstrmove`) return the same string, and have no definition here.
pub mod Copy
pub mod Trim
pub mod Nearest
pub mod Tokens
mod Tests
use c_mx.Common.{
  ℕ, zero, suc, ◌+◌, ◌-◌, Bool, true, false, not, Option, none, some, List, [], ◌∷◌, ◌++◌, length,
}
use c_mx.Common.{take, drop, get_elem?, ltb, leb, ◌==◌, if◌then◌else◌, Memory, memcpy, store, ◌>>=◌}
use c_mx.Libc.{is_graph, has, strchr, strncmp_equal, strcmp_equal, memchr_zero}

-- `xstrcpy`: `memory` with the string and its terminator from `dst` on, and the end of the string.
pub xstrcpy : Memory → ℕ → List ℕ → Option (Memory × ℕ)
xstrcpy memory dst src = do
  memory' ← memcpy memory dst (src ++ (0 ∷ [])) (length src + 1)
  some (memory', dst + length src)

zeros : ℕ → List ℕ
zeros zero = []
zeros (suc n) = 0 ∷ zeros n

-- `xstrncpy`, from memory of at least `maxlen` bytes or a string: also the offset that it returns.
pub xstrncpy : Memory → List ℕ → ℕ → Option (Memory × ℕ)
xstrncpy dst src maxlen = elim (memchr_zero src maxlen) [
  | some srclen ↦ do
    dst' ← memcpy dst 0 src srclen
    dst'' ← memcpy dst' srclen (zeros (maxlen - srclen)) (maxlen - srclen)
    some (dst'', srclen)
  | none ↦ do dst' ← memcpy dst 0 src maxlen; some (dst', maxlen)
]

-- `xstrlcpy`
pub xstrlcpy : Memory → List ℕ → ℕ → Option (Memory × ℕ)
xstrlcpy dst src size =
    let ret = length src in
    let len = if leb size ret then size - 1 else ret in
    let copied = memcpy dst 0 src len >>= λ dst'. store dst' len 0 in
    if size == 0 then some (dst, ret) else (copied >>= λ dst'. some (dst', ret))

-- `p ? (size_t)(p-str) : len`
pub found_or : Option ℕ → ℕ → ℕ
found_or none len = len
found_or (some at) len = at

-- `xstrndup`: the copy of the first `len` characters, or of the string where it is shorter.
pub xstrndup : List ℕ → ℕ → List ℕ
xstrndup src len = take (found_or (memchr_zero (src ++ (0 ∷ [])) len) len) src

-- The size that `xstrjoinex` allocates.
pub joined_size : List ℕ → List ℕ → Option (List ℕ) → ℕ
joined_size first second none = length first + length second + 1
joined_size first second (some third) = length first + length second + 1 + length third

-- `xstrjoinex`, in a block of `joined_size` bytes.
pub xstrjoinex : Memory → List ℕ → List ℕ → Option (List ℕ) → Option Memory
xstrjoinex buffer first second third = do
  copied ← xstrcpy buffer 0 first
  copied' ← xstrcpy copied.0 copied.1 second
  elim third [
    | none ↦ some copied'.0
    | some last ↦ do copied'' ← xstrcpy copied'.0 copied'.1 last; some copied''.0
  ]

pub xstrltrim : List ℕ → List ℕ
xstrltrim [] = []
xstrltrim (c ∷ str) = if is_graph c then c ∷ str else xstrltrim str

pub graph_at : List ℕ → ℕ → Bool
graph_at [] i = false
graph_at (c ∷ str) zero = is_graph c
graph_at (c ∷ str) (suc i) = graph_at str i

-- The loop of `xstrrtrim`: a terminator at `i` ends the string there.
pub rtrim_loop : List ℕ → ℕ → List ℕ
rtrim_loop str zero = str
rtrim_loop str (suc i) =
    let shorter = rtrim_loop (take (suc i) str) i in if graph_at str (suc i) then str else shorter

-- `xstrrtrim`. On an empty string its index is the largest `size_t`, and it reads outside of the string.
pub xstrrtrim : List ℕ → Option (List ℕ)
xstrrtrim [] = none
xstrrtrim (c ∷ str) = some (rtrim_loop (c ∷ str) (length str))

pub xstrstarts : List ℕ → List ℕ → Bool
xstrstarts str prefix =
    if ltb (length str) (length prefix) then false else strncmp_equal str prefix (length prefix)

pub xstrends : List ℕ → List ℕ → Bool
xstrends str postfix =
    if ltb (length str) (length postfix)
    then false
    else strcmp_equal (drop (length str - length postfix) str) postfix

-- `struct xstrtok`, without the buffer of the last token.
pub record Xstrtok : Type 0 where
  pub prev_chunk : Option (List ℕ)

pub xstrtok_new : List ℕ → Xstrtok
xstrtok_new original = record { prev_chunk = some original }

-- The nearer of two separators, by their addresses.
pub nearer : Option (List ℕ) → Option (List ℕ) → Option (List ℕ)
nearer separator none = separator
nearer none (some tmp) = some tmp
nearer (some separator) (some tmp) =
    if ltb (length separator) (length tmp) then some tmp else some separator

-- The loop of `xstrtok_next` over the separators.
pub nearest : List ℕ → List ℕ → Option (List ℕ) → Option (List ℕ)
nearest prev [] separator = separator
nearest prev (c ∷ separators) separator = nearest prev separators (nearer separator (strchr prev c))

pub next_token : List ℕ → Option (List ℕ) → Option (List ℕ) × Xstrtok
next_token prev none = (some prev, record { prev_chunk = none })
next_token prev (some separator) = (
  some (take (length prev - length separator) prev),
  record { prev_chunk = some (drop 1 separator) },
)

pub xstrtok_next : Xstrtok → List ℕ → Option (List ℕ) × Xstrtok
xstrtok_next tkzr separators = elim tkzr.prev_chunk [
  | none ↦ (none, tkzr)
  | some prev ↦ next_token prev (nearest prev separators none)
]

-- The tests of `xstr_word_len` and of `xstr_space_len`.
unfoldable pub ends_word : Option (List ℕ) → ℕ → Bool
ends_word none ch = not (is_graph ch)
ends_word (some space_chars) ch = has space_chars ch

pub xstr_word_len : List ℕ → Option (List ℕ) → ℕ
xstr_word_len [] space_chars = 0
xstr_word_len (ch ∷ str) space_chars =
    let rest = xstr_word_len str space_chars in if ends_word space_chars ch then 0 else rest + 1

pub xstr_space_len : List ℕ → Option (List ℕ) → ℕ
xstr_space_len [] space_chars = 0
xstr_space_len (ch ∷ str) space_chars =
    let rest = xstr_space_len str space_chars in if ends_word space_chars ch then rest + 1 else 0
