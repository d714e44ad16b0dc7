-- ===== src/Libc.antt =====
-- What several components call of C's standard library on strings, in the C locale.
-- A `char *` that points into a terminated string is the list of the characters from there up to the
-- terminator, as numbers from 1 to 255; `none` stands for `NULL`.
pub mod Laws
use Prim.Native.Char.{code}
use Prim.Native.String.{String}
use c_mx.Common.{
  ℕ, zero, suc, Bool, true, false, ltb, leb, Option, none, some, List, [], ◌∷◌, length, ◌==◌, ◌+◌,
}
use c_mx.Common.{if◌then◌else◌}

-- The characters of a literal.
abbrev pub codes : String → List ℕ
codes String.[] = []
codes (String.◌∷◌ c s) = code c ∷ codes s

-- `isgraph`
unfoldable pub is_graph : ℕ → Bool
is_graph c = if ltb 32 c then ltb c 127 else false

-- Is the character in the string?
unfoldable pub has : List ℕ → ℕ → Bool
has [] c = false
has (x ∷ str) c = if x == c then true else has str c

-- `strchr`, for a character that is not the terminator.
unfoldable pub strchr : List ℕ → ℕ → Option (List ℕ)
strchr [] c = none
strchr (x ∷ str) c = let rest = strchr str c in if x == c then some (x ∷ str) else rest

-- `strncmp(a, b, n) == 0`
unfoldable pub strncmp_equal : List ℕ → List ℕ → ℕ → Bool
strncmp_equal a b zero = true
strncmp_equal [] [] (suc n) = true
strncmp_equal [] (y ∷ b) (suc n) = false
strncmp_equal (x ∷ a) [] (suc n) = false
strncmp_equal (x ∷ a) (y ∷ b) (suc n) = if x == y then strncmp_equal a b n else false

-- `strcmp(a, b) == 0`
unfoldable pub strcmp_equal : List ℕ → List ℕ → Bool
strcmp_equal [] [] = true
strcmp_equal [] (y ∷ b) = false
strcmp_equal (x ∷ a) [] = false
strcmp_equal (x ∷ a) (y ∷ b) = if x == y then strcmp_equal a b else false

-- `strstr`
unfoldable pub strstr : List ℕ → List ℕ → Option (List ℕ)
strstr [] needle = if strncmp_equal [] needle (length needle) then some [] else none
strstr (x ∷ str) needle =
    let rest = strstr str needle in
    if strncmp_equal (x ∷ str) needle (length needle) then some (x ∷ str) else rest

-- `tolower`
pub tolower : ℕ → ℕ
tolower c = if (if ltb 64 c then ltb c 91 else false) then c + 32 else c

abbrev pub lowered : List ℕ → List ℕ
lowered [] = []
lowered (x ∷ str) = tolower x ∷ lowered str

-- `strcasecmp(a, b) == 0` and `strncasecmp(a, b, n) == 0`
pub strcasecmp_equal : List ℕ → List ℕ → Bool
strcasecmp_equal a b = strcmp_equal (lowered a) (lowered b)

pub strncasecmp_equal : List ℕ → List ℕ → ℕ → Bool
strncasecmp_equal a b n = strncmp_equal (lowered a) (lowered b) n

-- `memchr(bytes, 0, n)`, as the offset of the first zero among the first `n` bytes, which are there.
unfoldable pub memchr_zero : List ℕ → ℕ → Option ℕ
memchr_zero bytes zero = none
memchr_zero [] (suc n) = none
memchr_zero (x ∷ bytes) (suc n) =
    let rest = memchr_zero bytes n in
    if x == 0 then some 0 else elim rest [ none ↦ none | some i ↦ some (suc i) ]
