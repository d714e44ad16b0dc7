-- ===== src/Libc/Laws.antt =====
-- Searching in a string that is made of parts, and comparing with one of them.
use c_mx.Common.{ℕ, true, false, none, some, List, [], ◌∷◌, ◌++◌, length, ◌==◌}
use c_mx.Common.{inl, inr, Bool-cases, arith, ◌≡◌, refl}
use c_mx.Libc.{has, strchr, strncmp_equal, strstr}

-- `has (x ∷ str) c` is false: both parts.
pub has_not :
    (x : ℕ) (str : List ℕ) (c : ℕ)
    → has (x ∷ str) c ≡ false
    → ((x == c) ≡ false) × (has str c ≡ false)
unfolding has
has_not x str c h = elim (Bool-cases (x == c)) [
  | inl e ↦ let found : has (x ∷ str) c ≡ true = rw e refl in cc
  | inr e ↦ (e, rw e at h)
]

pub has-append : (a b : List ℕ) (c : ℕ) → has a c ≡ false → has b c ≡ false → has (a ++ b) c ≡ false
unfolding has
has-append [] b c p q = q
has-append (x ∷ a) b c p q =
    let (differs, others) = has_not x a c p in rw differs (has-append a b c others q)

-- The first occurrence is behind a part that does not have the character.
pub strchr-append : (a b : List ℕ) (c : ℕ) → has a c ≡ false → strchr (a ++ b) c ≡ strchr b c
unfolding strchr
strchr-append [] b c h = refl
strchr-append (x ∷ a) b c h =
    let (differs, others) = has_not x a c h in rw differs (strchr-append a b c others)

pub strchr_here : (c : ℕ) (b : List ℕ) → strchr (c ∷ b) c ≡ some (c ∷ b)
unfolding strchr
strchr_here c b = let same : (c == c) ≡ true = ground arith in rw same refl

pub strchr-none : (str : List ℕ) (c : ℕ) → has str c ≡ false → strchr str c ≡ none
unfolding strchr
strchr-none [] c h = refl
strchr-none (x ∷ str) c h =
    let (differs, others) = has_not x str c h in rw differs (strchr-none str c others)

pub strncmp_equal-append : (a b : List ℕ) → strncmp_equal (a ++ b) a (length a) ≡ true
unfolding strncmp_equal
strncmp_equal-append [] b = refl
strncmp_equal-append (x ∷ a) b =
    let same : (x == x) ≡ true = ground arith in rw same (strncmp_equal-append a b)

-- A needle is not found before its first character is.
pub strstr-append :
    (a b needle : List ℕ) (c : ℕ)
    → has a c ≡ false
    → strstr (a ++ b) (c ∷ needle) ≡ strstr b (c ∷ needle)
unfolding strstr strncmp_equal
strstr-append [] b needle c h = refl
strstr-append (x ∷ a) b needle c h =
    let (differs, others) = has_not x a c h in rw differs (strstr-append a b needle c others)

pub strstr_here : (needle b : List ℕ) → strstr (needle ++ b) needle ≡ some (needle ++ b)
unfolding strstr strncmp_equal
strstr_here [] [] = refl
strstr_here [] (y ∷ b) = refl
strstr_here (x ∷ needle) b = rw (strncmp_equal-append (x ∷ needle) b) refl
