-- ===== src/Strings/Nearest.antt =====
-- The nearest separator, as one pass over the string finds it.
use c_mx.Common.{ℕ, suc, ◌≤◌, true, false, Option, none, some, List, [], ◌∷◌, length}
use c_mx.Common.{
  ltb, ◌==◌, if◌then◌else◌, le→ltb, lt→ltb, Option-cases, inl, inr, Bool-cases, arith, ◌≡◌, refl,
  ap, ◌∙◌,
}
use c_mx.Libc.{has, strchr}
use c_mx.Libc.Laws.{has_not}
use c_mx.Strings.{nearest, nearer}

-- From the first separator on.
unfoldable pub scan : List ℕ → List ℕ → Option (List ℕ)
scan separators [] = none
scan separators (x ∷ str) =
    let rest = scan separators str in if has separators x then some (x ∷ str) else rest

strchr_short : (str : List ℕ) (c : ℕ) (t : List ℕ) → strchr str c ≡ some t → length t ≤ length str
unfolding strchr
strchr_short [] c t e = cc
strchr_short (x ∷ str) c t e = elim (Bool-cases (x == c)) [
  | inl here ↦
      let found : some (x ∷ str) ≡ some t = rw here at e in
      omega (arith, ap {B = ℕ} (λ o. elim o [ none ↦ 0 | some u ↦ length u ]) found)
  | inr later ↦ omega (arith, strchr_short str c t (rw later at e))
]

-- Nothing is nearer than the beginning.
nearest_here : (str separators : List ℕ) → nearest str separators (some str) ≡ some str
unfolding nearest nearer
nearest_here str [] = refl
nearest_here str (c ∷ separators) = elim (Option-cases (strchr str c)) [
  | inl absent ↦ rw absent (nearest_here str separators)
  | inr (t, found) ↦
      let far : ltb (length str) (length t) ≡ false =
        le→ltb (length str) (length t) (strchr_short str c t found) in
      rw (found, far) (nearest_here str separators)
]

-- A separator that comes later, if there is one.
Later : List ℕ → Option (List ℕ) → Type 0
Later str none = Unit
Later str (some t) = length t ≤ length str

nearer-Later :
    (str : List ℕ) (o p : Option (List ℕ)) → Later str o → Later str p → Later str (nearer o p)
unfolding Later nearer
nearer-Later str none none h k = tt
nearer-Later str (some t) none h k = h
nearer-Later str none (some u) h k = k
nearer-Later str (some t) (some u) h k = elim (Bool-cases (ltb (length t) (length u))) [
  | inl closer ↦ rw closer k
  | inr far ↦ rw far h
]

strchr-Later : (str : List ℕ) (c : ℕ) → Later str (strchr str c)
unfolding Later
strchr-Later str c = elim (Option-cases (strchr str c)) [
  | inl absent ↦ rw absent tt
  | inr (t, found) ↦ rw found (strchr_short str c t found)
]

nearer_first :
    (x : ℕ) (str : List ℕ) (o : Option (List ℕ))
    → Later str o
    → nearer o (some (x ∷ str)) ≡ some (x ∷ str)
unfolding Later nearer
nearer_first x str none h = refl
nearer_first x str (some t) h =
    let closer : ltb (length t) (suc (length str)) ≡ true =
      lt→ltb (length t) (suc (length str)) (omega arith) in
    rw closer refl

nearest_found :
    (x : ℕ) (str separators : List ℕ) (o : Option (List ℕ))
    → has separators x ≡ true
    → Later str o
    → nearest (x ∷ str) separators o ≡ some (x ∷ str)
unfolding has nearest strchr
nearest_found x str [] o h later = cc
nearest_found x str (c ∷ separators) o h later = elim (Bool-cases (c == x)) [
  | inl same ↦
      let here : (x == c) ≡ true = ground (arith, same) in
      rw (here, nearer_first x str o later) (nearest_here (x ∷ str) separators)
  | inr differs ↦
      let not_here : (x == c) ≡ false = ground (arith, differs) in
      rw not_here (
        nearest_found x str separators (nearer o (strchr str c)) (rw differs at h)
          (nearer-Later str o (strchr str c) later (strchr-Later str c)))
]

nearest_skip :
    (x : ℕ) (str separators : List ℕ) (o : Option (List ℕ))
    → has separators x ≡ false
    → nearest (x ∷ str) separators o ≡ nearest str separators o
unfolding has nearest strchr
nearest_skip x str [] o h = refl
nearest_skip x str (c ∷ separators) o h =
    let (differs, others) = has_not c separators x h in
    let not_here : (x == c) ≡ false = ground (arith, differs) in
    rw not_here (nearest_skip x str separators (nearer o (strchr str c)) others)

nearest-none : (separators : List ℕ) → nearest [] separators none ≡ none
unfolding nearest nearer strchr
nearest-none [] = refl
nearest-none (c ∷ separators) = nearest-none separators

pub nearest-scan : (str separators : List ℕ) → nearest str separators none ≡ scan separators str
unfolding scan Later
nearest-scan [] separators = nearest-none separators
nearest-scan (x ∷ str) separators = elim (Bool-cases (has separators x)) [
  | inl here ↦ rw here (nearest_found x str separators none here tt)
  | inr later ↦ rw later (nearest_skip x str separators none later ∙ nearest-scan str separators)
]
