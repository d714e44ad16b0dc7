-- ===== src/Strings/Tokens.antt =====
-- The tokenizer: all its tokens are what one pass over the string splits it into.
use c_mx.Common.{ℕ, zero, suc, ◌+◌, ◌-◌, ◌≤◌, ◌<◌, Option, none, some, List, [], ◌∷◌, ◌++◌, length}
use c_mx.Common.{
  take, drop, length-drop, subst, ◌==◌, if◌then◌else◌, Option-cases, inl, inr, Bool-cases, arith,
  ◌≡◌, refl, sym, ap, ◌∙◌,
}
use c_mx.Libc.{has}
use c_mx.Strings.{Xstrtok, xstrtok_new, xstrtok_next, next_token}
use c_mx.Strings.Nearest.{scan, nearest-scan}

collect : Option (List ℕ) → Option (List (List ℕ)) → Option (List (List ℕ))
collect none rest = some []
collect (some chunk) none = none
collect (some chunk) (some chunks) = some (chunk ∷ chunks)

-- What calling `xstrtok_next` until it returns `NULL` gives, on fuel.
pub tokens : ℕ → Xstrtok → List ℕ → Option (List (List ℕ))
tokens zero tkzr separators = none
tokens (suc fuel) tkzr separators =
    collect (xstrtok_next tkzr separators).0
      (tokens fuel (xstrtok_next tkzr separators).1 separators)

abbrev pub put_front : ℕ → List (List ℕ) → List (List ℕ)
put_front x [] = (x ∷ []) ∷ []
put_front x (chunk ∷ chunks) = (x ∷ chunk) ∷ chunks

-- The reference: the string cut at each separator, which belongs to no part.
unfoldable pub split : List ℕ → List ℕ → List (List ℕ)
split separators [] = [] ∷ []
split separators (x ∷ str) =
    let rest = split separators str in if has separators x then [] ∷ rest else put_front x rest

split-scan-none :
    (str separators : List ℕ) → scan separators str ≡ none → split separators str ≡ str ∷ []
unfolding scan split
split-scan-none [] separators h = refl
split-scan-none (x ∷ str) separators h = elim (Bool-cases (has separators x)) [
  | inl here ↦ let found : some (x ∷ str) ≡ none = rw here at h in cc
  | inr later ↦ rw (later, split-scan-none str separators (rw later at h)) refl
]

-- The string is cut in front of the first separator.
abbrev CutAt : List ℕ → List ℕ → List ℕ → Type 0
CutAt separators str t =
    (split separators str ≡ take (length str - length t) str ∷ split separators (drop 1 t))
    × (length t ≤ length str)
    × (0 < length t)

split-scan-some :
    (str separators t : List ℕ) → scan separators str ≡ some t → CutAt separators str t
unfolding scan split
split-scan-some [] separators t h = cc
split-scan-some (x ∷ str) separators t h = elim (Bool-cases (has separators x)) [
  | inl here ↦
      let found : some (x ∷ str) ≡ some t = rw here at h in
      let cut : CutAt separators (x ∷ str) (x ∷ str) = (
        rw here (ap (λ n. take n (x ∷ str) ∷ split separators str) {x = 0} (omega arith)),
        omega arith,
        omega arith,
      ) in
      let same : x ∷ str ≡ t = cc in subst (λ u. CutAt separators (x ∷ str) u) same cut
  | inr later ↦
      let (cut, less, some_left) = split-scan-some str separators t (rw later at h) in
      (
        rw (later, cut)
            (ap (λ n. take n (x ∷ str) ∷ split separators (drop 1 t))
              {x = suc (length str - length t)} (omega arith)),
        omega arith,
        some_left,
      )
]

next_lem :
    (str separators : List ℕ)
    → xstrtok_next (record { prev_chunk = some str }) separators
      ≡ next_token str (scan separators str)
unfolding xstrtok_next
next_lem str separators = ap (next_token str) (nearest-scan str separators)

tokens_end :
    (fuel : ℕ) (separators : List ℕ)
    → tokens (suc fuel) (record { prev_chunk = none }) separators ≡ some []
unfolding tokens xstrtok_next collect
tokens_end fuel separators = refl

tokens_from :
    (fuel : ℕ) (str separators : List ℕ)
    → length str + 2 ≤ fuel
    → tokens fuel (record { prev_chunk = some str }) separators ≡ some (split separators str)
unfolding tokens next_token collect
tokens_from zero str separators enough = absurd (omega arith)
tokens_from (suc zero) str separators enough = absurd (omega arith)
tokens_from (suc (suc fuel)) str separators enough = elim (Option-cases (scan separators str)) [
  | inl absent ↦
      rw (next_lem str separators, absent, tokens_end fuel separators)
        (ap some (sym (split-scan-none str separators absent)))
  | inr (t, found) ↦
      let (cut, less, some_left) = split-scan-some str separators t found in
      rw
        (
          next_lem str separators,
          found,
          tokens_from (suc fuel) (drop 1 t) separators (omega (arith, length-drop 1 t)),
        )
        (ap some (sym cut))
]

-- With two more calls than characters, `xstrtok_next` has returned all tokens and then `NULL`, and the tokens
-- are what one pass over the string splits it into: cut at every separator, and nowhere else.
pub tokens-split :
    (fuel : ℕ) (str separators : List ℕ)
    → length str + 2 ≤ fuel
    → tokens fuel (xstrtok_new str) separators ≡ some (split separators str)
unfolding xstrtok_new
tokens-split fuel str separators enough = tokens_from fuel str separators enough

-- The tokens, put together with a character between them.
pub join : ℕ → List (List ℕ) → List ℕ
join c [] = []
join c (chunk ∷ []) = chunk
join c (chunk ∷ (next ∷ chunks)) = chunk ++ (c ∷ join c (next ∷ chunks))

join-put_front :
    (c x : ℕ) (chunk : List ℕ) (chunks : List (List ℕ))
    → join c (put_front x (chunk ∷ chunks)) ≡ x ∷ join c (chunk ∷ chunks)
unfolding join
join-put_front c x chunk [] = refl
join-put_front c x chunk (next ∷ chunks) = refl

join-split :
    (c : ℕ) (str : List ℕ)
    → (chunk : List ℕ) × (chunks : List (List ℕ)) × (split (c ∷ []) str ≡ chunk ∷ chunks)
      × (join c (chunk ∷ chunks) ≡ str)
unfolding split join has
join-split c [] = ([], [], refl, refl)
join-split c (x ∷ str) =
    let (chunk, chunks, cut, joined) = join-split c str in
    elim (Bool-cases (c == x)) [
      | inl here ↦
          let same : c ≡ x = ground (arith, here) in
          (
            [],
            chunk ∷ chunks,
            rw (here, cut) refl,
            ap (λ (t : ℕ). t ∷ join c (chunk ∷ chunks)) same ∙ ap (λ t. x ∷ t) joined,
          )
      | inr later ↦ (
        x ∷ chunk,
        chunks,
        rw (later, cut) refl,
        join-put_front c x chunk chunks ∙ ap (λ t. x ∷ t) joined,
      )
    ]

-- With one separator, the tokens joined by it are the string that was given: no character is lost, and empty tokens
-- are kept.
pub join-tokens :
    (fuel c : ℕ) (str : List ℕ)
    → length str + 2 ≤ fuel
    → (chunks : List (List ℕ)) × (tokens fuel (xstrtok_new str) (c ∷ []) ≡ some chunks)
      × (join c chunks ≡ str)
join-tokens fuel c str enough =
    let (chunk, chunks, cut, joined) = join-split c str in
    (chunk ∷ chunks, tokens-split fuel str (c ∷ []) enough ∙ ap some cut, joined)
