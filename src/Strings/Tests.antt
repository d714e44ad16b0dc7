-- ===== src/Strings/Tests.antt =====
-- Runs of the string functions on concrete strings. No code of its own.
use c_mx.Common.{ℕ, some, List, [], ◌∷◌, arith, ◌≡◌, refl}
use c_mx.Strings.{xstrtok_new, xstrlcpy, xstrjoinex, xstrrtrim, xstrstarts, joined_size}
use c_mx.Strings.Tokens.{tokens, split, join, tokens-split, join-tokens}
use c_mx.Strings.Copy.{xstrlcpy_lem, xstrjoinex_lem}
use c_mx.Strings.Trim.{xstrrtrim_lem}
use c_mx.Libc.{is_graph, has}

-- "a,b;;c"
abbrev line : List ℕ
line = 97 ∷ 44 ∷ 98 ∷ 59 ∷ 59 ∷ 99 ∷ []

tokens-split_example : tokens 8 (xstrtok_new line) (44 ∷ 59 ∷ []) ≡ some (split (44 ∷ 59 ∷ []) line)
tokens-split_example = tokens-split 8 line (44 ∷ 59 ∷ []) (omega arith)

split-line : split (44 ∷ 59 ∷ []) line ≡ (97 ∷ []) ∷ (98 ∷ []) ∷ [] ∷ (99 ∷ []) ∷ []
unfolding split has
split-line = refl

join-tokens_example :
    (chunks : List (List ℕ)) × (tokens 8 (xstrtok_new line) (59 ∷ []) ≡ some chunks)
    × (join 59 chunks ≡ line)
join-tokens_example = join-tokens 8 59 line (omega arith)

xstrlcpy_lem_example : xstrlcpy (1 ∷ 2 ∷ 3 ∷ 4 ∷ []) line 3 ≡ some (97 ∷ 44 ∷ 0 ∷ 4 ∷ [], 6)
xstrlcpy_lem_example = xstrlcpy_lem (1 ∷ 2 ∷ 3 ∷ 4 ∷ []) line 3 (omega arith)

xstrjoinex_lem_example :
    xstrjoinex (7 ∷ 7 ∷ 7 ∷ 7 ∷ 7 ∷ []) (97 ∷ []) (98 ∷ []) (some (99 ∷ 100 ∷ []))
    ≡ some (97 ∷ 98 ∷ 99 ∷ 100 ∷ 0 ∷ [])
unfolding joined_size
xstrjoinex_lem_example =
    xstrjoinex_lem (7 ∷ 7 ∷ 7 ∷ 7 ∷ 7 ∷ []) (97 ∷ []) (98 ∷ []) (some (99 ∷ 100 ∷ [])) refl

xstrrtrim_lem_example : xstrrtrim (97 ∷ 32 ∷ 98 ∷ 32 ∷ 9 ∷ []) ≡ some (97 ∷ 32 ∷ 98 ∷ [])
unfolding is_graph c_mx.Strings.Trim.all_blank c_mx.Strings.ends_word
xstrrtrim_lem_example = xstrrtrim_lem (97 ∷ 32 ∷ []) (32 ∷ 9 ∷ []) 98 refl refl
