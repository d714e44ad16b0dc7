-- ===== src/Url/RoundTrip.antt =====
-- An address put together from its parts is parsed into them.
use c_mx.Common.{ℕ, suc, ◌+◌, ◌<◌, ◌^◌, false, Option, none, some, List, [], ◌∷◌, ◌++◌, length}
use c_mx.Common.{take-append, length-append, append_assoc}
use c_mx.Common.{arith, ◌≡◌, refl, ap, ◌∙◌}
use c_mx.Libc.{has, strchr, strstr}
use c_mx.Libc.Laws.{has_not, strchr-append, strchr_here, strchr-none, strstr-append, strstr_here}
use c_mx.Url.{
  UrlParser, ptr_sub, url_parse, parse_scheme, parse_rest, parse_userinfo, parse_host, is_slash,
}
use c_mx.Url.Parts.{Parts, Fit, UserFits, text, part, host_text, user_text, port_text, path_text}
use c_mx.Url.Parts.{HostParsed, PathParsed, ptr_sub_lem, parse_host_lem}

-- What is parsed behind the scheme, which stays.
abbrev RestParsed : Parts → Option (List ℕ) → UrlParser → UrlParser → Type 0
RestParsed p user parser r =
    (part r.scheme r.scheme_len ≡ part parser.scheme parser.scheme_len)
    × (part r.userinfo r.userinfo_len ≡ user)
    × HostParsed p.host p.port r
    × PathParsed p.path r

parse_host-RestParsed :
    (p : Parts) (user : Option (List ℕ)) (parser parser' : UrlParser)
    → Fit p
    → part parser'.scheme parser'.scheme_len ≡ part parser.scheme parser.scheme_len
    → part parser'.userinfo parser'.userinfo_len ≡ user
    → length (host_text p) < 2 ^ 64
    → RestParsed p user parser (parse_host parser' (host_text p))
parse_host-RestParsed p user parser parser' fit same_scheme same_user short =
    let (same, parsed, path_parsed) =
      parse_host_lem parser' p.host p.port p.path fit.host_ends fit.port_ends fit.path_ends short in
    (
      ap (λ (t : Option (List ℕ) × ℕ × Option (List ℕ) × ℕ). part t.0 t.1) same ∙ same_scheme,
      ap (λ (t : Option (List ℕ) × ℕ × Option (List ℕ) × ℕ). part t.2 t.3) same ∙ same_user,
      parsed,
      path_parsed,
    )

no_slash_first :
    (str rest : List ℕ) → 0 < length str → has str 47 ≡ false → is_slash (str ++ rest) ≡ false
unfolding is_slash
no_slash_first [] rest some_left h = absurd (omega arith)
no_slash_first (x ∷ str) rest some_left h = (has_not x str 47 h).0

no_slash_in_user :
    (user rest : List ℕ) → has user 47 ≡ false → is_slash (user ++ (64 ∷ rest)) ≡ false
unfolding is_slash
no_slash_in_user [] rest h = refl
no_slash_in_user (x ∷ user) rest h = (has_not x user 47 h).0

parse_rest_lem :
    (p : Parts) (parser : UrlParser) (user : Option (List ℕ))
    → Fit p
    → UserFits user (host_text p)
    → length (user_text user ++ host_text p) < 2 ^ 64
    → RestParsed p user parser (parse_rest parser (user_text user ++ host_text p))
unfolding parse_userinfo parse_rest UserFits
parse_rest_lem p parser none fit user_fits short =
    rw
      (
        no_slash_first p.host (port_text p.port ++ path_text p.path) fit.some_host fit.host_ends.1,
        strchr-none (host_text p) 64 user_fits,
      )
      (parse_host-RestParsed p none parser (record parser { userinfo = none }) fit refl refl short)
parse_rest_lem p parser (some user) fit (no_at, no_slash) short =
    let behind = 64 ∷ host_text p in
    let tmp = user ++ behind in
    let shape : (user ++ (64 ∷ [])) ++ host_text p ≡ tmp =
      append_assoc user (64 ∷ []) (host_text p) in
    let found : strchr tmp 64 ≡ some behind =
      strchr-append user behind 64 no_at ∙ strchr_here 64 (host_text p) in
    let sizes : length tmp ≡ length user + suc (length (host_text p)) = length-append user behind in
    let short' : length tmp < 2 ^ 64 = omega (arith, ap length shape) in
    rw (shape, no_slash_in_user user (host_text p) no_slash, found)
      (parse_host-RestParsed p (some user) parser
        (record parser { userinfo = some tmp; userinfo_len = ptr_sub behind tmp }) fit refl
        (rw (ptr_sub_lem user behind short') (ap some (take-append user behind (length user) refl)))
        (omega (arith, sizes)))

-- An address `scheme://user@host:port/path?query`, of which only the scheme and a host that is not empty
-- have to be there, is parsed into its parts, and the parts that are not there are `NULL`. No part may
-- have a character that ends it, and without a user the rest may have no `@`, without a port the path and the query no `:`;
-- the address is shorter than 2^64.
pub url_parse_lem :
    (parser : UrlParser) (p : Parts)
    → Fit p
    → let r = url_parse parser (text p) in
      (part r.scheme r.scheme_len ≡ some p.scheme)
      × (part r.userinfo r.userinfo_len ≡ p.user)
      × HostParsed p.host p.port r
      × PathParsed p.path r
unfolding url_parse parse_scheme
url_parse_lem parser p fit =
    let rest = user_text p.user ++ host_text p in
    let mark : List ℕ = 58 ∷ 47 ∷ 47 ∷ [] in
    let found : strstr (text p) mark ≡ some (mark ++ rest) =
      strstr-append p.scheme (mark ++ rest) (47 ∷ 47 ∷ []) 58 fit.scheme_ends
      ∙ strstr_here mark rest in
    let sizes : length (text p) ≡ length p.scheme + suc (suc (suc (length rest))) =
      length-append p.scheme (mark ++ rest) in
    let short = fit.short in
    let (same, user, host, path) =
      parse_rest_lem p
        (record parser { scheme = some (text p); scheme_len = ptr_sub (mark ++ rest) (text p) })
        p.user fit fit.user_ends (omega (arith, sizes)) in
    let scheme : part (some (text p)) (ptr_sub (mark ++ rest) (text p)) ≡ some p.scheme =
      rw (ptr_sub_lem p.scheme (mark ++ rest) short)
        (ap some (take-append p.scheme (mark ++ rest) (length p.scheme) refl)) in
    rw found (same ∙ scheme, user, host, path)
