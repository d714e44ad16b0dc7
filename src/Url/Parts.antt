-- ===== src/Url/Parts.antt =====
-- The parts of an address, and what is parsed of them from the host on.
use c_mx.Common.{ℕ, suc, ◌+◌, ◌<◌, ◌^◌, false, Option, none, some, List, [], ◌∷◌, ◌++◌, length}
use c_mx.Common.{take, take-append, take_all, append-nil, subst, length-append}
use c_mx.Common.{arith, ◌≡◌, refl, sym, ap, ◌∙◌}
use c_mx.Libc.{has, strchr}
use c_mx.Libc.Laws.{has-append, strchr-append, strchr_here, strchr-none}
use c_mx.Url.{UrlParser, ptr_sub, parse_host, parse_port}
use c_mx.Url.{with_path, without_path, parse_query}

-- The characters that a pointer and a length give.
abbrev pub part : Option (List ℕ) → ℕ → Option (List ℕ)
part none n = none
part (some str) n = some (take n str)

-- The parts of an address: a path is what follows its first slash, and may have a query.
pub record Parts : Type 0 where
  pub scheme : List ℕ
  pub user : Option (List ℕ)
  pub host : List ℕ
  pub port : Option (List ℕ)
  pub path : Option (List ℕ × Option (List ℕ))

abbrev pub query_text : Option (List ℕ) → List ℕ
query_text none = []
query_text (some query) = 63 ∷ query

abbrev pub path_text : Option (List ℕ × Option (List ℕ)) → List ℕ
path_text none = []
path_text (some (path, query)) = 47 ∷ (path ++ query_text query)

abbrev pub port_text : Option (List ℕ) → List ℕ
port_text none = []
port_text (some port) = 58 ∷ port

abbrev pub host_text : Parts → List ℕ
host_text p = p.host ++ (port_text p.port ++ path_text p.path)

abbrev pub user_text : Option (List ℕ) → List ℕ
user_text none = []
user_text (some user) = user ++ (64 ∷ [])

-- scheme://user@host:port/path?query
abbrev pub text : Parts → List ℕ
text p = p.scheme ++ (58 ∷ 47 ∷ 47 ∷ (user_text p.user ++ host_text p))

-- What each part must not have, so that the parser finds the character that ends it. Without a user, no `@`
-- may come later, and without a port no `:`.
unfoldable pub UserFits : Option (List ℕ) → List ℕ → Type 0
UserFits none rest = has rest 64 ≡ false
UserFits (some user) rest = (has user 64 ≡ false) × (has user 47 ≡ false)

unfoldable pub PortFits : Option (List ℕ) → List ℕ → Type 0
PortFits none rest = has rest 58 ≡ false
PortFits (some port) rest = has port 47 ≡ false

unfoldable pub PathFits : Option (List ℕ × Option (List ℕ)) → Type 0
PathFits none = Unit
PathFits (some (path, query)) = has path 63 ≡ false

pub record Fit (p : Parts) : Type 0 where
  pub scheme_ends : has p.scheme 58 ≡ false
  pub user_ends : UserFits p.user (host_text p)
  pub some_host : 0 < length p.host
  pub host_ends : (has p.host 58 ≡ false) × (has p.host 47 ≡ false)
  pub port_ends : PortFits p.port (path_text p.path)
  pub path_ends : PathFits p.path
  pub short : length (text p) < 2 ^ 64

pub ptr_sub_lem : (a b : List ℕ) → length (a ++ b) < 2 ^ 64 → ptr_sub b (a ++ b) ≡ length a
unfolding ptr_sub
ptr_sub_lem a b h = omega (arith, length-append a b)

-- The fields that the parsing of a path leaves alone, and those that the parsing from the host on does.
abbrev before_path :
    UrlParser
    → Option (List ℕ) × ℕ × Option (List ℕ) × ℕ × Option (List ℕ) × ℕ × Option (List ℕ) × ℕ
before_path r =
    (r.scheme, r.scheme_len, r.userinfo, r.userinfo_len, r.host, r.host_len, r.port, r.port_len)

abbrev pub before_host : UrlParser → Option (List ℕ) × ℕ × Option (List ℕ) × ℕ
before_host r = (r.scheme, r.scheme_len, r.userinfo, r.userinfo_len)

abbrev pub PathParsed : Option (List ℕ × Option (List ℕ)) → UrlParser → Type 0
PathParsed none r = (part r.path r.path_len ≡ none) × (part r.query r.query_len ≡ none)
PathParsed (some (path, query)) r =
    (part r.path r.path_len ≡ some (47 ∷ path)) × (part r.query r.query_len ≡ query)

parse_query_keeps :
    (parser : UrlParser) (path : List ℕ) (o : Option (List ℕ))
    → before_path (parse_query parser path o) ≡ before_path parser
unfolding parse_query
parse_query_keeps parser path none = refl
parse_query_keeps parser path (some question) = refl

with_path_keeps :
    (parser : UrlParser) (path : List ℕ) → before_path (with_path parser path) ≡ before_path parser
unfolding with_path
with_path_keeps parser path =
    parse_query_keeps (record parser { path = some path }) path (strchr path 63)

whole_part : (a : List ℕ) → take (length (a ++ [])) (a ++ []) ≡ a
whole_part a = take_all (a ++ []) (length (a ++ [])) (omega arith) ∙ append-nil a

with_path_lem :
    (parser : UrlParser) (path : List ℕ) (query : Option (List ℕ))
    → has path 63 ≡ false
    → length (path_text (some (path, query))) < 2 ^ 64
    → PathParsed (some (path, query)) (with_path parser (path_text (some (path, query))))
unfolding with_path parse_query has
with_path_lem parser path none h short =
    let absent : strchr (47 ∷ (path ++ [])) 63 ≡ none =
      strchr-none (47 ∷ (path ++ [])) 63 (has-append path [] 63 h refl) in
    rw absent (ap some (whole_part (47 ∷ path)), refl)
with_path_lem parser path (some query) h short =
    let slashed = 47 ∷ path in
    let found : strchr (slashed ++ (63 ∷ query)) 63 ≡ some (63 ∷ query) =
      strchr-append slashed (63 ∷ query) 63 h ∙ strchr_here 63 query in
    rw (found, ptr_sub_lem slashed (63 ∷ query) short)
      (
        ap some (take-append slashed (63 ∷ query) (length slashed) refl),
        ap some (take_all query (length query) (omega arith)),
      )

colon_lem :
    (host rest port : List ℕ)
    → has host 58 ≡ false
    → strchr (host ++ (58 ∷ (port ++ rest))) 58 ≡ some (58 ∷ (port ++ rest))
colon_lem host rest port h =
    strchr-append host (58 ∷ (port ++ rest)) 58 h ∙ strchr_here 58 (port ++ rest)

port_text_lem :
    (port : Option (List ℕ)) (rest : List ℕ) → PortFits port rest → has (port_text port) 47 ≡ false
unfolding PortFits has
port_text_lem none rest h = refl
port_text_lem (some port) rest h = h

slash_lem :
    (host rest : List ℕ) (port : Option (List ℕ))
    → has host 47 ≡ false
    → has (port_text port) 47 ≡ false
    → strchr (host ++ (port_text port ++ rest)) 47 ≡ strchr rest 47
slash_lem host rest port h k =
    strchr-append host (port_text port ++ rest) 47 h ∙ strchr-append (port_text port) rest 47 k

-- What is parsed from the host on.
abbrev pub HostParsed : List ℕ → Option (List ℕ) → UrlParser → Type 0
HostParsed host port r = (part r.host r.host_len ≡ some host) × (part r.port r.port_len ≡ port)

with_path-HostParsed :
    (parser parser' : UrlParser) (host path : List ℕ) (port query : Option (List ℕ))
    → before_host parser' ≡ before_host parser
    → HostParsed host port parser'
    → has path 63 ≡ false
    → length (path_text (some (path, query))) < 2 ^ 64
    → let r = with_path parser' (path_text (some (path, query))) in
      (before_host r ≡ before_host parser)
      × HostParsed host port r
      × PathParsed (some (path, query)) r
with_path-HostParsed parser parser' host path port query same parsed path_fits short =
    let tail = path_text (some (path, query)) in
    let (same', parsed') =
      subst
        (λ (t : Option (List ℕ)
            × ℕ
            × Option (List ℕ)
            × ℕ
            × Option (List ℕ)
            × ℕ
            × Option (List ℕ)
            × ℕ).
          ((t.0, t.1, t.2, t.3) ≡ before_host parser)
          × ((part t.4 t.5 ≡ some host) × (part t.6 t.7 ≡ port)))
        (sym (with_path_keeps parser' tail)) (same, parsed) in
    (same', parsed', with_path_lem parser' path query path_fits short)

pub parse_host_lem :
    (parser : UrlParser) (host : List ℕ) (port : Option (List ℕ))
    (path : Option (List ℕ × Option (List ℕ)))
    → (has host 58 ≡ false) × (has host 47 ≡ false)
    → PortFits port (path_text path)
    → PathFits path
    → length (host ++ (port_text port ++ path_text path)) < 2 ^ 64
    → let r = parse_host parser (host ++ (port_text port ++ path_text path)) in
      (before_host r ≡ before_host parser) × HostParsed host port r × PathParsed path r
unfolding parse_host parse_port without_path PortFits PathFits strchr
parse_host_lem parser host none none (no_colon, no_slash) port_fits path_fits short =
    let colon = strchr-none (host ++ []) 58 (has-append host [] 58 no_colon port_fits) in
    let slash = slash_lem host [] none no_slash (port_text_lem none [] port_fits) in
    rw (colon, slash) (refl, (ap some (whole_part host), refl), (refl, refl))
parse_host_lem parser host none (some (path, query)) (no_colon, no_slash) port_fits path_fits
      short =
    let tail = path_text (some (path, query)) in
    let colon = strchr-none (host ++ tail) 58 (has-append host tail 58 no_colon port_fits) in
    let slash =
      slash_lem host tail none no_slash (port_text_lem none tail port_fits)
      ∙ strchr_here 47 (path ++ query_text query) in
    rw (colon, slash)
      (with_path-HostParsed parser
        (record parser {
          host = some (host ++ tail);
          port = none;
          host_len = ptr_sub tail (host ++ tail);
        })
        host path none query refl
        (rw (ptr_sub_lem host tail short)
          (ap some (take-append host tail (length host) refl), refl))
        path_fits (omega (arith, length-append host tail)))
parse_host_lem parser host (some port) none (no_colon, no_slash) port_fits path_fits short =
    let colon = colon_lem host [] port no_colon in
    let slash = slash_lem host [] (some port) no_slash (port_text_lem (some port) [] port_fits) in
    let behind = 58 ∷ (port ++ []) in
    rw (colon, slash, ptr_sub_lem host behind short)
      (
        refl,
        (ap some (take-append host behind (length host) refl), ap some (whole_part port)),
        (refl, refl),
      )
parse_host_lem parser host (some port) (some (path, query)) (no_colon, no_slash) port_fits path_fits
      short =
    let tail = path_text (some (path, query)) in
    let behind = 58 ∷ (port ++ tail) in
    let colon = colon_lem host tail port no_colon in
    let slash =
      slash_lem host tail (some port) no_slash (port_text_lem (some port) tail port_fits)
      ∙ strchr_here 47 (path ++ query_text query) in
    let sizes : length (host ++ behind) ≡ length host + suc (length (port ++ tail)) =
      length-append host behind in
    rw (colon, slash)
      (with_path-HostParsed parser
        (record parser {
          host = some (host ++ behind);
          host_len = ptr_sub behind (host ++ behind);
          port = some (port ++ tail);
          port_len = ptr_sub tail (port ++ tail);
        })
        host path (some port) query refl
        (rw (ptr_sub_lem host behind short, ptr_sub_lem port tail (omega (arith, sizes)))
          (
            ap some (take-append host behind (length host) refl),
            ap some (take-append port tail (length port) refl),
          ))
        path_fits (omega (arith, sizes, length-append port tail)))
