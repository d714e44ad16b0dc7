-- ===== src/Url.antt =====
-- Addresses: source/url.c. A pointer into the address is the list of the characters from there to the
-- end (see Libc), so the difference of two pointers is one of lengths, as a `size_t`.
pub mod Parts
pub mod RoundTrip
mod Tests
use c_mx.Common.{
  ℕ, ◌+◌, ◌-◌, ◌%◌, ◌^◌, Bool, true, false, Option, none, some, List, [], ◌∷◌, length, drop, u64,
}
use c_mx.Common.{◌==◌, if◌then◌else◌}
use c_mx.Libc.{strchr, strstr, strncmp_equal}

-- `later - earlier`
pub ptr_sub : List ℕ → List ℕ → ℕ
ptr_sub later earlier = u64 (length earlier + 2 ^ 64 - length later)

-- `struct url_parser`
pub record UrlParser : Type 0 where
  pub scheme : Option (List ℕ)
  pub scheme_len : ℕ
  pub userinfo : Option (List ℕ)
  pub userinfo_len : ℕ
  pub host : Option (List ℕ)
  pub host_len : ℕ
  pub port : Option (List ℕ)
  pub port_len : ℕ
  pub path : Option (List ℕ)
  pub path_len : ℕ
  pub query : Option (List ℕ)
  pub query_len : ℕ

-- `struct url_scheme` and the table `schemes`: mqtts, mqtt, wss, ws.
pub record UrlScheme : Type 0 where
  pub name : List ℕ
  pub number : ℕ
  pub encrypted : Bool

pub schemes : List UrlScheme
schemes =
    record { name = 109 ∷ 113 ∷ 116 ∷ 116 ∷ 115 ∷ []; number = 8883; encrypted = true }
    ∷ record { name = 109 ∷ 113 ∷ 116 ∷ 116 ∷ []; number = 1883; encrypted = false }
    ∷ record { name = 119 ∷ 115 ∷ 115 ∷ []; number = 443; encrypted = true }
    ∷ record { name = 119 ∷ 115 ∷ []; number = 80; encrypted = false }
    ∷ []

pub find_scheme : List UrlScheme → List ℕ → Option (ℕ × Bool)
find_scheme [] scheme = none
find_scheme (s ∷ table) scheme =
    let rest = find_scheme table scheme in
    if strncmp_equal scheme s.name (length s.name) then some (s.number, s.encrypted) else rest

-- `url_parse_scheme`: the port and the encryption, or that there is no such scheme.
pub url_parse_scheme : List ℕ → Option (ℕ × Bool)
url_parse_scheme scheme = find_scheme schemes scheme

pub parse_query : UrlParser → List ℕ → Option (List ℕ) → UrlParser
parse_query parser path none = record parser { path_len = length path; query = none }
parse_query parser path (some question) = record parser {
  path_len = ptr_sub question path;
  query = some (drop 1 question);
  query_len = length (drop 1 question);
}

pub with_path : UrlParser → List ℕ → UrlParser
with_path parser path = parse_query (record parser { path = some path }) path (strchr path 63)

pub without_path : UrlParser → UrlParser
without_path parser = record parser { path = none; query = none }

-- The rest behind the host, by what the searches for `:` and for `/` found.
pub parse_port : UrlParser → List ℕ → Option (List ℕ) → Option (List ℕ) → UrlParser
parse_port parser host none none =
    without_path (record parser { port = none; host_len = length host })
parse_port parser host none (some slash) =
    with_path (record parser { port = none; host_len = ptr_sub slash host }) slash
parse_port parser host (some colon) none = without_path (record parser {
  host_len = ptr_sub colon host;
  port = some (drop 1 colon);
  port_len = length (drop 1 colon);
})
parse_port parser host (some colon) (some slash) =
    with_path
      (record parser {
        host_len = ptr_sub colon host;
        port = some (drop 1 colon);
        port_len = ptr_sub slash (drop 1 colon);
      })
      slash

pub parse_host : UrlParser → List ℕ → UrlParser
parse_host parser host =
    parse_port (record parser { host = some host }) host (strchr host 58) (strchr host 47)

pub parse_userinfo : UrlParser → List ℕ → Option (List ℕ) → UrlParser
parse_userinfo parser tmp none = parse_host (record parser { userinfo = none }) tmp
parse_userinfo parser tmp (some at) =
    parse_host (record parser { userinfo = some tmp; userinfo_len = ptr_sub at tmp }) (drop 1 at)

pub is_slash : List ℕ → Bool
is_slash [] = false
is_slash (c ∷ str) = c == 47

pub parse_rest : UrlParser → List ℕ → UrlParser
parse_rest parser tmp =
    if is_slash tmp
    then with_path (record parser { userinfo = none; host = none; port = none }) tmp
    else parse_userinfo parser tmp (strchr tmp 64)

pub parse_scheme : UrlParser → List ℕ → Option (List ℕ) → UrlParser
parse_scheme parser url none = parse_rest (record parser { scheme = none }) url
parse_scheme parser url (some colon) =
    parse_rest (record parser { scheme = some url; scheme_len = ptr_sub colon url }) (drop 3 colon)

-- `url_parse`, which returns true always: `parser` is what the structure held before.
pub url_parse : UrlParser → List ℕ → UrlParser
url_parse parser url = parse_scheme parser url (strstr url (58 ∷ 47 ∷ 47 ∷ []))
