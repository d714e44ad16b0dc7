-- ===== src/Url/Tests.antt =====
-- Runs of the address parser. No code of its own.
use c_mx.Common.{none, some, [], ◌∷◌, arith, ◌≡◌, refl}
use c_mx.Libc.{has}
use c_mx.Url.{UrlParser, url_parse}
use c_mx.Url.Parts.{Parts, Fit, UserFits, PortFits, PathFits, text, part}
use c_mx.Url.RoundTrip.{url_parse_lem}

abbrev before : UrlParser
before = record {
  scheme = none;
  scheme_len = 1;
  userinfo = none;
  userinfo_len = 1;
  host = none;
  host_len = 1;
  port = none;
  port_len = 1;
  path = none;
  path_len = 1;
  query = none;
  query_len = 1;
}

-- ws://u@h.x:80/a/b?c
abbrev parts : Parts
parts = record {
  scheme = 119 ∷ 115 ∷ [];
  user = some (117 ∷ []);
  host = 104 ∷ 46 ∷ 120 ∷ [];
  port = some (56 ∷ 48 ∷ []);
  path = some (97 ∷ 47 ∷ 98 ∷ [], some (99 ∷ []));
}

parts-Fit : Fit parts
unfolding has UserFits PortFits PathFits
parts-Fit = record {
  scheme_ends = refl;
  user_ends = (refl, refl);
  some_host = omega arith;
  host_ends = (refl, refl);
  port_ends = refl;
  path_ends = refl;
  short = omega arith;
}

url_parse_lem_example :
    let r = url_parse before (text parts) in
    (part r.scheme r.scheme_len ≡ some (119 ∷ 115 ∷ []))
    × (part r.userinfo r.userinfo_len ≡ some (117 ∷ []))
    × ((part r.host r.host_len ≡ some (104 ∷ 46 ∷ 120 ∷ []))
        × (part r.port r.port_len ≡ some (56 ∷ 48 ∷ [])))
    × ((part r.path r.path_len ≡ some (47 ∷ 97 ∷ 47 ∷ 98 ∷ []))
        × (part r.query r.query_len ≡ some (99 ∷ [])))
url_parse_lem_example = url_parse_lem before parts parts-Fit
