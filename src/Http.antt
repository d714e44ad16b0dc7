-- ===== src/Http.antt =====
-- HTTP messages: source/http.c and include/mx/http.h. A text is the list of its characters (see Libc), the
-- body's buffer the list of its bytes, and the list of headers has the newest first.
-- Sizes are below 2^31, so that the casts to `int` keep them.
pub mod Parse
pub mod Serialize
mod Tests
use c_mx.Common.{
  ℕ, zero, suc, ◌+◌, ◌-◌, ◌/◌, ◌%◌, ◌^◌, Bool, true, false, not, Option, none, some, List, [], ◌∷◌,
  ◌++◌,
}
use c_mx.Common.{length, take, drop, ltb, leb, ◌==◌, if◌then◌else◌, ◌>>=◌, Memory, memcpy, u64}
use c_mx.Libc.{codes, has, strchr, strstr, strcasecmp_equal, strncasecmp_equal}
use c_mx.Strings.{xstrltrim, xstrrtrim, xstr_word_len, xstr_space_len, xstrndup}

-- `HTTP_WHITESPACE_CHARS`, `HTTP_LINE_END`, `HTTP_HEADERS_END`
abbrev pub blanks : Option (List ℕ)
blanks = some (codes " \t")

abbrev pub line_end : List ℕ
line_end = codes "\r\n"

abbrev pub headers_end : List ℕ
headers_end = codes "\r\n\r\n"

-- What `http_view_parse` stores: the three words of the first line, of which the later ones may be
-- missing, the headers and the body.
pub record View : Type 0 where
  pub first : List ℕ
  pub second : Option (List ℕ)
  pub third : Option (List ℕ)
  pub headers : List ℕ
  pub body : List ℕ

pub behind_blank : Option (List ℕ) → Option (List ℕ)
behind_blank none = none
behind_blank (some text) = elim (strchr text 32) [ none ↦ none | some rest ↦ some (xstrltrim rest) ]

unfoldable pub or_nothing : Option (List ℕ) → List ℕ
or_nothing none = []
or_nothing (some text) = text

-- `http_view_parse`, or that more data is needed.
pub http_view_parse : List ℕ → Option View
http_view_parse buffer = elim (strstr buffer headers_end) [
  | none ↦ none
  | some end ↦
      let first = xstrltrim buffer in
      let second = behind_blank (some first) in
      some (record {
        first = first;
        second = second;
        third = behind_blank second;
        headers = drop 2 (or_nothing (strstr buffer line_end));
        body = drop 4 end;
      })
]

-- The line at the beginning of the headers, without the blanks in front of it: its text, its length, and what
-- follows its end; or that it has no end.
pub record Line : Type 0 where
  pub start : List ℕ
  pub size : ℕ
  pub rest : List ℕ

pub line_at : List ℕ → Option Line
line_at headers =
    let start = drop (xstr_space_len headers blanks) headers in
    elim (strstr start line_end) [
      | none ↦ none
      | some end ↦
          some (record { start = start; size = length start - length end; rest = drop 2 end })
    ]

-- The value behind the name of a header, if a colon follows it.
pub value_behind : List ℕ → Option (List ℕ)
value_behind behind_name = elim (drop (xstr_space_len behind_name blanks) behind_name) [
  | [] ↦ none
  | c ∷ value ↦ if c == 58 then some (drop (xstr_space_len value blanks) value) else none
]

-- The loop of `http_header_find`, on fuel: one round for each line.
pub find_loop : ℕ → List ℕ → List ℕ → Option (List ℕ)
find_loop zero headers name = none
find_loop (suc fuel) headers name = line_at headers >>= λ line.
    let later = find_loop fuel line.rest name in
    if line.size == 0
    then none
    else if strncasecmp_equal line.start name (length name)
    then value_behind (drop (length name) line.start)
    else later

-- `http_header_find`: the value found, if any. A line has two characters at least.
pub http_header_find : List ℕ → List ℕ → Option (List ℕ)
http_header_find headers name = find_loop (length headers + 1) headers name

-- `struct http_header`
pub record HttpHeader : Type 0 where
  pub name : List ℕ
  pub value : Option (List ℕ)

-- `struct http_msg`
pub record HttpMsg : Type 0 where
  pub method : Option (List ℕ)
  pub uri : Option (List ℕ)
  pub version : Option (List ℕ)
  pub status : ℕ
  pub reason : Option (List ℕ)
  pub headers : List HttpHeader
  pub body : Option (List ℕ)

pub http_msg_init : HttpMsg
http_msg_init = record {
  method = none;
  uri = none;
  version = none;
  status = 0;
  reason = none;
  headers = [];
  body = none;
}

pub http_msg_new_request : List ℕ → List ℕ → List ℕ → HttpMsg
http_msg_new_request method uri version = record http_msg_init {
  method = some method;
  uri = some uri;
  version = some version;
}

pub http_msg_new_response : List ℕ → ℕ → List ℕ → HttpMsg
http_msg_new_response version status reason = record http_msg_init {
  version = some version;
  status = status;
  reason = some reason;
}

pub http_msg_add_header : HttpMsg → List ℕ → Option (List ℕ) → HttpMsg
http_msg_add_header self name value = record self {
  headers = record { name = name; value = value } ∷ self.headers;
}

pub without : List HttpHeader → List ℕ → List HttpHeader
without [] name = []
without (header ∷ headers) name =
    let others = without headers name in
    if strcasecmp_equal header.name name then others else header ∷ others

pub http_msg_remove_header : HttpMsg → List ℕ → HttpMsg
http_msg_remove_header self name = record self { headers = without self.headers name }

pub http_msg_append_body : HttpMsg → List ℕ → HttpMsg
http_msg_append_body self bytes = record self { body = some (or_nothing self.body ++ bytes) }
