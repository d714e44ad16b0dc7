-- ===== src/Http/Parse.antt =====
-- Reading a request: `http_msg_parse_headers` and `http_msg_parse_request` of source/http.c. `none` stands for
-- a read outside of a string.
use c_mx.Common.{
  ℕ, zero, suc, ◌+◌, ◌-◌, Bool, true, false, Option, none, some, List, length, take, drop,
}
use c_mx.Common.{ltb, ◌==◌, if◌then◌else◌, ◌>>=◌}
use c_mx.Libc.{strchr}
use c_mx.Strings.{xstrltrim, xstrrtrim, xstr_word_len, xstrndup}
use c_mx.Http.{
  View, http_view_parse, Line, line_at, HttpMsg, http_msg_add_header, http_msg_append_body,
}

-- The end of a round of `http_msg_parse_headers`: `loop` makes the others.
pub add_line :
    (HttpMsg → Option (Bool × HttpMsg))
    → HttpMsg
    → List ℕ
    → Option (List ℕ)
    → Option (Bool × HttpMsg)
add_line loop self line none = some (false, self)
add_line loop self line (some colon) =
    xstrrtrim (take (length line - length colon) line) >>= λ name.
    xstrrtrim (xstrltrim (drop 1 colon)) >>= λ value.
    loop (http_msg_add_header self name (some value))

pub read_line :
    (HttpMsg → List ℕ → Option (Bool × HttpMsg)) → HttpMsg → Option Line → Option (Bool × HttpMsg)
read_line loop self none = some (false, self)
read_line loop self (some line) =
    let text = take line.size line.start in
    let others = add_line (λ self'. loop self' line.rest) self text (strchr text 58) in
    if line.size == 0 then some (true, self) else others

-- The loop of `http_msg_parse_headers`, on fuel: whether it returns 1, and the message.
pub header_loop : ℕ → HttpMsg → List ℕ → Option (Bool × HttpMsg)
header_loop zero self headers = none
header_loop (suc fuel) self headers =
    read_line (λ self' rest. header_loop fuel self' rest) self (line_at headers)

pub http_msg_parse_headers : HttpMsg → List ℕ → Option (Bool × HttpMsg)
http_msg_parse_headers self headers = header_loop (length headers + 1) self headers

-- 0, -1 and 1.
pub data Parsed : Type 0 where
  more_data not_valid parsed : Parsed

-- The word at the beginning, with `next` for what follows; an empty word is an error.
pub read_word :
    HttpMsg → Option (List ℕ) → (List ℕ → Option (Parsed × HttpMsg)) → Option (Parsed × HttpMsg)
read_word self none next = none
read_word self (some text) next =
    let len = xstr_word_len text none in
    let others = next (xstrndup text len) in if len == 0 then some (not_valid, self) else others

pub read_body : HttpMsg → List ℕ → HttpMsg
read_body self body = if ltb 0 (length body) then http_msg_append_body self body else self

pub with_headers : List ℕ → Bool × HttpMsg → Parsed × HttpMsg
with_headers body (false, self) = (not_valid, self)
with_headers body (true, self) = (parsed, read_body self body)

pub read_request : HttpMsg → View → Option (Parsed × HttpMsg)
read_request self view = read_word self (some view.first) (λ method.
    let self1 = record self { method = some method } in
    read_word self1 view.second (λ uri.
      let self2 = record self1 { uri = some uri } in
      read_word self2 view.third (λ version.
        let self3 = record self2 { version = some version } in
        http_msg_parse_headers self3 view.headers >>= λ r. some (with_headers view.body r))))

-- `http_msg_parse_request`
pub http_msg_parse_request : HttpMsg → List ℕ → Option (Parsed × HttpMsg)
http_msg_parse_request self buffer = elim (http_view_parse buffer) [
  | none ↦ some (more_data, self)
  | some view ↦ read_request self view
]
