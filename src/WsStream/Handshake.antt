-- ===== src/WsStream/Handshake.antt =====
-- The opening handshake of a WebSocket stream, from source/stream_ws.c. The code reads the input as a string
-- although nothing ends it: here the byte behind the input is a terminator.
use c_mx.Common.{ℕ, ◌+◌, true, Option, none, some, List, [], ◌++◌, length, take}
use c_mx.Common.{if◌then◌else◌}
use c_mx.Libc.{codes, strncmp_equal, memchr_zero}
use c_mx.Strings.{xstr_word_len, found_or}
use c_mx.Http.{http_view_parse, http_header_find}
use c_mx.Timer.{start}
use c_mx.Websocket.{calculate_accept_key}
use c_mx.Stream.{Lower, st_ready}
use c_mx.WsStream.{StreamWs, World, send, set_status}

-- The bytes up to the first zero.
pub c_string : List ℕ → List ℕ
c_string bytes = take (found_or (memchr_zero bytes (length bytes)) (length bytes)) bytes

-- What the handshake returns: that it goes on, as -1 with `EAGAIN`, or 0, for which the stream is closed.
pub data Step : Type 0 where
  go_on refused : Step

-- What `snprintf` leaves of a text in a buffer of 4096 bytes.
pub printed : List ℕ → List ℕ
printed text = take 4095 text

abbrev pub response : List ℕ → List ℕ
response accept_key =
    codes
      "HTTP/1.1 101 Switching Protocols\r\nUpgrade: websocket\r\nConnection: Upgrade\r\nSec-WebSocket-Accept: "
    ++ (accept_key ++ codes "\r\n\r\n")

pub or_slash : Option (List ℕ) → List ℕ
or_slash none = codes "/"
or_slash (some uri) = uri

pub or_empty : Option (List ℕ) → List ℕ
or_empty none = []
or_empty (some header) = header

abbrev pub request : Option (List ℕ) → Option (List ℕ) → List ℕ → List ℕ
request uri header key =
    codes "GET "
    ++ (or_slash uri
        ++ (codes " HTTP/1.1\r\n"
            ++ (or_empty header
                ++ (codes
                      "Upgrade: websocket\r\nConnection: Upgrade\r\nSec-WebSocket-Version: 13\r\nSec-WebSocket-Key: "
                    ++ (key ++ codes "\r\n\r\n")))))

module _ {S : Type 0} (lower : Lower S) (w : World) where
  pub refuse : StreamWs S → Step × StreamWs S
  refuse self = (refused, record self { buffer = [] })

  -- The stream is open, and is watched from now on.
  unfoldable pub opened : StreamWs S → ℕ → StreamWs S
  opened self keep_alive = record (set_status self st_ready) {
    buffer = [];
    keep_alive = keep_alive;
    keep_alive_timer = start w.sys w.clock 1 keep_alive;
  }

  pub answer_key : StreamWs S → Option (List ℕ) → Step × StreamWs S
  answer_key self none = refuse self
  answer_key self (some accept_key) =
      (go_on, opened (send lower w self (printed (response accept_key))).1 100)

  pub answer : StreamWs S → Option (List ℕ) → Step × StreamWs S
  answer self none = refuse self
  answer self (some key) =
      let key_len = xstr_word_len key none in
      answer_key self (calculate_accept_key w.sha1 w.base64 key key_len)

  -- `stream_ws_handle_handshake_request`
  pub handle_handshake_request : StreamWs S → Step × StreamWs S
  handle_handshake_request self = elim (http_view_parse (c_string self.buffer)) [
    | none ↦ (go_on, self)
    | some view ↦ answer self (http_header_find view.headers (codes "Sec-WebSocket-Key"))
  ]

  pub compare_keys : StreamWs S → List ℕ → Option (List ℕ) → Step × StreamWs S
  compare_keys self key none = refuse self
  compare_keys self key (some accept_key) =
      let key_len = xstr_word_len key none in
      if strncmp_equal accept_key (take key_len key) key_len
      then (go_on, record (opened self 90) { key = none })
      else refuse self

  pub check_answer : StreamWs S → Option (List ℕ) → Option (List ℕ) → Step × StreamWs S
  check_answer self none found = refuse self
  check_answer self (some own_key) none = refuse self
  check_answer self (some own_key) (some key) =
      compare_keys self key (calculate_accept_key w.sha1 w.base64 own_key (length own_key))

  -- `stream_ws_handle_handshake_accept`
  pub handle_handshake_accept : StreamWs S → Step × StreamWs S
  handle_handshake_accept self = elim (http_view_parse (c_string self.buffer)) [
    | none ↦ (go_on, self)
    | some view ↦
        check_answer self self.key (http_header_find view.headers (codes "Sec-WebSocket-Accept"))
  ]

  pub request_with : StreamWs S → Option (List ℕ) → Option (List ℕ) → Option (List ℕ) → StreamWs S
  request_with self uri header none = self
  request_with self uri header (some key) =
      (send lower w (record self { key = some key }) (printed (request uri header key))).1

  -- `stream_ws_connect`
  pub connect : StreamWs S → Option (List ℕ) → Option (List ℕ) → Option (List ℕ) → StreamWs S
  connect self uri (some key) header =
      request_with (record self { client_role = true }) uri header (some key)
  connect self uri none header =
      request_with (record self { client_role = true; drawn = self.drawn + 1 }) uri header
        (w.base64 (w.rand_data self.drawn 16))
