-- ===== src/Socket.antt =====
-- Blocking sends and receives of whole buffers, and of messages behind their length: source/socket.c. The
-- system's write and read are parameters. Lengths are below 2^31, so that `int` and `unsigned int` hold them.
pub mod Messages
mod Tests
use c_mx.Common.{
  ℕ, zero, suc, ◌+◌, ◌-◌, ◌*◌, ◌/◌, ◌%◌, ◌^◌, Bool, true, false, Option, none, some, List, [], ◌∷◌,
  ◌++◌, length, drop,
}
use c_mx.Common.{◌==◌, if◌then◌else◌, ◌>>=◌}
use c_mx.Stream.{Result, wrote, again, failed, Arrival, got, nothing, ended}

-- `htonl`: the memory of the number that is sent.
pub htonl : ℕ → List ℕ
htonl n = n / 2 ^ 24 % 256 ∷ n / 2 ^ 16 % 256 ∷ n / 2 ^ 8 % 256 ∷ n % 256 ∷ []

-- `ntohl` of the memory of a number.
pub ntohl : List ℕ → ℕ
ntohl [] = 0
ntohl (b ∷ bytes) = b * 256 ^ length bytes + ntohl bytes

module _ {S : Type 0} (write : S → List ℕ → Result × S) where
  -- One round of `socket_send`: `loop` makes the others.
  pub go_on : (S → List ℕ → Option (Result × S)) → List ℕ → Result × S → Option (Result × S)
  go_on loop bytes (again, s) = some (again, s)
  go_on loop bytes (failed, s) = some (failed, s)
  go_on loop bytes (wrote n, s) = if n == 0 then some (wrote 0, s) else loop s (drop n bytes)

  -- The loop of `socket_send` for a buffer of `len` bytes, on fuel.
  pub send_loop : ℕ → ℕ → S → List ℕ → Option (Result × S)
  send_loop zero len s bytes = none
  send_loop (suc fuel) len s bytes =
      let round = go_on (λ s' bytes'. send_loop fuel len s' bytes') bytes (write s bytes) in
      if length bytes == 0 then some (wrote len, s) else round

  -- `socket_send`: a round takes a byte at least.
  pub socket_send : S → List ℕ → Option (Result × S)
  socket_send s bytes = send_loop (length bytes + 1) (length bytes) s bytes

  pub behind_length : List ℕ → Result × S → Option (Result × S)
  behind_length bytes (again, s) = some (again, s)
  behind_length bytes (failed, s) = some (failed, s)
  behind_length bytes (wrote n, s) =
      let sent = socket_send s bytes in if n == 0 then some (wrote 0, s) else sent

  -- `socket_send_msg`
  pub socket_send_msg : S → List ℕ → Option (Result × S)
  socket_send_msg s bytes = socket_send s (htonl (length bytes)) >>= λ r. behind_length bytes r

module _ {S : Type 0} (read : S → ℕ → Arrival × S) where
  pub read_on :
      (S → ℕ → List ℕ → Option (Arrival × S)) → ℕ → List ℕ → Arrival × S → Option (Arrival × S)
  read_on loop remain buffer (nothing, s) = some (nothing, s)
  read_on loop remain buffer (ended, s) = some (ended, s)
  read_on loop remain buffer (got bytes, s) = loop s (remain - length bytes) (buffer ++ bytes)

  -- The loop of `socket_receive`, with the bytes that still fit and those received, on fuel.
  pub receive_loop : ℕ → S → ℕ → List ℕ → Option (Arrival × S)
  receive_loop zero s remain buffer = none
  receive_loop (suc fuel) s remain buffer =
      let round =
        read_on (λ s' remain' buffer'. receive_loop fuel s' remain' buffer') remain buffer
          (read s remain) in
      if remain == 0 then some (got buffer, s) else round

  -- `socket_receive`: the bytes, where it returns their number; `nothing` for -1, `ended` for 0.
  pub socket_receive : S → ℕ → Option (Arrival × S)
  socket_receive s len = receive_loop (len + 1) s len []

  pub as_length : Arrival × S → Option ℕ × S
  as_length (nothing, s) = (none, s)
  as_length (ended, s) = (some 0, s)
  as_length (got bytes, s) = (some (ntohl bytes), s)

  -- `socket_receive_msg_len`: `none` for -1.
  pub socket_receive_msg_len : S → Option (Option ℕ × S)
  socket_receive_msg_len s = socket_receive s 4 >>= λ r. some (as_length r)

  -- `socket_receive_msg`
  pub socket_receive_msg : S → ℕ → Option (Arrival × S)
  socket_receive_msg s len = socket_receive s len
