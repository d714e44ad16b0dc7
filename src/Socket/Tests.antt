-- ===== src/Socket/Tests.antt =====
-- A message of three bytes, a system that takes and gives a byte at a time, and a byte behind the message.
use c_mx.Common.{ℕ, ◌<◌, ◌≤◌, List, [], ◌∷◌, ◌++◌, some, length, take, arith, ◌≡◌, refl}
use c_mx.Stream.{Result, wrote, again, Arrival, got, nothing}
use c_mx.Socket.{htonl, socket_send_msg, socket_receive_msg_len, socket_receive_msg}
use c_mx.Socket.Messages.{Takes, Gives, socket_send_msg-socket_receive_msg}

byte_out : List ℕ → List ℕ → Result × List ℕ
byte_out s [] = (again, s)
byte_out s (b ∷ bytes) = (wrote 1, s ++ (b ∷ []))

byte_in : List ℕ → ℕ → Arrival × List ℕ
byte_in [] n = (nothing, [])
byte_in (b ∷ s) n = (got (b ∷ []), s)

abbrev all_of : List ℕ → List ℕ
all_of s = s

takes_byte :
    (s bytes : List ℕ)
    → 0 < length bytes
    → (n : ℕ) × ((byte_out s bytes).0 ≡ wrote n)
      × (0 < n)
      × (n ≤ length bytes)
      × (all_of (byte_out s bytes).1 ≡ all_of s ++ take n bytes)
unfolding byte_out
takes_byte s [] some_given = absurd (ground arith)
takes_byte s (b ∷ bytes) some_given = (1, refl, omega arith, ground arith, refl)

gives_byte :
    (s : List ℕ) (n : ℕ)
    → 0 < n
    → 0 < length (all_of s)
    → (bytes : List ℕ) × ((byte_in s n).0 ≡ got bytes)
      × (0 < length bytes)
      × (length bytes ≤ n)
      × (all_of s ≡ bytes ++ all_of (byte_in s n).1)
unfolding byte_in
gives_byte [] n asked waits = absurd (ground arith)
gives_byte (b ∷ s) n asked waits = (b ∷ [], refl, omega arith, ground arith, refl)

byte_out-Takes : Takes (List ℕ) byte_out all_of
byte_out-Takes = record { takes = takes_byte }

byte_in-Gives : Gives (List ℕ) byte_in all_of
byte_in-Gives = record { gives = gives_byte }

abbrev message : List ℕ
message = 65 ∷ 66 ∷ 67 ∷ []

abbrev incoming : List ℕ
incoming = 0 ∷ 0 ∷ 0 ∷ 3 ∷ 65 ∷ 66 ∷ 67 ∷ 9 ∷ []

message_waits : all_of incoming ≡ htonl (length message) ++ (message ++ (9 ∷ []))
unfolding htonl
message_waits = refl

socket_send_msg-socket_receive_msg_example :
    ((s : List ℕ) × (socket_send_msg byte_out [] message ≡ some (wrote 3, s))
      × (s ≡ htonl 3 ++ message))
    × ((t : List ℕ) × (socket_receive_msg_len byte_in incoming ≡ some (some 3, t))
        × ((t' : List ℕ) × (socket_receive_msg byte_in t 3 ≡ some (got message, t'))
            × (t' ≡ 9 ∷ [])))
socket_send_msg-socket_receive_msg_example =
    socket_send_msg-socket_receive_msg byte_out all_of byte_out-Takes byte_in all_of byte_in-Gives
      [] incoming message (9 ∷ []) (omega arith) message_waits
