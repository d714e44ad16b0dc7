-- ===== src/Http/Tests.antt =====
-- HTTP messages at concrete texts. No code of its own.
use c_mx.Common.{ℕ, zero, suc, some, none, [], ◌∷◌, length, inr, arith, refl, Memory}
use c_mx.Libc.{codes}
use c_mx.Http.{HttpMsg}
use c_mx.Http.Serialize.{http_msg_serialize}
use c_mx.Http.Serialize.Inside.{Safe, HasLine, http_msg_serialize-Safe}

abbrev blank : ℕ → Memory
blank zero = []
blank (suc n) = 0 ∷ blank n

abbrev answer : HttpMsg
answer = record {
  method = none;
  uri = none;
  version = some (codes "HTTP/1.1");
  status = 101;
  reason = some (codes "Switching");
  headers = record { name = codes "Upgrade"; value = some (codes "websocket") } ∷ [];
  body = some (codes "ok");
}

answer-HasLine : HasLine answer
unfolding HasLine
answer-HasLine = inr (codes "HTTP/1.1", codes "Switching", refl, refl, refl)

http_msg_serialize-Safe_example :
    Safe (length (blank 80)) 70 (http_msg_serialize answer (blank 80) 70)
unfolding c_mx.Http.or_nothing
http_msg_serialize-Safe_example =
    http_msg_serialize-Safe answer (blank 80) 70 answer-HasLine (omega arith) (omega arith)
      (omega arith)
