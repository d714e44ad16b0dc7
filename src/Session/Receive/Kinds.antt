-- ===== src/Session/Receive/Kinds.antt =====
-- Which packets answer which: `mqtt_response_type` and `mqtt_request_type` of source/mqtt.c.
use c_mx.Common.{ℕ, ◌<◌, ◌==◌, arith, ◌≡◌, Bool-cases, inl, inr}
use c_mx.Session.Receive.{request_type, response_type}

-- For every packet type and quality of service that has a response type: the request type of that
-- response is the packet type again.
pub request_type-response_type :
    (kind qos : ℕ) → 0 < response_type kind qos → request_type (response_type kind qos) ≡ kind
unfolding request_type response_type
request_type-response_type kind qos h = elim (Bool-cases (kind == 8)) [
  | inl sub ↦ ground arith
  | inr not_sub ↦ elim (Bool-cases (kind == 10)) [
    | inl unsub ↦ ground arith
    | inr not_unsub ↦ elim (Bool-cases (kind == 3)) [
      | inl pub_kind ↦ elim (Bool-cases (qos == 1)) [
        | inl one ↦ ground arith
        | inr more ↦ ground arith
      ]
      | inr not_pub ↦ ground arith
    ]
  ]
]
