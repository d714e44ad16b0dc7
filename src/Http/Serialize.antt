-- ===== src/Http/Serialize.antt =====
-- Writing a message: `http_msg_serialize` of source/http.c. `out_of_bounds` stands for an access outside of
-- the caller's buffer, or a string that is `NULL`.
pub mod Inside
use c_mx.Common.{ℕ, zero, suc, ◌+◌, ◌-◌, ◌/◌, ◌%◌, ◌^◌, Option, none, some, List, [], ◌∷◌, ◌++◌}
use c_mx.Common.{length, take, ltb, leb, ◌==◌, if◌then◌else◌, Memory, memcpy, u64}
use c_mx.Libc.{memchr_zero}
use c_mx.Strings.{found_or}
use c_mx.Http.{line_end, HttpHeader, HttpMsg, or_nothing, http_msg_append_body}

-- What is printed so far: the buffer, the offset in it, and the room behind that.
pub record Out : Type 0 where
  pub memory : Memory
  pub offset : ℕ
  pub room : ℕ

pub data Attempt : Type 0 where
  out_of_bounds too_small : Attempt
  printed : Out → Attempt

pub then_print : Attempt → (Out → Attempt) → Attempt
then_print out_of_bounds next = out_of_bounds
then_print too_small next = too_small
then_print (printed out) next = next out

pub advance : Out → ℕ → Option Memory → Attempt
advance out n none = out_of_bounds
advance out n (some memory) =
    printed (record {
      memory = memory;
      offset = u64 (out.offset + n);
      room = u64 (out.room + 2 ^ 64 - n);
    })

-- `snprintf`, for a format that prints `text`: what fits into the room, and a terminator.
pub snprintf : Out → List ℕ → Option Memory
snprintf out text =
    if out.room == 0
    then some out.memory
    else memcpy out.memory out.offset (take (out.room - 1) text ++ (0 ∷ []))
        (length (take (out.room - 1) text) + 1)

-- An `int` made of a `size_t`, as its value with 2^31 added, which keeps the order.
unfoldable pub as_int : ℕ → ℕ
as_int x = (x + 2 ^ 31) % 2 ^ 32

-- What `snprintf` returns for a format that prints `text`, as a `size_t`: -1 where an `int` cannot hold the length.
unfoldable pub printed_length : List ℕ → ℕ
printed_length text = if ltb (length text) (2 ^ 31) then length text else 2 ^ 64 - 1

-- One use of it, behind the check of the size that is estimated.
pub print : Out → ℕ → List ℕ → Attempt
print out len text =
    if leb (as_int out.room) (as_int len)
    then too_small
    else advance out (printed_length text) (snprintf out text)

-- `%u`
pub digits : ℕ → ℕ → List ℕ
digits zero n = []
digits (suc fuel) n =
    let front = digits fuel (n / 10) in
    if ltb n 10 then (48 + n) ∷ [] else front ++ ((48 + n % 10) ∷ [])

abbrev pub request_line : List ℕ → List ℕ → List ℕ → List ℕ
request_line method uri version = method ++ (32 ∷ (uri ++ (32 ∷ (version ++ line_end))))

abbrev pub response_line : List ℕ → ℕ → List ℕ → List ℕ
response_line version status reason =
    version ++ (32 ∷ (digits 10 status ++ (32 ∷ (reason ++ line_end))))

abbrev pub header_line : List ℕ → List ℕ → List ℕ
header_line name value = name ++ (58 ∷ 32 ∷ (value ++ line_end))

-- The lengths of the formats are 10, 10, 8 and 2.
pub print_request : Out → List ℕ → List ℕ → Option (List ℕ) → Attempt
print_request out method uri none = out_of_bounds
print_request out method uri (some version) =
    print out (10 + length method + length uri + length version) (request_line method uri version)

pub print_response : Out → Option (List ℕ) → ℕ → Option (List ℕ) → Attempt
print_response out (some version) status (some reason) =
    print out (10 + length version + 3 + length reason) (response_line version status reason)
print_response out none status reason = out_of_bounds
print_response out (some version) status none = out_of_bounds

pub print_first : Out → HttpMsg → Attempt
print_first out self = elim self.method [
  | none ↦ print_response out self.version self.status self.reason
  | some method ↦ elim self.uri [
    | none ↦ print_response out self.version self.status self.reason
    | some uri ↦ print_request out method uri self.version
  ]
]

pub print_headers : List HttpHeader → Out → Attempt
print_headers [] out = printed out
print_headers (header ∷ headers) out =
    let value = or_nothing header.value in
    then_print (print out (8 + length header.name + length value) (header_line header.name value))
      (λ out'. print_headers headers out')

pub print_end : Out → Attempt
print_end out =
    if leb (as_int out.room) (as_int 2)
    then too_small
    else advance out 2 (memcpy out.memory out.offset line_end 2)

-- The body as a string, which its first zero ends.
pub print_body : Out → List ℕ → Attempt
print_body out body =
    print out (2 + length body)
      (take (found_or (memchr_zero body (length body)) (length body)) body)

-- The message that is left behind: its body has got a terminator.
pub ended_body : HttpMsg → HttpMsg
ended_body self = elim self.body [ none ↦ self | some body ↦ http_msg_append_body self (0 ∷ []) ]

pub print_rest : HttpMsg → Out → Attempt
print_rest self out = elim self.body [
  | none ↦ printed out
  | some body ↦ print_body out (body ++ (0 ∷ []))
]

-- `http_msg_serialize`: it returns the offset that is printed, or -1 where the buffer is too small.
pub http_msg_serialize : HttpMsg → Memory → ℕ → Attempt
http_msg_serialize self buffer buffer_len =
    let start : Out = record { memory = buffer; offset = 0; room = buffer_len } in
    then_print (print_first start self) (λ out1.
      then_print (print_headers self.headers out1)
        (λ out2. then_print (print_end out2) (λ out3. print_rest self out3)))
