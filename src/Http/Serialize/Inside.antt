-- ===== src/Http/Serialize/Inside.antt =====
-- Printing a message stays inside the caller's buffer.
use c_mx.Common.{
  ℕ, zero, suc, ◌+◌, ◌-◌, ◌/◌, ◌%◌, ◌^◌, ◌≤◌, ◌<◌, true, false, Option, none, some, List, [], ◌∷◌,
  ◌++◌, length,
}
use c_mx.Common.{
  take, drop, length-append, length-take, length-drop, memcpy, memcpy_splice, ltb, leb, ◌==◌,
  Memory,
}
use c_mx.Common.{◌⊎◌, inl, inr, Bool-cases, Option-cases, arith, ◌≡◌, refl, sym, ap}
use c_mx.Libc.{memchr_zero}
use c_mx.Strings.{found_or}
use c_mx.Http.{line_end, HttpHeader, HttpMsg, or_nothing}
use c_mx.Http.Serialize.{
  Out, Attempt, out_of_bounds, too_small, printed, then_print, advance, snprintf, print, digits,
}
use c_mx.Http.Serialize.{
  request_line, response_line, header_line, print_request, print_response, print_first,
  print_headers,
}
use c_mx.Http.Serialize.{
  print_end, as_int, printed_length, print_body, print_rest, http_msg_serialize,
}

-- Of a buffer with `size` bytes the first `total` may be used, and what is printed and the room left are these.
abbrev pub Inside : ℕ → ℕ → Out → Type 0
Inside size total out = (length out.memory ≡ size) × (out.offset + out.room ≡ total)

-- No access was outside, and what is returned is an error or an offset inside.
unfoldable pub Safe : ℕ → ℕ → Attempt → Type 0
Safe size total out_of_bounds = ⊥
Safe size total too_small = Unit
Safe size total (printed out) = Inside size total out

length-digits : (fuel n : ℕ) → length (digits fuel n) ≤ fuel
unfolding digits
length-digits zero n = omega arith
length-digits (suc fuel) n = elim (Bool-cases (ltb n 10)) [
  | inl one ↦ rw one (omega arith)
  | inr more ↦ rw more (
      omega (
        arith,
        length-digits fuel (n / 10),
        length-append (digits fuel (n / 10)) ((48 + n % 10) ∷ []),
      ))
]

-- The strings that the first line needs are there: those of a request, or those of a response.
unfoldable pub HasLine : HttpMsg → Type 0
HasLine self =
    ((method uri version : List ℕ) × (self.method ≡ some method)
      × (self.uri ≡ some uri)
      × (self.version ≡ some version))
    ⊎ ((version reason : List ℕ) × (self.method ≡ none)
        × (self.version ≡ some version)
        × (self.reason ≡ some reason))

-- The bytes of a message's strings and of its body, in all.
abbrev pub length_of : Option (List ℕ) → ℕ
length_of none = 0
length_of (some text) = length text

abbrev pub headers_size : List HttpHeader → ℕ
headers_size [] = 0
headers_size (header ∷ headers) =
    length header.name + length (or_nothing header.value) + headers_size headers

abbrev pub text_size : HttpMsg → ℕ
text_size self =
    length_of self.method
    + length_of self.uri
    + length_of self.version
    + length_of self.reason
    + headers_size self.headers
    + length_of self.body

as_int_lem : (x : ℕ) → x < 2 ^ 31 → as_int x ≡ x + 2 ^ 31
unfolding as_int
as_int_lem x fits = omega arith

module _ (size total : ℕ) (fits : total ≤ size) (small : total < 2 ^ 31) where
  copied :
      (out : Out) (bytes : List ℕ) (n : ℕ)
      → Inside size total out
      → n ≡ length bytes
      → n ≤ out.room
      → (memory : Memory) × (memcpy out.memory out.offset bytes n ≡ some memory)
        × (length memory ≡ size)
  copied out bytes n (held, sum) e room =
      let front = take out.offset out.memory in
      let back = drop n (drop out.offset out.memory) in
      (
        front ++ (bytes ++ back),
        memcpy_splice out.memory bytes out.offset n (omega arith) e,
        omega (
          arith,
          length-append front (bytes ++ back),
          length-append bytes back,
          length-take out.offset out.memory,
          length-drop n (drop out.offset out.memory),
          length-drop out.offset out.memory,
        ),
      )

  advance_lem :
      (out : Out) (n : ℕ) (memory : Memory)
      → Inside size total out
      → n ≤ out.room
      → length memory ≡ size
      → Safe size total (advance out n (some memory))
  unfolding advance Safe
  advance_lem out n memory (held, sum) room e = (e, omega arith)

  print_lem :
      (out : Out) (len : ℕ) (text : List ℕ)
      → Inside size total out
      → length text ≤ len + 1
      → len < 2 ^ 31
      → Safe size total (print out len text)
  unfolding print snprintf Safe
  print_lem out len text inside short moderate =
      let (held, sum) = inside in
      let room_int = as_int_lem out.room (omega arith) in
      let len_int = as_int_lem len moderate in
      elim (Bool-cases (leb (as_int out.room) (as_int len))) [
        | inl full ↦ rw full tt
        | inr enough ↦
            let more : len < out.room = ground (arith, room_int, len_int, enough) in
            let counted : printed_length text ≡ length text =
              (let short_text : ltb (length text) (2 ^ 31) ≡ true = ground arith in
                unfold printed_length in rw short_text refl) in
            let n = length (take (out.room - 1) text) + 1 in
            let ended = take (out.room - 1) text ++ (0 ∷ []) in
            let (memory, runs, held) =
              copied out ended n inside (sym (length-append (take (out.room - 1) text) (0 ∷ [])))
                (omega (arith, length-take (out.room - 1) text, more)) in
            let some_room : (out.room == 0) ≡ false = ground arith in
            rw (enough, some_room, runs)
              (advance_lem out (printed_length text) memory inside (omega (arith, counted)) held)
      ]

  then_print_lem :
      (a : Attempt) (next : Out → Attempt)
      → Safe size total a
      → ((out : Out) → Inside size total out → Safe size total (next out))
      → Safe size total (then_print a next)
  unfolding then_print Safe
  then_print_lem out_of_bounds next safe later = safe
  then_print_lem too_small next safe later = tt
  then_print_lem (printed out) next safe later = later out safe

  print_first_lem :
      (self : HttpMsg) (out : Out)
      → HasLine self
      → text_size self + 16 < 2 ^ 31
      → Inside size total out
      → Safe size total (print_first out self)
  unfolding print_first print_request print_response HasLine
  print_first_lem self out (inl (m, u, v, em, eu, ev)) moderate inside =
      let lm = ap length_of em in
      let lu = ap length_of eu in
      let lv = ap length_of ev in
      rw (em, eu, ev)
        (print_lem out (10 + length m + length u + length v) (request_line m u v) inside
          (omega (
            arith,
            length-append m (32 ∷ (u ++ (32 ∷ (v ++ line_end)))),
            length-append u (32 ∷ (v ++ line_end)),
            length-append v line_end,
          ))
          (omega (arith, moderate, lm, lu, lv)))
  print_first_lem self out (inr (v, r, em, ev, er)) moderate inside =
      let lv = ap length_of ev in
      let lr = ap length_of er in
      rw (em, ev, er)
        (print_lem out (10 + length v + 3 + length r) (response_line v self.status r) inside
          (omega (
            arith,
            length-digits 10 self.status,
            length-append v (32 ∷ (digits 10 self.status ++ (32 ∷ (r ++ line_end)))),
            length-append (digits 10 self.status) (32 ∷ (r ++ line_end)),
            length-append r line_end,
          ))
          (omega (arith, moderate, lv, lr)))

  print_headers_lem :
      (headers : List HttpHeader) (out : Out)
      → headers_size headers + 16 < 2 ^ 31
      → Inside size total out
      → Safe size total (print_headers headers out)
  unfolding print_headers Safe
  print_headers_lem [] out moderate inside = inside
  print_headers_lem (header ∷ headers) out moderate inside =
      let value = or_nothing header.value in
      then_print_lem
        (print out (8 + length header.name + length value) (header_line header.name value))
        (λ out'. print_headers headers out')
        (print_lem out (8 + length header.name + length value) (header_line header.name value)
          inside
          (omega (
            arith,
            length-append header.name (58 ∷ 32 ∷ (value ++ line_end)),
            length-append value line_end,
          ))
          (omega (arith, moderate)))
        (λ out' inside'. print_headers_lem headers out' (omega (arith, moderate)) inside')

  print_end_lem : (out : Out) → Inside size total out → Safe size total (print_end out)
  unfolding print_end Safe
  print_end_lem out inside =
      let (held, sum) = inside in
      let room_int = as_int_lem out.room (omega arith) in
      let len_int = as_int_lem 2 (omega arith) in
      elim (Bool-cases (leb (as_int out.room) (as_int 2))) [
        | inl full ↦ rw full tt
        | inr enough ↦
            let more : 2 < out.room = ground (arith, room_int, len_int, enough) in
            let (memory, runs, held) = copied out line_end 2 inside refl (omega arith) in
            rw (enough, runs) (advance_lem out 2 memory inside (omega arith) held)
      ]

  print_body_lem :
      (out : Out) (body : List ℕ)
      → length body + 2 < 2 ^ 31
      → Inside size total out
      → Safe size total (print_body out body)
  unfolding print_body
  print_body_lem out body moderate inside =
      print_lem out (2 + length body)
        (take (found_or (memchr_zero body (length body)) (length body)) body) inside
        (omega (arith, length-take (found_or (memchr_zero body (length body)) (length body)) body))
        (omega (arith, moderate))

  print_rest_lem :
      (self : HttpMsg) (out : Out)
      → text_size self + 16 < 2 ^ 31
      → Inside size total out
      → Safe size total (print_rest self out)
  unfolding print_rest Safe
  print_rest_lem self out moderate inside = elim (Option-cases self.body) [
    | inl absent ↦ rw absent inside
    | inr (body, there) ↦
        let lb = ap length_of there in
        rw there (
          print_body_lem out (body ++ (0 ∷ []))
            (omega (arith, moderate, lb, length-append body (0 ∷ []))) inside)
  ]

-- A message with the strings that its first line needs, the bytes of its strings and its body being fewer than 2^31 - 16 in all, printed into
-- a buffer that has the `buffer_len` bytes it is said to have, which are fewer than 2^31:
-- no access is outside of them, though the size of a line is only estimated before it is printed, and what is returned is an
-- error or an offset of at most `buffer_len`.
pub http_msg_serialize-Safe :
    (self : HttpMsg) (buffer : Memory) (buffer_len : ℕ)
    → HasLine self
    → text_size self + 16 < 2 ^ 31
    → buffer_len ≤ length buffer
    → buffer_len < 2 ^ 31
    → Safe (length buffer) buffer_len (http_msg_serialize self buffer buffer_len)
unfolding http_msg_serialize
http_msg_serialize-Safe self buffer buffer_len has_line moderate fits small =
    let size = length buffer in
    let start : Out = record { memory = buffer; offset = 0; room = buffer_len } in
    then_print_lem size buffer_len fits small (print_first start self)
      (λ out1.
        then_print (print_headers self.headers out1)
          (λ out2. then_print (print_end out2) (λ out3. print_rest self out3)))
      (print_first_lem size buffer_len fits small self start has_line moderate (refl, omega arith))
      (λ out1 inside1.
        then_print_lem size buffer_len fits small (print_headers self.headers out1)
          (λ out2. then_print (print_end out2) (λ out3. print_rest self out3))
          (print_headers_lem size buffer_len fits small self.headers out1 (omega (arith, moderate))
            inside1)
          (λ out2 inside2.
            then_print_lem size buffer_len fits small (print_end out2)
              (λ out3. print_rest self out3) (print_end_lem size buffer_len fits small out2 inside2)
              (λ out3 inside3.
                print_rest_lem size buffer_len fits small self out3 moderate inside3)))
