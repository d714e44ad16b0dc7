-- ===== src/Websocket/Tests.antt =====
-- The theorems on WebSocket frames at concrete frames.
use c_mx.Common.{ℕ, ◌≤◌, some, List, [], ◌∷◌, ◌++◌, drop, leb, ◌>>=◌, arith, ◌≡◌, refl}
use c_mx.Common.{Memory, true, length, get_elem?, ◌%◌, bit_xor}
use c_mx.Websocket.{WsFrame, Answer, parse_frame, format_frame, apply_mask, flag_of}
use c_mx.Websocket.Header.{payload_bytes, length_bytes}
use c_mx.Websocket.Masking.{apply_mask_twice, masked}
use c_mx.Websocket.RoundTrip.{described, answer-format_frame}

abbrev key : List ℕ
key = 1 ∷ 2 ∷ 3 ∷ 4 ∷ []

abbrev hello : List ℕ
hello = 104 ∷ 101 ∷ 108 ∷ 108 ∷ 111 ∷ []

abbrev old : List ℕ
old = 0 ∷ 0 ∷ 0 ∷ 0 ∷ 0 ∷ 0 ∷ 0 ∷ 0 ∷ 0 ∷ 0 ∷ 0 ∷ []

apply_mask_twice_example :
    (covered : List ℕ) × (apply_mask (7 ∷ (hello ++ (8 ∷ []))) 1 5 key
      ≡ some (7 ∷ (covered ++ (8 ∷ []))))
    × (length covered ≡ 5)
    × ((i : ℕ)
        → get_elem? covered i
          ≡ (get_elem? hello i >>= λ x. get_elem? key (i % 4) >>= λ k. some (bit_xor x k)))
    × (apply_mask (7 ∷ (covered ++ (8 ∷ []))) 1 5 key ≡ some (7 ∷ (hello ++ (8 ∷ []))))
apply_mask_twice_example = apply_mask_twice (7 ∷ []) hello (8 ∷ []) key refl

answer-format_frame_example :
    (memory : Memory) × (format_frame (old ++ (9 ∷ [])) 129 (some key) hello 5
      ≡ some (11, memory ++ (9 ∷ [])))
    × (drop 6 memory ≡ payload_bytes (some key) hello)
    × ((fr : WsFrame) (len : ℕ)
        → (a : Answer) × (parse_frame fr (memory ++ (9 ∷ [])) len ≡ some a)
          × (a.complete ≡ leb 11 len)
          × (11 ≤ len
              → a ≡ record {
                complete = true;
                frame = described 129 (some key) 5;
                frame_length = 11;
              }))
unfolding length_bytes flag_of masked
answer-format_frame_example =
    answer-format_frame 129 old (9 ∷ []) hello (some key) (omega arith) refl refl (omega arith)
