-- ===== src/Websocket/Masking.antt =====
-- What `ws_apply_mask` of source/websocket.c does to the bytes of a payload.
use c_mx.Common.{ℕ, zero, suc, ◌+◌, ◌%◌, ◌<◌, bit_xor, some, List, [], ◌∷◌, ◌++◌}
use c_mx.Common.{length, get_elem?, get_elem?-append, append_assoc, length-append, ◌>>=◌, arith}
use c_mx.Common.{◌≡◌, refl, sym, ap, ◌∙◌, store_lem, xor_twice}
use c_mx.Websocket.{mask_loop, apply_mask}

-- The byte of the mask at index `i`, 0 behind its end.
abbrev pub key_at : List ℕ → ℕ → ℕ
key_at [] i = 0
key_at (k ∷ mask) zero = k
key_at (k ∷ mask) (suc i) = key_at mask i

-- A payload with its byte number `i` changed by byte `i % 4` of the mask.
unfoldable pub masked : List ℕ → ℕ → List ℕ → List ℕ
masked mask i [] = []
masked mask i (x ∷ bytes) = bit_xor x (key_at mask (i % 4)) ∷ masked mask (i + 1) bytes

pub length-masked :
    (mask : List ℕ) (i : ℕ) (bytes : List ℕ) → length (masked mask i bytes) ≡ length bytes
unfolding masked
length-masked mask i [] = refl
length-masked mask i (x ∷ bytes) = omega (arith, length-masked mask (i + 1) bytes)

pub masked-masked :
    (mask : List ℕ) (i : ℕ) (bytes : List ℕ) → masked mask i (masked mask i bytes) ≡ bytes
unfolding masked
masked-masked mask i [] = refl
masked-masked mask i (x ∷ bytes) =
    rw (xor_twice x (key_at mask (i % 4)), masked-masked mask (i + 1) bytes)

key_at_lem : (mask : List ℕ) (i : ℕ) → i < length mask → get_elem? mask i ≡ some (key_at mask i)
key_at_lem [] i h = absurd (omega arith)
key_at_lem (k ∷ mask) zero h = refl
key_at_lem (k ∷ mask) (suc i) h = key_at_lem mask i (omega arith)

mask_loop_lem :
    (front bytes back mask : List ℕ) (start i n : ℕ)
    → start + i ≡ length front
    → n ≡ length bytes
    → length mask ≡ 4
    → mask_loop (front ++ (bytes ++ back)) start mask i n
      ≡ some (front ++ (masked mask i bytes ++ back))
unfolding mask_loop masked
mask_loop_lem front [] back mask start i zero e l four = refl
mask_loop_lem front [] back mask start i (suc n) e l four = absurd (omega arith)
mask_loop_lem front (x ∷ bytes) back mask start i zero e l four = absurd (omega arith)
mask_loop_lem front (x ∷ bytes) back mask start i (suc n) e l four =
    let y = bit_xor x (key_at mask (i % 4)) in
    rw
      (
        e,
        get_elem?-append front (x ∷ (bytes ++ back)) (length front) 0 (omega arith),
        key_at_lem mask (i % 4) (omega arith),
        store_lem front (bytes ++ back) x y (length front) refl,
        ← append_assoc front (y ∷ []) (bytes ++ back),
        ← append_assoc front (y ∷ []) (masked mask (i + 1) bytes ++ back),
      )
      (mask_loop_lem (front ++ (y ∷ [])) bytes back mask start (i + 1) n
        (omega (arith, length-append front (y ∷ []))) (omega arith) four)

-- Masking a payload that lies in memory changes its bytes and nothing else.
pub apply_mask_lem :
    (front bytes back mask : List ℕ) (start n : ℕ)
    → start ≡ length front
    → n ≡ length bytes
    → length mask ≡ 4
    → apply_mask (front ++ (bytes ++ back)) start n mask
      ≡ some (front ++ (masked mask 0 bytes ++ back))
unfolding apply_mask
apply_mask_lem front bytes back mask start n e l four =
    mask_loop_lem front bytes back mask start 0 n (omega arith) l four

get_elem?-masked :
    (mask bytes : List ℕ) (start i : ℕ)
    → length mask ≡ 4
    → get_elem? (masked mask start bytes) i
      ≡ (get_elem? bytes i >>= λ x. get_elem? mask ((start + i) % 4) >>= λ k. some (bit_xor x k))
unfolding masked
get_elem?-masked mask [] start i four = refl
get_elem?-masked mask (x ∷ bytes) start zero four =
    let here : (start + 0) % 4 ≡ start % 4 = omega arith in
    rw (here, key_at_lem mask (start % 4) (omega arith)) refl
get_elem?-masked mask (x ∷ bytes) start (suc i) four =
    let there : start + suc i ≡ start + 1 + i = omega arith in
    rw there (get_elem?-masked mask bytes (start + 1) i four)

-- For a payload anywhere in memory and a mask of 4 bytes, masking accesses nothing outside the memory, leaves what is
-- around the payload as it was, and makes byte `i` of the payload its exclusive or with byte `i % 4` of the mask, up to
-- the last; masking it twice gives back the memory as it was.
pub apply_mask_twice :
    (front bytes back mask : List ℕ)
    → length mask ≡ 4
    → (covered : List ℕ) × (apply_mask (front ++ (bytes ++ back)) (length front) (length bytes) mask
        ≡ some (front ++ (covered ++ back)))
      × (length covered ≡ length bytes)
      × ((i : ℕ)
          → get_elem? covered i
            ≡ (get_elem? bytes i >>= λ x. get_elem? mask (i % 4) >>= λ k. some (bit_xor x k)))
      × (apply_mask (front ++ (covered ++ back)) (length front) (length bytes) mask
          ≡ some (front ++ (bytes ++ back)))
apply_mask_twice front bytes back mask four = (
  masked mask 0 bytes,
  apply_mask_lem front bytes back mask (length front) (length bytes) refl refl four,
  length-masked mask 0 bytes,
  λ i.
      let start : 0 + i ≡ i = omega arith in
      get_elem?-masked mask bytes 0 i four
      ∙ ap (λ j. get_elem? bytes i >>= λ x. get_elem? mask (j % 4) >>= λ k. some (bit_xor x k))
          start,
  apply_mask_lem front (masked mask 0 bytes) back mask (length front) (length bytes) refl
        (sym (length-masked mask 0 bytes)) four
      ∙ ap (λ m. some (front ++ (m ++ back))) (masked-masked mask 0 bytes),
)
