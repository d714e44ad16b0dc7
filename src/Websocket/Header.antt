-- ===== src/Websocket/Header.antt =====
-- The bytes that `ws_format_frame` of source/websocket.c writes.
use c_mx.Common.{ℕ, ◌+◌, ◌/◌, ◌^◌, ◌<◌, bit_and, bit_or, false, Bool-cases, inl, inr}
use c_mx.Common.{
  Option, none, some, List, [], ◌∷◌, ◌++◌, length, take_all, ltb, leb, ◌==◌, if◌then◌else◌,
}
use c_mx.Common.{◌>>=◌, u64, arith, ◌≡◌, refl, sym, ap, ◌∙◌, append_assoc, length-append}
use c_mx.Common.{Memory, store, store_lem, memcpy, memcpy_lem}
use c_mx.Websocket.{
  put_length, put_length64, put_length16, put_length7, put_mask, put_payload, mask_payload,
}
use c_mx.Websocket.{format_frame, flag_of}
use c_mx.Websocket.Masking.{masked, length-masked, apply_mask_lem}

-- The length field of a frame.
unfoldable pub length_bytes : ℕ → ℕ → List ℕ
length_bytes mask_flag n =
    if ltb 65535 n
    then bit_or 127 mask_flag
      ∷ bit_and (n / 2 ^ 56) 255
      ∷ bit_and (n / 2 ^ 48) 255
      ∷ bit_and (n / 2 ^ 40) 255
      ∷ bit_and (n / 2 ^ 32) 255
      ∷ bit_and (n / 2 ^ 24) 255
      ∷ bit_and (n / 2 ^ 16) 255
      ∷ bit_and (n / 2 ^ 8) 255
      ∷ bit_and n 255
      ∷ []
    else if leb 126 n
    then bit_or 126 mask_flag ∷ bit_and (n / 2 ^ 8) 255 ∷ bit_and n 255 ∷ []
    else bit_or n mask_flag ∷ []

abbrev pub mask_bytes : Option (List ℕ) → List ℕ
mask_bytes none = []
mask_bytes (some mask) = mask

-- How many bytes a mask has: 4, or none.
abbrev pub mask_size : Option (List ℕ) → ℕ
mask_size none = 0
mask_size (some mask) = 4

abbrev pub payload_bytes : Option (List ℕ) → List ℕ → List ℕ
payload_bytes none bytes = bytes
payload_bytes (some mask) bytes = masked mask 0 bytes

-- A whole frame.
abbrev pub frame_bytes : ℕ → Option (List ℕ) → List ℕ → List ℕ
frame_bytes flags mask bytes =
    flags
    ∷ (length_bytes (flag_of mask) (length bytes) ++ (mask_bytes mask ++ payload_bytes mask bytes))

pub length-payload_bytes :
    (mask : Option (List ℕ)) (bytes : List ℕ) → length (payload_bytes mask bytes) ≡ length bytes
length-payload_bytes none bytes = refl
length-payload_bytes (some mask) bytes = length-masked mask 0 bytes

-- Stores at one index after another, and then `k`.
store_each : {X : Type 0} → Memory → ℕ → List ℕ → (Memory → Option X) → Option X
store_each memory at [] k = k memory
store_each memory at (b ∷ bytes) k =
    store memory at b >>= λ memory'. store_each memory' (at + 1) bytes k

store_each_lem :
    {X : Type 0} (front old back bytes : List ℕ) (at : ℕ) (k : Memory → Option X)
    → at ≡ length front
    → length old ≡ length bytes
    → store_each (front ++ (old ++ back)) at bytes k ≡ k (front ++ (bytes ++ back))
unfolding store_each
store_each_lem front [] back [] at k e l = refl
store_each_lem front (o ∷ old) back [] at k e l = absurd (omega arith)
store_each_lem front [] back (b ∷ bytes) at k e l = absurd (omega arith)
store_each_lem front (o ∷ old) back (b ∷ bytes) at k e l =
    rw
      (
        store_lem front (old ++ back) o b at e,
        ← append_assoc front (b ∷ []) (old ++ back),
        ← append_assoc front (b ∷ []) (bytes ++ back),
      )
      (store_each_lem (front ++ (b ∷ [])) old back bytes (at + 1) k
        (omega (arith, length-append front (b ∷ []))) (omega arith))

put_length_lem :
    (flags mask_flag n : ℕ) (old back : List ℕ)
    → length old ≡ length (length_bytes mask_flag n)
    → put_length (flags ∷ (old ++ back)) mask_flag n
      ≡ some (1 + length (length_bytes mask_flag n), flags ∷ (length_bytes mask_flag n ++ back))
unfolding put_length put_length64 put_length16 put_length7 store_each length_bytes
put_length_lem flags mask_flag n old back = elim (Bool-cases (ltb 65535 n)) [
  | inl long ↦ rw long (λ l.
      store_each_lem (flags ∷ []) old back
        (bit_or 127 mask_flag
          ∷ bit_and (n / 2 ^ 56) 255
          ∷ bit_and (n / 2 ^ 48) 255
          ∷ bit_and (n / 2 ^ 40) 255
          ∷ bit_and (n / 2 ^ 32) 255
          ∷ bit_and (n / 2 ^ 24) 255
          ∷ bit_and (n / 2 ^ 16) 255
          ∷ bit_and (n / 2 ^ 8) 255
          ∷ bit_and n 255
          ∷ [])
        1 (λ m. some (10, m)) refl l)
  | inr not_long ↦ elim (Bool-cases (leb 126 n)) [
    | inl middle ↦
        rw (not_long, middle)
          (λ l.
            store_each_lem (flags ∷ []) old back
              (bit_or 126 mask_flag ∷ bit_and (n / 2 ^ 8) 255 ∷ bit_and n 255 ∷ []) 1
              (λ m. some (4, m)) refl l)
    | inr short ↦
        rw (not_long, short)
          (λ l.
            store_each_lem (flags ∷ []) old back (bit_or n mask_flag ∷ []) 1 (λ m. some (2, m)) refl
              l)
  ]
]

put_mask_lem :
    (front old back : List ℕ) (mask : Option (List ℕ)) (at : ℕ)
    → at ≡ length front
    → length old ≡ mask_size mask
    → length (mask_bytes mask) ≡ mask_size mask
    → put_mask at (front ++ (old ++ back)) mask
      ≡ some (at + mask_size mask, front ++ (mask_bytes mask ++ back))
unfolding put_mask
put_mask_lem front [] back none at e l m = ap (λ k. some (k, front ++ back)) (omega arith)
put_mask_lem front (o ∷ old) back none at e l m = absurd (omega arith)
put_mask_lem front old back (some mask) at e l m = rw (
  memcpy_lem front old back mask 4 at e (omega arith) (omega arith),
  take_all mask 4 (omega arith),
)

mask_payload_lem :
    (front bytes back : List ℕ) (mask : Option (List ℕ)) (at : ℕ)
    → at ≡ length front
    → length (mask_bytes mask) ≡ mask_size mask
    → mask_payload (front ++ (bytes ++ back)) at (length bytes) mask
      ≡ some (front ++ (payload_bytes mask bytes ++ back))
unfolding mask_payload
mask_payload_lem front bytes back none at e m = refl
mask_payload_lem front bytes back (some mask) at e m =
    apply_mask_lem front bytes back mask at (length bytes) e refl m

put_payload_lem :
    (front old back bytes : List ℕ) (mask : Option (List ℕ)) (at : ℕ)
    → at ≡ length front
    → length old ≡ length bytes
    → length (mask_bytes mask) ≡ mask_size mask
    → put_payload (front ++ (old ++ back)) at mask bytes (length bytes)
      ≡ some (front ++ (payload_bytes mask bytes ++ back))
unfolding put_payload
put_payload_lem front [] back [] none at e l m = refl
put_payload_lem front [] back [] (some mask) at e l m = unfold masked in refl
put_payload_lem front (o ∷ old) back [] mask at e l m = absurd (omega arith)
put_payload_lem front old back (b ∷ bytes) mask at e l m =
    let copied : memcpy (front ++ (old ++ back)) at (b ∷ bytes) (length (b ∷ bytes))
        ≡ some (front ++ ((b ∷ bytes) ++ back)) =
      memcpy_lem front old back (b ∷ bytes) (length (b ∷ bytes)) at e (sym l) (omega arith)
      ∙ ap (λ t. some (front ++ (t ++ back)))
          (take_all (b ∷ bytes) (length (b ∷ bytes)) (omega arith)) in
    let filled : (length (b ∷ bytes) == 0) ≡ false = ground arith in
    rw (filled, copied) (mask_payload_lem front (b ∷ bytes) back mask at e m)

-- Formatting into a buffer of which the parts that the frame's parts go to are known.
pub parts_lem :
    (flags o : ℕ) (old1 old2 old3 back bytes : List ℕ) (mask : Option (List ℕ))
    → length old1 ≡ length (length_bytes (flag_of mask) (length bytes))
    → length old2 ≡ mask_size mask
    → length old3 ≡ length bytes
    → length (mask_bytes mask) ≡ mask_size mask
    → length (frame_bytes flags mask bytes) < 2 ^ 64
    → format_frame (o ∷ (old1 ++ (old2 ++ (old3 ++ back)))) flags mask bytes (length bytes)
      ≡ some (length (frame_bytes flags mask bytes), frame_bytes flags mask bytes ++ back)
unfolding format_frame
parts_lem flags o old1 old2 old3 back bytes mask l1 l2 l3 m small =
    let sizes = length_bytes (flag_of mask) (length bytes) in
    let front = flags ∷ sizes in
    let size_lem : u64 (1 + length sizes + mask_size mask + length bytes)
        ≡ length (frame_bytes flags mask bytes) =
      omega (
        arith,
        m,
        small,
        length-append sizes (mask_bytes mask ++ payload_bytes mask bytes),
        length-append (mask_bytes mask) (payload_bytes mask bytes),
        length-payload_bytes mask bytes,
      ) in
    rw (
      store_lem [] (old1 ++ (old2 ++ (old3 ++ back))) o flags 0 refl,
      put_length_lem flags (flag_of mask) (length bytes) old1 (old2 ++ (old3 ++ back)) l1,
      put_mask_lem front old2 (old3 ++ back) mask (1 + length sizes) (omega arith) l2 m,
      ← append_assoc front (mask_bytes mask) (old3 ++ back),
      put_payload_lem (front ++ mask_bytes mask) old3 back bytes mask
          (1 + length sizes + mask_size mask)
          (omega (arith, length-append front (mask_bytes mask), m)) l3 m,
      size_lem,
      append_assoc front (mask_bytes mask) (payload_bytes mask bytes ++ back),
      append_assoc sizes (mask_bytes mask ++ payload_bytes mask bytes) back,
      append_assoc (mask_bytes mask) (payload_bytes mask bytes) back,
    )
