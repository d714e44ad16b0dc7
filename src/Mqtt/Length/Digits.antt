-- ===== src/Mqtt/Length/Digits.antt =====
-- The groups of seven bits that the remaining-length field consists of, and what the two loops
-- of source/mqtt.c do with them.
use c_mx.Common.{
  ℕ, zero, suc, ◌+◌, ◌*◌, ◌/◌, ◌%◌, ◌^◌, ◌≤◌, ◌<◌, Bool, true, false, some, List, [], ◌∷◌, ◌++◌,
}
use c_mx.Common.{
  length, length-append, get_elem?, get_elem?-append, append_assoc, Bool-cases, ltb, leb,
}
use c_mx.Common.{
  u8, if◌then◌else◌, bit_and_127, bit_and_128, bit_or, bit_or_128, lt→ltb, le→ltb, arith,
}
use c_mx.Common.{◌≡◌, refl, subst, sym, ap, ◌∙◌, inl, inr}
use c_mx.Mqtt.Put.{Memory, ◌>>◌}
use c_mx.Mqtt.Put.Laws.{Writes, >>-Writes, put_byte-Writes}
use c_mx.Mqtt.Length.{Decoded, need_more, invalid, decoded, decode_loop, decode_length}
use c_mx.Mqtt.Length.{skip_byte, put_digit, encode_loop, encode_length}
use native.Mathlib.Nat.{div-add-mod, pow-suc, one-le-pow}

-- Lowest group first, `k + 1` groups at most, the top bit set on all but the last.
unfoldable pub groups : ℕ → ℕ → List ℕ
groups zero v = v ∷ []
groups (suc k) v = if ltb v 128 then v ∷ [] else (v % 128 + 128) ∷ groups k (v / 128)

pub groups_last : (k v : ℕ) → v < 128 → groups k v ≡ v ∷ []
unfolding groups
groups_last zero v h = refl
groups_last (suc k) v h = rw (lt→ltb v 128 h)

pub groups_more : (k v : ℕ) → 128 ≤ v → groups (suc k) v ≡ (v % 128 + 128) ∷ groups k (v / 128)
unfolding groups
groups_more k v h = rw (le→ltb v 128 h)

-- Room for more groups changes nothing where the value fits fewer.
pub groups_room : (k m v : ℕ) → k ≤ m → v < 128 ^ suc k → groups m v ≡ groups k v
groups_room zero m v h b = groups_last m v b ∙ sym (groups_last zero v b)
groups_room (suc k) zero v h b = absurd (omega arith)
groups_room (suc k) (suc m) v h b = elim (Bool-cases (ltb v 128)) [
  | inl e ↦ groups_last (suc m) v (ground arith) ∙ sym (groups_last (suc k) v (ground arith))
  | inr e ↦
      rw (groups_more m v (ground arith), groups_more k v (ground arith))
        (ap (λ t. (v % 128 + 128) ∷ t) (groups_room k m (v / 128) (omega arith) (omega arith)))
]

pub length-groups : (k v : ℕ) → (1 ≤ length (groups k v)) × (length (groups k v) ≤ k + 1)
unfolding groups
length-groups zero v = omega arith
length-groups (suc k) v = ground (arith, length-groups k (v / 128))

pub length-groups_large : (k m v : ℕ) → k ≤ m → 128 ^ k ≤ v → k + 1 ≤ length (groups m v)
length-groups_large zero m v h b = omega (arith, length-groups m v)
length-groups_large (suc k) zero v h b = absurd (omega arith)
length-groups_large (suc k) (suc m) v h b =
    let big : 128 ≤ v = omega (arith, pow-suc 128 k, one-le-pow k 128) in
    rw (groups_more m v big) (
      omega (arith, length-groups_large k m (v / 128) (omega arith) (omega (arith, pow-suc 128 k))))

-- One round of the decoder on a last byte, and on a byte with the top bit set over the group `c`.
module _ (fuel : ℕ) (memory : Memory) (at len idx multiplier val c : ℕ) (inside : idx < len)
    (early : idx < 4) (group : c < 128) (fits : val + c * multiplier < 2 ^ 64) where
  decode_last :
      get_elem? memory (at + idx) ≡ some c
      → decode_loop (suc fuel) memory at len idx multiplier val
        ≡ some (decoded (idx + 1) (val + c * multiplier))
  unfolding decode_loop
  decode_last e = ground (arith, bit_and_127 c, bit_and_128 c)

  decode_inner :
      get_elem? memory (at + idx) ≡ some (c + 128)
      → decode_loop (suc fuel) memory at len idx multiplier val
        ≡ decode_loop fuel memory at len (idx + 1) (multiplier * 128) (val + c * multiplier)
  unfolding decode_loop
  decode_inner e = ground (arith, bit_and_127 (c + 128), bit_and_128 (c + 128))

-- One round of the encoder.
module _ (fuel : ℕ) (has_buffer : Bool) (v : ℕ) where
  encode_last : v < 128 → encode_loop (suc fuel) has_buffer v ≡ put_digit has_buffer v
  unfolding encode_loop
  encode_last h =
      let stop : ltb 0 (v / 128) ≡ false = ground arith in
      let digit : u8 (v % 128) ≡ v = omega arith in rw (stop, digit)

  encode_more :
      128 ≤ v
      → encode_loop (suc fuel) has_buffer v
        ≡ put_digit has_buffer (v % 128 + 128) >> encode_loop fuel has_buffer (v / 128)
  unfolding encode_loop
  encode_more h =
      let next : ltb 0 (v / 128) ≡ true = ground arith in
      let digit : bit_or (u8 (v % 128)) 128 ≡ v % 128 + 128 =
        ground (arith, bit_or_128 (v % 128)) in
      rw (next, digit)

-- The loop counts as many bytes as there are groups, and stores them where there is a buffer.
pub encode_loop-Writes :
    (k v : ℕ) → v < 128 ^ suc k → Writes (encode_loop (suc k) true v) (groups k v)
unfolding put_digit
encode_loop-Writes zero v h =
    rw (encode_last 0 true v h, groups_last 0 v h) (put_byte-Writes v (omega arith))
encode_loop-Writes (suc k) v h = elim (Bool-cases (ltb v 128)) [
  | inl e ↦
      rw (encode_last (suc k) true v (ground arith), groups_last (suc k) v (ground arith))
        (put_byte-Writes v (ground arith))
  | inr e ↦
      rw (encode_more (suc k) true v (ground arith), groups_more k v (ground arith))
        (>>-Writes (put_byte-Writes (v % 128 + 128) (omega arith))
          (encode_loop-Writes k (v / 128) (omega arith)))
]

pub encode_loop_counts :
    (k v at : ℕ) (memory : Memory)
    → v < 128 ^ suc k
    → encode_loop (suc k) false v at memory ≡ some (length (groups k v), memory)
unfolding put_digit skip_byte ◌>>◌
encode_loop_counts zero v at memory h = rw (encode_last 0 false v h, groups_last 0 v h)
encode_loop_counts (suc k) v at memory h = elim (Bool-cases (ltb v 128)) [
  | inl e ↦ rw (encode_last (suc k) false v (ground arith), groups_last (suc k) v (ground arith))
  | inr e ↦
      let size : 1 + length (groups k (v / 128)) ≡ suc (length (groups k (v / 128))) =
        omega arith in
      rw (
        encode_more (suc k) false v (ground arith),
        groups_more k v (ground arith),
        ◌>>◌,
        encode_loop_counts k (v / 128) (at + 1) memory (omega arith),
        size,
      )
]

-- The value of the groups that are left, times the multiplier, splits off its lowest group.
split_group :
    (w multiplier : ℕ) → w * multiplier ≡ w % 128 * multiplier + w / 128 * (multiplier * 128)
split_group w multiplier = omega (arith, ap (λ (t : ℕ). t * multiplier) (div-add-mod w 128))

-- What the decoder says with `len` bytes at hand of a field of `size` bytes and value `v`.
abbrev pub verdict : ℕ → ℕ → ℕ → Decoded
verdict len size v = if leb size len then decoded size v else need_more

decode_short :
    (fuel : ℕ) (memory : Memory) (at len idx multiplier val : ℕ)
    → len ≤ idx
    → decode_loop (suc fuel) memory at len idx multiplier val ≡ some need_more
unfolding decode_loop
decode_short fuel memory at len idx multiplier val h = ground arith

-- The decoder, from index `idx` on, over the groups of `w`.
module _ (memory : Memory) (at len : ℕ) (back : List ℕ) where
  decode_single :
      (fuel w idx multiplier val : ℕ) (front : List ℕ)
      → idx < 4
      → w < 128
      → val + w * multiplier < 2 ^ 64
      → at + idx ≡ length front
      → memory ≡ front ++ (w ∷ back)
      → decode_loop (suc fuel) memory at len idx multiplier val
        ≡ some (verdict len (idx + 1) (val + w * multiplier))
  decode_single fuel w idx multiplier val front i b fits a m = ground (
    arith,
    decode_short fuel memory at len idx multiplier val,
    decode_last fuel memory at len idx multiplier val w,
    ap (λ (t : Memory). get_elem? t (at + idx)) m,
    get_elem?-append front (w ∷ back) (at + idx) 0 (omega arith),
  )

  -- A round on a group that others follow, given what the loop does with those.
  decode_round :
      (k fuel w idx multiplier val : ℕ) (front : List ℕ)
      → 128 ≤ w
      → idx < 4
      → val + w * multiplier < 2 ^ 64
      → at + idx ≡ length front
      → memory ≡ front ++ ((w % 128 + 128) ∷ (groups k (w / 128) ++ back))
      → decode_loop fuel memory at len (idx + 1) (multiplier * 128) (val + w % 128 * multiplier)
        ≡ some (
            verdict len
              (idx + 1 + length (groups k (w / 128)))
              (val + w % 128 * multiplier + w / 128 * (multiplier * 128)))
      → decode_loop (suc fuel) memory at len idx multiplier val
        ≡ some (verdict len (idx + length (groups (suc k) w)) (val + w * multiplier))
  decode_round k fuel w idx multiplier val front big i fits a m ih = ground (
    arith,
    groups_more k w,
    split_group w multiplier,
    decode_short fuel memory at len idx multiplier val,
    decode_inner fuel memory at len idx multiplier val (w % 128),
    ap (λ (t : Memory). get_elem? t (at + idx)) m,
    get_elem?-append front ((w % 128 + 128) ∷ (groups k (w / 128) ++ back)) (at + idx) 0
        (omega arith),
  )

  pub decode-groups :
      (k fuel w idx multiplier val : ℕ) (front : List ℕ)
      → k < fuel
      → idx + k < 4
      → w < 128 ^ suc k
      → val + w * multiplier < 2 ^ 64
      → at + idx ≡ length front
      → memory ≡ front ++ (groups k w ++ back)
      → decode_loop fuel memory at len idx multiplier val
        ≡ some (verdict len (idx + length (groups k w)) (val + w * multiplier))
  decode-groups k zero w idx multiplier val front kf ik b fits a m = absurd (omega arith)
  decode-groups zero (suc fuel) w idx multiplier val front kf ik b fits a m =
      rw (groups_last 0 w b) (
        decode_single fuel w idx multiplier val front (omega arith) b fits a
          (rw (groups_last 0 w b) at m))
  decode-groups (suc k) (suc fuel) w idx multiplier val front kf ik b fits a m =
      elim (Bool-cases (ltb w 128)) [
        | inl e ↦ rw (groups_last (suc k) w (ground arith)) (
            decode_single fuel w idx multiplier val front (omega arith) (ground arith) fits a
              (rw (groups_last (suc k) w (ground arith)) at m))
        | inr e ↦
            let group = w % 128 + 128 in
            let big : 128 ≤ w = ground arith in
            let shape : memory ≡ front ++ (group ∷ (groups k (w / 128) ++ back)) =
              rw (groups_more k w big) at m in
            decode_round k fuel w idx multiplier val front big (omega arith) fits a shape (
              decode-groups k fuel (w / 128) (idx + 1) (multiplier * 128)
                (val + w % 128 * multiplier) (front ++ (group ∷ [])) (omega arith) (omega arith)
                (omega arith) (omega (arith, split_group w multiplier))
                (omega (arith, length-append front (group ∷ [])))
                (shape ∙ sym (append_assoc front (group ∷ []) (groups k (w / 128) ++ back))))
      ]

  -- A field of more than four groups: no number is read from it.
  pub decode_too_long :
      (k K fuel w idx multiplier val : ℕ) (front : List ℕ)
      → k < fuel
      → idx + k ≡ 4
      → k ≤ K
      → 128 ^ k ≤ w
      → val + w * multiplier < 2 ^ 64
      → at + idx ≡ length front
      → memory ≡ front ++ (groups K w ++ back)
      → decode_loop fuel memory at len idx multiplier val
        ≡ some (if leb len 4 then need_more else invalid)
  decode_too_long k K zero w idx multiplier val front kf ik kk b fits a m = absurd (omega arith)
  decode_too_long zero K (suc fuel) w idx multiplier val front kf ik kk b fits a m =
      unfold decode_loop in ground arith
  decode_too_long (suc k) zero (suc fuel) w idx multiplier val front kf ik kk b fits a m =
      absurd (omega arith)
  decode_too_long (suc k) (suc K) (suc fuel) w idx multiplier val front kf ik kk b fits a m =
      let group = w % 128 + 128 in
      let pow : 128 * 128 ^ k ≤ w = omega (arith, pow-suc 128 k) in
      let big : 128 ≤ w = omega (arith, one-le-pow k 128) in
      let shape : memory ≡ front ++ (group ∷ (groups K (w / 128) ++ back)) =
        rw (groups_more K w big) at m in
      let rest =
        decode_too_long k K fuel (w / 128) (idx + 1) (multiplier * 128) (val + w % 128 * multiplier)
          (front ++ (group ∷ [])) (omega arith) (omega arith) (omega arith) (omega arith)
          (omega (arith, split_group w multiplier))
          (omega (arith, length-append front (group ∷ [])))
          (shape ∙ sym (append_assoc front (group ∷ []) (groups K (w / 128) ++ back))) in
      ground (
        arith,
        rest,
        split_group w multiplier,
        decode_short fuel memory at len idx multiplier val,
        decode_inner fuel memory at len idx multiplier val (w % 128),
        ap (λ (t : Memory). get_elem? t (at + idx)) shape,
        get_elem?-append front (group ∷ (groups K (w / 128) ++ back)) (at + idx) 0 (omega arith),
      )

-- The whole functions at a length below 2^28.
module _ (value : ℕ) (small : value < 2 ^ 28) where
  pub encode_length-Writes : Writes (encode_length true value) (groups 3 value)
  unfolding encode_length
  encode_length-Writes =
      subst (Writes (encode_length true value)) (groups_room 3 9 value (omega arith) small)
        (encode_loop-Writes 9 value (omega arith))

  pub decode_length-groups :
      (memory : Memory) (at len : ℕ) (front back : List ℕ)
      → at ≡ length front
      → memory ≡ front ++ (groups 3 value ++ back)
      → decode_length memory at len ≡ some (verdict len (length (groups 3 value)) value)
  unfolding decode_length
  decode_length-groups memory at len front back e m =
      rw
        (decode-groups memory at len back 3 5 value 0 1 0 front (omega arith) (omega arith) small
          (omega arith) (omega arith) m)
        (ap some (ground arith))
