-- ===== src/Buffer/Refine.antt =====
-- A valid buffer behaves as the queue of the bytes that it holds.
use c_mx.Common.{ℕ, zero, suc, ◌+◌, ◌-◌, ◌^◌, ◌≤◌, ◌<◌, true, some, List, [], ◌++◌}
use c_mx.Common.{length, take, drop, length-take, length-drop, length-append, take-append, take_all}
use c_mx.Common.{ltb, u64, if◌then◌else◌, Bool-cases, inl, inr, arith, ◌≡◌, refl, sym, ap, ◌∙◌}
use c_mx.Common.{memcpy_splice, append_assoc, drop_all, drop-drop, drop-take, take-take, ◌==◌}
use c_mx.Buffer.{Allocator, Buffer, init, reset, clean, append, copy, take_chunk, cut}
use c_mx.Buffer.Valid.{IsValid, contents, length-contents, resize-IsRewound, load_bytes_lem}

-- What a buffer holds once `bytes` stand behind its first `kept` bytes.
abbrev stored : Buffer → ℕ → List ℕ → Buffer
stored b kept bytes = record b {
  alloc = take kept b.alloc ++ (bytes ++ drop (length bytes) (drop kept b.alloc));
  len = kept + length bytes;
}

stored-IsValid :
    (b : Buffer) (kept : ℕ) (bytes : List ℕ)
    → IsValid b
    → b.data_at ≡ 0
    → kept + length bytes ≤ b.size
    → IsValid (stored b kept bytes) × (contents (stored b kept bytes) ≡ take kept b.alloc ++ bytes)
stored-IsValid b kept bytes v e fits = (
  record {
    block = omega (
      arith,
      v.block,
      length-append (take kept b.alloc) (bytes ++ rest),
      length-append bytes rest,
      length-take kept b.alloc,
      length-drop kept b.alloc,
      length-drop (length bytes) (drop kept b.alloc),
    );
    inside = omega arith;
    small = v.small;
  },
  ap (λ k. take (kept + length bytes) (drop k (take kept b.alloc ++ (bytes ++ rest)))) e
      ∙ ap (take (kept + length bytes)) (sym (append_assoc (take kept b.alloc) bytes rest))
      ∙ take-append (take kept b.alloc ++ bytes) rest (kept + length bytes) (
          omega
            (arith, v.block, length-append (take kept b.alloc) bytes, length-take kept b.alloc)),
)
  where
    rest : List ℕ
    rest = drop (length bytes) (drop kept b.alloc)

module _ (a : Allocator) where
  -- Appending to a valid buffer, where its new length fits a `size_t`: no access is out of the block,
  -- the buffer stays valid, and it holds the appended bytes behind those that it held.
  pub append_refines :
      {b : Buffer}
      → IsValid b
      → (bytes : List ℕ) → b.len + length bytes < 2 ^ 64
      → (b' : Buffer) × (append a b bytes (length bytes) ≡ some b')
        × IsValid b'
        × (contents b' ≡ contents b ++ bytes)
  unfolding append
  append_refines {b} v bytes small =
      let (b', runs, r, room) = resize-IsRewound a v (length bytes) small in
      let (valid, holds) = stored-IsValid b' b'.len bytes r.valid r.start room in
      let at_end : b'.data_at + b'.len ≡ b'.len = omega (arith, r.start) in
      let new_len : u64 (b'.len + length bytes) ≡ b'.len + length bytes =
        omega (arith, r.same_len) in
      let kept : take b'.len b'.alloc ≡ contents b =
        ap (λ k. take b'.len (drop k b'.alloc)) (sym r.start) ∙ r.same_bytes in
      (
        stored b' b'.len bytes,
        rw (
          runs,
          at_end,
          memcpy_splice b'.alloc bytes b'.len (length bytes) (omega (arith, r.valid.block)) refl,
          new_len,
        ),
        valid,
        holds ∙ ap (λ t. t ++ bytes) kept,
      )

  -- Copying one valid buffer over another, where their lengths add up to less than 2^64: no access is out of either block, and the copy is valid and
  -- holds what the other holds, whatever it held before.
  pub copy_refines :
      {b other : Buffer}
      → IsValid b
      → IsValid other
      → b.len + other.len < 2 ^ 64
      → (b' : Buffer) × (copy a b other ≡ some b') × IsValid b' × (contents b' ≡ contents other)
  unfolding copy
  copy_refines {b} {other} v w small =
      let (b', runs, r, room) = resize-IsRewound a v other.len small in
      let size = length-contents w in
      let (valid, holds) =
        stored-IsValid b' 0 (contents other) r.valid r.start (omega (arith, size)) in
      let new_len : 0 + other.len ≡ other.len = omega arith in
      (
        stored b' 0 (contents other),
        rw (
          runs,
          load_bytes_lem other.alloc other.data_at other.len (omega (arith, w.block, w.inside)),
          r.start,
          memcpy_splice b'.alloc (contents other) 0 other.len (omega (arith, r.valid.block))
              (sym size),
          size,
          new_len,
        ),
        valid,
        holds,
      )

-- Cutting at most the stored bytes off a valid buffer leaves it valid, with the rest.
pub cut_refines :
    {b : Buffer}
    → IsValid b
    → (n : ℕ) → n ≤ b.len
    → IsValid (cut b n) × (contents (cut b n) ≡ drop n (contents b))
unfolding cut
cut_refines {b} v n h =
    let left : u64 (b.len + 2 ^ 64 - n) ≡ b.len - n = omega (arith, v.inside, v.small) in
    (
      record { block = v.block; inside = omega (arith, v.inside); small = v.small },
      rw left (
          ap (take (b.len - n)) (sym (drop-drop b.data_at n b.alloc))
          ∙ sym (drop-take n b.len (drop b.data_at b.alloc) h)),
    )

-- The call where it copies something.
take_chunk_copies :
    {b : Buffer}
    → IsValid b
    → (n chunk : ℕ) → (if ltb b.len n then b.len else n) ≡ chunk
    → 0 < chunk
    → take_chunk b n ≡ some (take chunk (contents b), cut b chunk)
unfolding take_chunk
take_chunk_copies {b} v n chunk e pos =
    let some_bytes : ltb 0 chunk ≡ true = ground arith in
    let inside : chunk ≤ b.len = ground arith in
    rw (
      e,
      some_bytes,
      load_bytes_lem b.alloc b.data_at chunk (omega (arith, v.block, v.inside)),
      take-take chunk b.len (drop b.data_at b.alloc) inside,
    )

take_chunk_idle :
    {b : Buffer} (n : ℕ) → (if ltb b.len n then b.len else n) ≡ 0 → take_chunk b n ≡ some ([], b)
unfolding take_chunk
take_chunk_idle n e = rw e

-- Taking `n` bytes out of a valid buffer: no access is out of the block, the first `n` of its
-- bytes come out, or all if there are fewer, the others stay, and it is valid.
pub take_chunk_refines :
    {b : Buffer}
    → IsValid b
    → (n : ℕ)
    → (b' : Buffer) × (take_chunk b n ≡ some (take n (contents b), b'))
      × IsValid b'
      × (contents b' ≡ drop n (contents b))
take_chunk_refines {b} v zero = (b, take_chunk_idle 0 (ground arith), v, refl)
take_chunk_refines {b} v (suc n) = elim (Bool-cases (ltb b.len (suc n))) [
  | inr enough ↦
      let (valid, holds) = cut_refines v (suc n) (ground arith) in
      (
        cut b (suc n),
        take_chunk_copies v (suc n) (suc n) (ground arith) (omega arith),
        valid,
        holds,
      )
  | inl short ↦
      let size = length-contents v in
      let all = take_all (contents b) (suc n) (ground (arith, size)) in
      let none_left = drop_all (contents b) (suc n) (ground (arith, size)) in
      elim (Bool-cases (b.len == 0)) [
        | inl empty ↦
            let zero_len : b.len ≡ 0 = ground arith in
            let no_bytes : contents b ≡ [] = ap (λ k. take k (drop b.data_at b.alloc)) zero_len in
            (
              b,
              take_chunk_idle (suc n) (ground arith)
                  ∙ ap (λ t. some (t, b)) (sym no_bytes ∙ sym all),
              v,
              no_bytes ∙ sym none_left,
            )
        | inr filled ↦
            let (valid, holds) = cut_refines v b.len (omega arith) in
            (
              cut b b.len,
              take_chunk_copies v (suc n) b.len (ground arith) (ground arith)
                  ∙ ap (λ t. some (t, cut b b.len))
                      (take_all (contents b) b.len (omega (arith, size)) ∙ sym all),
              valid,
              holds ∙ drop_all (contents b) b.len (omega (arith, size)) ∙ sym none_left,
            )
      ]
]

-- A buffer made by `buffer_init`, reset or cleaned is valid and holds nothing.
pub fresh_refines :
    (a : Allocator) (size : ℕ) {b : Buffer}
    → size < 2 ^ 64
    → IsValid b
    → (IsValid (init a size) × (contents (init a size) ≡ []))
      × (IsValid (reset b) × (contents (reset b) ≡ []))
      × (IsValid (clean b) × (contents (clean b) ≡ []))
unfolding init reset clean
fresh_refines a size {b} small v = (
  (record { block = a.length-malloc size; inside = omega arith; small = small }, refl),
  (record { block = v.block; inside = omega arith; small = v.small }, refl),
  (record { block = refl; inside = omega arith; small = omega arith }, refl),
)
