-- ===== src/Buffer/Valid.antt =====
-- The representation invariant of a buffer, its contents, and what rewinding and resizing do.
use c_mx.Common.{ℕ, ◌+◌, ◌^◌, ◌≤◌, ◌<◌, true, some, List, ◌++◌, length, take, drop}
use c_mx.Common.{length-take, length-drop, length-append, take-append, ltb, u64}
use c_mx.Common.{◌==◌, Bool-cases, inl, inr, arith, ◌≡◌, refl, sym, ap, ◌∙◌}
use c_mx.Common.{Memory, memcpy_splice, load_bytes, memmove}
use c_mx.Buffer.{Allocator, Buffer, rewind, resize}

-- The block has the stated size, and the data lies inside it.
pub record IsValid (b : Buffer) : Type 0 where
  pub block : length b.alloc ≡ b.size
  pub inside : b.data_at + b.len ≤ b.size
  pub small : b.size < 2 ^ 64

-- The bytes that a buffer holds, first byte first.
abbrev pub contents : Buffer → List ℕ
contents b = take b.len (drop b.data_at b.alloc)

pub length-contents : {b : Buffer} → IsValid b → length (contents b) ≡ b.len
length-contents {b} v = omega (
  arith,
  v.block,
  v.inside,
  length-take b.len (drop b.data_at b.alloc),
  length-drop b.data_at b.alloc,
)

pub load_bytes_lem :
    (memory : Memory) (at n : ℕ)
    → at + n ≤ length memory
    → load_bytes memory at n ≡ some (take n (drop at memory))
unfolding load_bytes
load_bytes_lem memory at n h = ground arith

-- The buffer as it is when its data stands at the start of the block.
pub record IsRewound (b b' : Buffer) : Type 0 where
  pub valid : IsValid b'
  pub start : b'.data_at ≡ 0
  pub same_len : b'.len ≡ b.len
  pub same_bytes : contents b' ≡ contents b

moved : Buffer → Buffer
moved b = record b { alloc = contents b ++ drop b.len b.alloc; data_at = 0 }

moved-IsRewound : {b : Buffer} → IsValid b → IsRewound b (moved b)
unfolding moved
moved-IsRewound {b} v = record {
  valid = record {
    block = omega (
      arith,
      v.block,
      v.inside,
      length-contents v,
      length-append (contents b) (drop b.len b.alloc),
      length-drop b.len b.alloc,
    );
    inside = omega (arith, v.inside);
    small = v.small;
  };
  start = refl;
  same_len = refl;
  same_bytes = take-append (contents b) (drop b.len b.alloc) b.len (sym (length-contents v));
}

nothing_moved : {b : Buffer} → IsValid b → b.len ≡ 0 → IsRewound b (record b { data_at = 0 })
nothing_moved {b} v e = record {
  valid = record { block = v.block; inside = omega (arith, v.inside); small = v.small };
  start = refl;
  same_len = refl;
  same_bytes = ap (λ n. take n b.alloc) e ∙ sym (ap (λ n. take n (drop b.data_at b.alloc)) e);
}

pub rewind-IsRewound :
    {b : Buffer}
    → IsValid b
    → (b' : Buffer) × (rewind b ≡ some b') × IsRewound b b' × (b'.size ≡ b.size)
unfolding rewind memmove moved
rewind-IsRewound {b} v = elim (Bool-cases (b.data_at == 0)) [
  | inl e ↦ (
    b,
    rw e,
    record { valid = v; start = ground arith; same_len = refl; same_bytes = refl },
    refl,
  )
  | inr e ↦ elim (Bool-cases (b.len == 0)) [
    | inl z ↦ (record b { data_at = 0 }, rw (e, z), nothing_moved v (ground arith), refl)
    | inr z ↦ (
      moved b,
      rw (
        e,
        z,
        memmove,
        load_bytes_lem b.alloc b.data_at b.len (omega (arith, v.block, v.inside)),
        memcpy_splice b.alloc (contents b) 0 b.len (omega (arith, v.block, v.inside))
            (sym (length-contents v)),
        moved,
      ),
      moved-IsRewound v,
      unfold moved in refl,
    )
  ]
]

module _ (a : Allocator) where
  grown :
      {b b' : Buffer}
      → IsRewound b b'
      → (n : ℕ) → b'.len + n < 2 ^ 64
      → ltb b'.size (u64 (b'.len + n)) ≡ true
      → IsRewound b (record b' {
        alloc = a.realloc b'.alloc (u64 (b'.len + n));
        data_at = 0;
        size = u64 (b'.len + n);
      })
  grown {b} {b'} r n small grow = record {
    valid = record {
      block = a.length-realloc b'.alloc (u64 (b'.len + n));
      inside = omega arith;
      small = omega arith;
    };
    start = refl;
    same_len = r.same_len;
    same_bytes =
        a.take-realloc b'.alloc (u64 (b'.len + n)) b'.len
          (omega (arith, r.valid.block, r.valid.inside)) (omega arith)
        ∙ ap (λ k. take b'.len (drop k b'.alloc)) (sym r.start)
        ∙ r.same_bytes;
  }

  -- What resizing leaves: the data at the start, as it was, and room behind it.
  pub resize-IsRewound :
      {b : Buffer}
      → IsValid b
      → (n : ℕ) → b.len + n < 2 ^ 64
      → (b' : Buffer) × (resize a b n ≡ some b') × IsRewound b b' × (b'.len + n ≤ b'.size)
  unfolding resize
  resize-IsRewound {b} v n small =
      let (b', runs, r, same_size) = rewind-IsRewound v in
      elim (Bool-cases (ltb b'.size (u64 (b'.len + n)))) [
        | inl grow ↦ (
          record b' {
            alloc = a.realloc b'.alloc (u64 (b'.len + n));
            data_at = 0;
            size = u64 (b'.len + n);
          },
          rw (runs, grow),
          grown r n (ground (arith, r.same_len)) grow,
          omega (arith, r.same_len),
        )
        | inr fits ↦ (b', rw (runs, fits), r, ground (arith, r.same_len))
      ]
