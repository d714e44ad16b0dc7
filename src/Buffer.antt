-- ===== src/Buffer.antt =====
-- The byte buffer: source/buffer.c and include/mx/buffer.h.
-- `alloc` is the allocated block, empty for the null pointer, and `data` is the index of
-- `self->data` in it. `none` is an access outside the block.
pub mod Valid
pub mod Refine
pub mod Queue
pub mod Zeroing
mod Tests
use c_mx.Common.{ℕ, ◌+◌, ◌-◌, ◌^◌, ◌≤◌, Bool, true, false, Option, none, some, List, [], length}
use c_mx.Common.{take, min, u64, ltb, ◌==◌, if◌then◌else◌, ◌>>=◌, ◌≡◌, Memory, memcpy}
use c_mx.Common.{load_bytes, memmove}

-- What the C library promises of the blocks that `malloc` and `realloc` return. The wrappers
-- `xmalloc` and `xrealloc` end the program where these fail, so a call that returns has a block.
pub record Allocator : Type 0 where
  pub malloc : ℕ → Memory
  pub realloc : Memory → ℕ → Memory
  pub length-malloc : (n : ℕ) → length (malloc n) ≡ n
  pub length-realloc : (block : Memory) (n : ℕ) → length (realloc block n) ≡ n
  pub take-realloc :
      (block : Memory) (n k : ℕ)
      → k ≤ length block
      → k ≤ n
      → take k (realloc block n) ≡ take k block

-- `struct buffer`
pub record Buffer : Type 0 where
  pub alloc : Memory
  pub data_at : ℕ
  pub len : ℕ
  pub size : ℕ

-- `buffer_reset`
pub reset : Buffer → Buffer
reset self = record self { data_at = 0; len = 0 }

-- `buffer_cut`: the new length is the result too.
unfoldable pub cut : Buffer → ℕ → Buffer
cut self n = record self { data_at = self.data_at + n; len = u64 (self.len + 2 ^ 64 - n) }

pub is_empty : Buffer → Bool
is_empty self = if self.len == 0 then true else false

pub clean : Buffer → Buffer
clean self = record { alloc = []; data_at = 0; len = 0; size = 0 }

pub rewind : Buffer → Option Buffer
rewind self =
    if self.data_at == 0
    then some self
    else ((if self.len == 0 then some self.alloc else memmove self.alloc 0 self.data_at self.len)
        >>= λ alloc. some (record self { alloc = alloc; data_at = 0 }))

module _ (a : Allocator) where
  pub init : ℕ → Buffer
  init size = record { alloc = a.malloc size; data_at = 0; len = 0; size = size }

  pub resize : Buffer → ℕ → Option Buffer
  unfolding rewind
  resize self n = do
    self' ← rewind self
    let expected = u64 (self'.len + n)
    some (
        if ltb self'.size expected
        then record self' { alloc = a.realloc self'.alloc expected; data_at = 0; size = expected }
        else self')

  -- `bytes` is the memory behind the caller's pointer.
  pub append : Buffer → List ℕ → ℕ → Option Buffer
  unfolding resize
  append self bytes n = do
    self' ← resize self n
    alloc ← memcpy self'.alloc (self'.data_at + self'.len) bytes n
    some (record self' { alloc = alloc; len = u64 (self'.len + n) })

  pub copy : Buffer → Buffer → Option Buffer
  unfolding resize
  copy self other = do
    self' ← resize self other.len
    bytes ← load_bytes other.alloc other.data_at other.len
    alloc ← memcpy self'.alloc self'.data_at bytes other.len
    some (record self' { alloc = alloc; len = other.len })

-- The bytes that are stored through the caller's pointer, and the buffer without them. The
-- result `chunk_len` is their number.
pub take_chunk : Buffer → ℕ → Option (List ℕ × Buffer)
unfolding cut
take_chunk self n =
    let chunk_len = if ltb self.len n then self.len else n in
    if ltb 0 chunk_len
    then (load_bytes self.alloc self.data_at chunk_len >>= λ bytes.
        some (bytes, cut self chunk_len))
    else some ([], self)
