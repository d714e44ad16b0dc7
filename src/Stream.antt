-- ===== src/Stream.antt =====
-- The stream base class: source/stream.c and source/private_stream.h.
-- A stream writes to a file descriptor or to the stream that it decorates; both are a `Lower`, and a
-- stream over a `Lower` is one again (`layered`). A queued slice's buffer is the list of its bytes.
pub mod Writes
pub mod Order
pub mod Flush
mod Tests
use c_mx.Common.{
  ℕ, zero, suc, ◌+◌, ◌-◌, ◌%◌, ◌^◌, Bool, true, false, not, Option, none, some, List, [], ◌∷◌, ◌++◌,
  length,
}
use c_mx.Common.{take, drop, ltb, ◌==◌, if◌then◌else◌, ◌>>=◌}

-- What a call returns that writes: a count, or -1 with `errno` at `EAGAIN` or `EWOULDBLOCK`, or -1
-- with another `errno`.
pub data Result : Type 0 where
  wrote : ℕ → Result
  again : Result
  failed : Result

-- What a stream uses of what it writes to: `stream_write`, `stream_handle_outgoing_data`, `stream_flush`
-- with fuel, `stream_has_outgoing_data`, `stream_reset_outgoing_data`, and whether its status is ready.
pub record Lower (S : Type 0) : Type 0 where
  pub write : S → List ℕ → Result × S
  pub handle : S → Result × S
  pub flush : ℕ → S → Option (Result × S)
  pub has_outgoing : S → Bool
  pub reset : S → S
  pub ready : S → Bool

-- What one call of `stream_read` gives: bytes, -1 with `EAGAIN`, or an end.
pub data Arrival : Type 0 where
  got : List ℕ → Arrival
  nothing ended : Arrival

-- The values of `enum stream_status_e`.
pub data Status : Type 0 where
  st_init st_ready st_closing st_closed : Status

-- `struct stream`, with its queue of slices.
pub record Stream : Type 0 where
  pub status : Status
  pub outgoing : List (List ℕ)

-- `stream_init`, by whether there is a file descriptor.
pub init : Bool → Stream
init has_fd = record { status = if has_fd then st_ready else st_init; outgoing = [] }

unfoldable pub is_ready : Status → Bool
is_ready st_ready = true
is_ready st_init = false
is_ready st_closing = false
is_ready st_closed = false

pub is_empty : List (List ℕ) → Bool
is_empty [] = true
is_empty (slice ∷ queue) = false

-- `stream_queue_outgoing_data`
unfoldable pub queue_data : Stream → List ℕ → Stream
queue_data self bytes = record self { outgoing = self.outgoing ++ (bytes ∷ []) }

-- An `int` made of what a write returns. What becomes negative is taken for an error, since `errno` is not set then.
unfoldable pub as_int : Result → Result
as_int again = again
as_int failed = failed
as_int (wrote n) = if ltb (n % 2 ^ 32) (2 ^ 31) then wrote (n % 2 ^ 32) else failed

-- `written += ret`, where `written` is an `int` and may be -1.
unfoldable pub add_written : Result → ℕ → Result
add_written (wrote m) n = as_int (wrote (m + n))
add_written again zero = again
add_written again (suc n) = as_int (wrote n)
add_written failed zero = failed
add_written failed (suc n) = as_int (wrote n)

-- What follows the write of the first slice: `next` goes on with the others.
unfoldable pub settle :
    {S : Type 0}
    → List ℕ
    → List (List ℕ)
    → Result
    → (S → Result → Result × List (List ℕ) × S)
    → Result × S
    → Result × List (List ℕ) × S
settle slice rest written next (again, s) = (again, slice ∷ rest, s)
settle slice rest written next (failed, s) = (failed, slice ∷ rest, s)
settle slice rest written next (wrote n, s) =
    if n == 0
    then (wrote 0, slice ∷ rest, s)
    else if ltb 0 (length (drop n slice))
    then (add_written written n, drop n slice ∷ rest, s)
    else next s (add_written written n)

-- A file descriptor, by what the system's `write` does: what a stream without a decorated one writes to.
unfoldable pub descriptor : {S : Type 0} → (S → List ℕ → Result × S) → Lower S
descriptor write = record {
  write = write;
  handle = λ s. (wrote 0, s);
  flush = λ fuel s. some (wrote 1, s);
  has_outgoing = λ s. false;
  reset = λ s. s;
  ready = λ s. true;
}

module _ {S : Type 0} (lower : Lower S) where
  -- The loop of `stream_handle_outgoing_data` over the queue.
  pub drain : S → List (List ℕ) → Result → Result × List (List ℕ) × S
  drain s [] written = (written, [], s)
  drain s (slice ∷ rest) written =
      settle slice rest written (λ s' written'. drain s' rest written') (lower.write s slice)

  pub handle_outgoing_data : Stream × S → Result × (Stream × S)
  handle_outgoing_data (self, s) =
      let (written, s') = lower.handle s in
      let (ret, queue, s'') = drain s' self.outgoing written in
      (ret, (record self { outgoing = queue }, s''))

  -- What follows the write that `stream_do_write` tries, by its result as an `int`.
  pub accept : Stream → List ℕ → Result × S → Result × (Stream × S)
  accept self bytes (again, s) = (wrote (length bytes), (queue_data self bytes, s))
  accept self bytes (failed, s) = (failed, (self, s))
  accept self bytes (wrote n, s) = (
    wrote (length bytes),
    (if ltb n (length bytes) then queue_data self (drop n bytes) else self, s),
  )

  -- `stream_do_write`
  pub do_write : Stream × S → List ℕ → Result × (Stream × S)
  do_write (self, s) bytes =
      if is_empty self.outgoing
      then accept self bytes (as_int (lower.write s bytes).0, (lower.write s bytes).1)
      else (wrote (length bytes), (queue_data self bytes, s))

  -- The end of one round of `stream_do_flush`: `loop` makes the others.
  pub flush_more :
      (Stream × S → Option (Result × (Stream × S)))
      → Result × (Stream × S)
      → Option (Result × (Stream × S))
  flush_more loop (again, state) = loop state
  flush_more loop (failed, state) = some (failed, state)
  flush_more loop (wrote n, state) = if n == 0 then some (wrote 0, state) else loop state

  -- `stream_do_flush`: its loop on fuel, then the flush of the stream below, also given `fuel`.
  pub flush_loop : ℕ → ℕ → Stream × S → Option (Result × (Stream × S))
  flush_loop fuel zero state = none
  flush_loop fuel (suc rounds) (self, s) =
      let more =
        flush_more (λ state. flush_loop fuel rounds state) (handle_outgoing_data (self, s)) in
      if is_empty self.outgoing then (lower.flush fuel s >>= λ r. some (r.0, (self, r.1))) else more

  pub do_flush : ℕ → Stream × S → Option (Result × (Stream × S))
  do_flush fuel state = flush_loop fuel fuel state

  pub has_outgoing_data : Stream × S → Bool
  has_outgoing_data (self, s) =
      if (if lower.ready s then not (is_empty self.outgoing) else false)
      then true
      else lower.has_outgoing s

  pub reset_outgoing_data : Stream × S → Stream × S
  reset_outgoing_data (self, s) = (record self { outgoing = [] }, lower.reset s)

  -- A stream of the base class is what another stream may decorate.
  unfoldable pub layered : Lower (Stream × S)
  layered = record {
    write = do_write;
    handle = handle_outgoing_data;
    flush = do_flush;
    has_outgoing = has_outgoing_data;
    reset = reset_outgoing_data;
    ready = λ state. is_ready state.0.status;
  }
