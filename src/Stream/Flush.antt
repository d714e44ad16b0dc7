-- ===== src/Stream/Flush.antt =====
-- Flushing a stream on a file descriptor: `stream_do_flush` ends, and the queue is written by then.
use c_mx.Common.{
  ℕ, zero, suc, ◌+◌, ◌^◌, ◌≤◌, ◌<◌, List, [], ◌∷◌, ◌++◌, length, drop, append-nil, length-append,
  length-drop,
}
use c_mx.Common.{
  Option, some, ◌≢◌, true, false, inl, inr, ◌⊎◌, ltb, ◌==◌, Bool-cases, arith, ◌≡◌, refl, sym, ap,
  ◌∙◌,
}
use c_mx.Stream.{
  Result, wrote, again, Stream, settle, drain, add_written, flush_loop, flush_more, do_flush,
}
use c_mx.Stream.{handle_outgoing_data, descriptor, layered, is_empty}
use c_mx.Stream.Writes.{concat, empty_lem, AllShort, as_int_lem, IsOrdered}
use c_mx.Stream.Order.{layered-IsOrdered}

-- What the system promises where it never fails: a write of a nonempty slice takes at least one of its
-- bytes, or asks to try again, and it asks `patience s` times at most.
pub record IsPatient (S : Type 0) (write : S → List ℕ → Result × S) (patience : S → ℕ)
    : Type 0 where
  pub answer :
      (s : S) (bytes : List ℕ)
      → 0 < length bytes
      → (((write s bytes).0 ≡ again) × (patience (write s bytes).1 < patience s))
        ⊎ ((n : ℕ) × ((write s bytes).0 ≡ wrote n)
            × (0 < n)
            × (n ≤ length bytes)
            × (patience (write s bytes).1 ≤ patience s))

unfoldable pub NoEmpty : List (List ℕ) → Type 0
NoEmpty [] = Unit
NoEmpty (slice ∷ queue) = (0 < length slice) × NoEmpty queue

module _ {S : Type 0} (write : S → List ℕ → Result × S) (patience : S → ℕ)
    (system : IsPatient S write patience) where
  -- What is left to do: bytes to write and tries that may fail.
  abbrev pub work : S → List (List ℕ) → ℕ
  work s queue = patience s + length (concat queue)

  -- What a part of the loop over the queue achieves, which began with `before` to do and `w` written.
  abbrev Progress : ℕ → ℕ → List (List ℕ) → Result × List (List ℕ) × S → Type 0
  Progress before w queue (r, queue', s') =
      NoEmpty queue'
      × (((r ≡ again) × (work s' queue' < before))
          ⊎ ((k : ℕ) × (r ≡ wrote (w + k))
              × (work s' queue' + k ≤ before)
              × ((queue ≡ []) ⊎ (0 < k))))

  later_lem :
      (before now w n : ℕ) (queue rest : List (List ℕ)) (end : Result × List (List ℕ) × S)
      → now + n ≤ before
      → 0 < n
      → Progress now (w + n) rest end
      → Progress before w queue end
  later_lem before now w n queue rest end less some_written (kept, inl (e, fewer)) =
      (kept, inl (e, omega arith))
  later_lem before now w n queue rest end less some_written (kept, inr (k, e, fewer, went_on)) =
      (kept, inr (n + k, e ∙ ap wrote (omega arith), omega arith, inr (omega arith)))

  settle_lem :
      (s : S) (slice : List ℕ) (rest : List (List ℕ)) (w n : ℕ) (s' : S)
      (next : S → Result → Result × List (List ℕ) × S)
      → NoEmpty rest
      → 0 < n
      → n ≤ length slice
      → patience s' ≤ patience s
      → w + n < 2 ^ 31
      → Progress (work s' rest) (w + n) rest (next s' (wrote (w + n)))
      → Progress
          (work s (slice ∷ rest))
          w
          (slice ∷ rest)
          (settle slice rest (wrote w) next (wrote n, s'))
  unfolding settle add_written concat NoEmpty
  settle_lem s slice rest w zero s' next others some_written room less small ih =
      absurd (omega arith)
  settle_lem s slice rest w (suc m) s' next others some_written room less small ih =
      let n = suc m in
      let whole_count = as_int_lem (wrote (w + n)) small in
      let counts : (suc m == 0) ≡ false = ground arith in
      let before : length (slice ++ concat rest) ≡ length slice + length (concat rest) =
        length-append slice (concat rest) in
      elim (Bool-cases (ltb 0 (length (drop n slice)))) [
        | inl part ↦
            rw (counts, part, whole_count)
              (
                (ground arith, others),
                inr (
                  n,
                  refl,
                  omega (
                    arith,
                    before,
                    length-append (drop n slice) (concat rest),
                    length-drop n slice,
                  ),
                  inr (omega arith),
                ),
              )
        | inr all ↦
            rw (counts, all, whole_count)
              (later_lem (work s (slice ∷ rest)) (work s' rest) w n (slice ∷ rest) rest
                (next s' (wrote (w + n))) (omega (arith, before)) some_written ih)
      ]

  first_lem :
      (s : S) (slice : List ℕ) (rest : List (List ℕ)) (w : ℕ) (r : Result) (s' : S)
      (next : S → Result → Result × List (List ℕ) × S)
      → 0 < length slice
      → NoEmpty rest
      → ((r ≡ again) × (patience s' < patience s))
        ⊎ ((n : ℕ) × (r ≡ wrote n) × (0 < n) × (n ≤ length slice) × (patience s' ≤ patience s))
      → w + length (slice ++ concat rest) < 2 ^ 31
      → ((w : ℕ)
          → w + length (concat rest) < 2 ^ 31
          → Progress (work s' rest) w rest (next s' (wrote w)))
      → Progress (work s (slice ∷ rest)) w (slice ∷ rest) (settle slice rest (wrote w) next (r, s'))
  unfolding settle concat NoEmpty
  first_lem s slice rest w r s' next some_bytes others (inl (e, less)) small ih =
      rw e ((some_bytes, others), inl (refl, omega arith))
  first_lem s slice rest w r s' next some_bytes others (inr (n, e, some_written, room, less)) small
        ih =
      let both = length-append slice (concat rest) in
      rw e (
        settle_lem s slice rest w n s' next others some_written room less (omega (arith, both))
          (ih (w + n) (omega (arith, both))))

  drain_lem :
      (s : S) (queue : List (List ℕ)) (w : ℕ)
      → NoEmpty queue
      → w + length (concat queue) < 2 ^ 31
      → Progress (work s queue) w queue (drain (descriptor write) s queue (wrote w))
  unfolding drain descriptor NoEmpty concat
  drain_lem s [] w h small = (h, inr (0, ap wrote (omega arith), omega arith, inl refl))
  drain_lem s (slice ∷ rest) w (some_bytes, others) small =
      first_lem s slice rest w (write s slice).0 (write s slice).1
        (λ s' written. drain (descriptor write) s' rest written) some_bytes others
        (system.answer s slice some_bytes) small
        (λ w' small'. drain_lem (write s slice).1 rest w' others small')

  more_lem :
      (loop : Stream × S → Option (Result × (Stream × S))) (queue : List (List ℕ)) (before : ℕ)
      (self : Stream) (end : Result × List (List ℕ) × S)
      (goal : Option (Result × (Stream × S)) → Type 0)
      → Progress before 0 queue end
      → queue ≢ []
      → ((queue' : List (List ℕ)) (s' : S)
          → NoEmpty queue'
          → work s' queue' < before
          → goal (loop (record self { outgoing = queue' }, s')))
      → goal (flush_more (descriptor write) loop (end.0, (record self { outgoing = end.1 }, end.2)))
  unfolding flush_more
  more_lem loop queue before self (r, queue', s') goal (kept, inl (e, less)) busy next =
      rw e (next queue' s' kept less)
  more_lem loop queue before self end goal (kept, inr (k, e, less, inl empty)) busy next =
      absurd (busy empty)
  more_lem loop queue before self (r, queue', s') goal (kept, inr (k, e, less, inr some_written))
        busy next =
      let counts : (0 + k == 0) ≡ false = ground arith in
      rw (e, counts) (next queue' s' kept (omega arith))

  all_short : (queue : List (List ℕ)) → length (concat queue) < 2 ^ 31 → AllShort queue
  unfolding concat AllShort
  all_short [] small = tt
  all_short (slice ∷ queue) small =
      let both = length-append slice (concat queue) in
      (omega (arith, both), all_short queue (omega (arith, both)))

  abbrev Ends : Stream → Option (Result × (Stream × S)) → Type 0
  Ends self result = (s' : S) × (result ≡ some (wrote 1, (record self { outgoing = [] }, s')))

  loop_lem :
      (fuel rounds : ℕ) (self : Stream) (s : S)
      → NoEmpty self.outgoing
      → work s self.outgoing < rounds
      → work s self.outgoing < 2 ^ 31
      → Ends self (flush_loop (descriptor write) fuel rounds (self, s))
  unfolding flush_loop handle_outgoing_data descriptor is_empty
  loop_lem fuel zero self s kept enough small = absurd (omega arith)
  loop_lem fuel (suc rounds) self s kept enough small = elim (Bool-cases (is_empty self.outgoing)) [
    | inl idle ↦ rw idle (
      s,
      ap (λ queue. some (wrote 1, (record self { outgoing = queue }, s)))
          (empty_lem self.outgoing idle),
    )
    | inr busy ↦ rw busy (
        more_lem (λ state. flush_loop (descriptor write) fuel rounds state) self.outgoing
          (work s self.outgoing) self (drain (descriptor write) s self.outgoing (wrote 0))
          (Ends self) (drain_lem s self.outgoing 0 kept (omega arith))
          (λ empty. let idle : is_empty self.outgoing ≡ true = ap is_empty empty in cc)
          (λ queue' s' kept' less.
            loop_lem fuel rounds (record self { outgoing = queue' }) s' kept' (omega arith)
              (omega arith)))
  ]

  -- On a descriptor that keeps the order of bytes and whose `write` never fails, but takes at least one byte of a nonempty slice, or
  -- asks to try again a bounded number of times: where no queued slice is empty, and the bytes queued and the tries
  -- that may fail are fewer than 2^31 together and fewer than the fuel, `stream_do_flush` ends with 1, and with an empty
  -- queue, and what was queued has been written in order.
  pub do_flush_lem :
      (seen : S → List ℕ) (Fits : S → Type 0) (fuel : ℕ) (self : Stream) (s : S)
      → IsOrdered S (descriptor write) seen Fits
      → Fits s
      → NoEmpty self.outgoing
      → work s self.outgoing < fuel
      → work s self.outgoing < 2 ^ 31
      → (s' : S) × (do_flush (descriptor write) fuel (self, s)
          ≡ some (wrote 1, (record self { outgoing = [] }, s')))
        × (seen s' ≡ seen s ++ concat self.outgoing)
  unfolding do_flush layered concat
  do_flush_lem seen Fits fuel self s o fits kept enough small =
      let (s', ends) = loop_lem fuel fuel self s kept enough small in
      let short = all_short self.outgoing (omega arith) in
      (
        s',
        ends,
        sym (append-nil (seen s'))
            ∙ ((layered-IsOrdered (descriptor write) seen Fits o).flush_lem fuel (self, s)
                (record self { outgoing = [] }, s') (wrote 1) (fits, short) ends).0,
      )
