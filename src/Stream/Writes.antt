-- ===== src/Stream/Writes.antt =====
-- Bytes that are written to a stream, and its queue as it is drained: `stream_do_write` and
-- `stream_handle_outgoing_data` of source/stream.c.
use c_mx.Common.{ℕ, zero, suc, ◌%◌, ◌^◌, ◌≤◌, ◌<◌, true, false, some, List, [], ◌∷◌, ◌++◌, length}
use c_mx.Common.{
  take, drop, take_all, take-append-drop, length-drop, ltb, ◌==◌, Bool-cases, inl, inr,
  append_assoc, append-nil,
}
use c_mx.Common.{arith, ◌≡◌, refl, sym, ap, ◌∙◌}
use c_mx.Stream.{
  Result, wrote, again, failed, Lower, Stream, queue_data, settle, drain, add_written, as_int,
}
use c_mx.Stream.{handle_outgoing_data, accept, do_write, is_empty}

unfoldable pub concat : List (List ℕ) → List ℕ
concat [] = []
concat (slice ∷ queue) = slice ++ concat queue

concat-append : (xs ys : List (List ℕ)) → concat (xs ++ ys) ≡ concat xs ++ concat ys
unfolding concat
concat-append [] ys = refl
concat-append (x ∷ xs) ys =
    ap (λ t. x ++ t) (concat-append xs ys) ∙ sym (append_assoc x (concat xs) (concat ys))

-- What a write of `bytes` with this result adds to the bytes taken over.
abbrev pub taken : List ℕ → Result → List ℕ
taken bytes (wrote n) = take n bytes
taken bytes again = []
taken bytes failed = []

abbrev pub count_of : Result → ℕ
count_of (wrote n) = n
count_of again = 0
count_of failed = 0

-- The slices are short enough for an `int` to hold what a write of one of them returns.
unfoldable pub AllShort : List (List ℕ) → Type 0
AllShort [] = Unit
AllShort (slice ∷ queue) = (length slice < 2 ^ 31) × AllShort queue

-- `seen` gives the bytes that a stream has taken over so far: a write of fewer than 2^31 bytes adds those that it counts, and
-- handling the queue or flushing changes nothing, where the state fits, as it does afterwards.
pub record IsOrdered (S : Type 0) (lower : Lower S) (seen : S → List ℕ) (Fits : S → Type 0)
    : Type 0 where
  pub write_lem :
      (s : S) (bytes : List ℕ)
      → Fits s
      → length bytes < 2 ^ 31
      → (seen (lower.write s bytes).1 ≡ seen s ++ taken bytes (lower.write s bytes).0)
        × (count_of (lower.write s bytes).0 ≤ length bytes)
        × Fits (lower.write s bytes).1
  pub handle_lem : (s : S) → Fits s → (seen (lower.handle s).1 ≡ seen s) × Fits (lower.handle s).1
  pub flush_lem :
      (fuel : ℕ) (s s' : S) (r : Result)
      → Fits s
      → lower.flush fuel s ≡ some (r, s')
      → (seen s' ≡ seen s) × Fits s'

nothing_left : (xs : List ℕ) → ltb 0 (length xs) ≡ false → xs ≡ []
nothing_left [] h = refl
nothing_left (x ∷ xs) h = absurd (ground arith)

pub empty_lem : (queue : List (List ℕ)) → is_empty queue ≡ true → queue ≡ []
unfolding is_empty
empty_lem [] h = refl
empty_lem (x ∷ queue) h = cc

queue_data-status : (self : Stream) (bytes : List ℕ) → (queue_data self bytes).status ≡ self.status
unfolding queue_data
queue_data-status self bytes = refl

accept-status :
    {S : Type 0} (lower : Lower S) (self : Stream) (bytes : List ℕ) (r : Result) (s : S)
    → (accept lower self bytes (r, s)).1.0.status ≡ self.status
unfolding accept
accept-status lower self bytes again s = queue_data-status self bytes
accept-status lower self bytes failed s = refl
accept-status lower self bytes (wrote n) s = elim (Bool-cases (ltb n (length bytes))) [
  | inl part ↦ rw part (queue_data-status self (drop n bytes))
  | inr all ↦ rw all refl
]

-- Writing leaves the status alone.
pub do_write-status :
    {S : Type 0} (lower : Lower S) (state : Stream × S) (bytes : List ℕ)
    → (do_write lower state bytes).1.0.status ≡ state.0.status
unfolding do_write
do_write-status lower (self, s) bytes = elim (Bool-cases (is_empty self.outgoing)) [
  | inl idle ↦
      rw idle
        (accept-status lower self bytes (as_int (lower.write s bytes).0) (lower.write s bytes).1)
  | inr busy ↦ rw busy (queue_data-status self bytes)
]

-- What a stream has taken over, from what the one below has.
abbrev pub seen_above : {S : Type 0} → (S → List ℕ) → Stream × S → List ℕ
seen_above seen state = seen state.1 ++ concat state.0.outgoing

-- The queue is short enough, and so is what the stream below holds.
abbrev pub FitsAbove : {S : Type 0} → (S → Type 0) → Stream × S → Type 0
FitsAbove Fits state = Fits state.1 × AllShort state.0.outgoing

AllShort-append :
    (queue : List (List ℕ)) (bytes : List ℕ)
    → AllShort queue
    → length bytes < 2 ^ 31
    → AllShort (queue ++ (bytes ∷ []))
unfolding AllShort
AllShort-append [] bytes short fits = (fits, tt)
AllShort-append (slice ∷ queue) bytes (first, short) fits =
    (first, AllShort-append queue bytes short fits)

pub as_int_lem : (r : Result) → count_of r < 2 ^ 31 → as_int r ≡ r
unfolding as_int
as_int_lem again small = refl
as_int_lem failed small = refl
as_int_lem (wrote n) small =
    let same : n % 2 ^ 32 ≡ n = omega arith in
    let below : ltb n (2 ^ 31) ≡ true = ground arith in rw (same, below) refl

module _ {S : Type 0} (lower : Lower S) (seen : S → List ℕ) (Fits : S → Type 0)
    (o : IsOrdered S lower seen Fits) where
  -- The bytes behind a partly drained queue.
  abbrev whole : Result × List (List ℕ) × S → List ℕ
  whole r = seen r.2 ++ concat r.1

  -- A partly drained queue with `total` to show, which fits.
  abbrev Keeps : Result × List (List ℕ) × S → List ℕ → Type 0
  Keeps r total = (whole r ≡ total) × Fits r.2 × AllShort r.1

  settle_lem :
      (s : S) (slice : List ℕ) (rest : List (List ℕ)) (written : Result)
      (next : S → Result → Result × List (List ℕ) × S) (r : Result) (s' : S)
      → ((s : S) (written : Result) → Fits s → Keeps (next s written) (seen s ++ concat rest))
      → Fits s'
      → AllShort (slice ∷ rest)
      → seen s' ≡ seen s ++ taken slice r
      → Keeps (settle slice rest written next (r, s')) (seen s ++ (slice ++ concat rest))
  unfolding settle concat AllShort
  settle_lem s slice rest written next again s' ih fits short e =
      (ap (λ t. t ++ (slice ++ concat rest)) (e ∙ append-nil (seen s)), fits, short)
  settle_lem s slice rest written next failed s' ih fits short e =
      (ap (λ t. t ++ (slice ++ concat rest)) (e ∙ append-nil (seen s)), fits, short)
  settle_lem s slice rest written next (wrote zero) s' ih fits short e =
      (ap (λ t. t ++ (slice ++ concat rest)) (e ∙ append-nil (seen s)), fits, short)
  settle_lem s slice rest written next (wrote (suc m)) s' ih fits (first, others) e =
      let n = suc m in
      let joined : seen s' ++ (drop n slice ++ concat rest) ≡ seen s ++ (slice ++ concat rest) =
        ap (λ t. t ++ (drop n slice ++ concat rest)) e
        ∙ append_assoc (seen s) (take n slice) (drop n slice ++ concat rest)
        ∙ ap (λ t. seen s ++ t) (sym (append_assoc (take n slice) (drop n slice) (concat rest)))
        ∙ ap (λ t. seen s ++ (t ++ concat rest)) (take-append-drop n slice) in
      let some_written : (suc m == 0) ≡ false = ground arith in
      elim (Bool-cases (ltb 0 (length (drop n slice)))) [
        | inl part ↦
            rw (some_written, part)
              (joined, fits, (omega (arith, first, length-drop n slice), others))
        | inr all ↦
            let (shows, fits', short') = ih s' (add_written written n) fits in
            rw (some_written, all)
              (
                shows
                    ∙ ap (λ t. seen s' ++ (t ++ concat rest))
                        (sym (nothing_left (drop n slice) all))
                    ∙ joined,
                fits',
                short',
              )
      ]

  drain_lem :
      (s : S) (queue : List (List ℕ)) (written : Result)
      → Fits s
      → AllShort queue
      → Keeps (drain lower s queue written) (seen s ++ concat queue)
  unfolding drain concat AllShort
  drain_lem s [] written fits short = (refl, fits, short)
  drain_lem s (slice ∷ rest) written fits (first, others) =
      let (shows, _, fits') = o.write_lem s slice fits first in
      settle_lem s slice rest written (λ s' written'. drain lower s' rest written')
        (lower.write s slice).0 (lower.write s slice).1
        (λ s' written' f. drain_lem s' rest written' f others) fits' (first, others) shows

  -- What a step of the stream keeps.
  abbrev pub Held : Stream × S → Stream × S → Type 0
  Held state' state = (seen_above seen state' ≡ seen_above seen state) × FitsAbove Fits state'

  pub handle_above :
      (state : Stream × S) → FitsAbove Fits state → Held (handle_outgoing_data lower state).1 state
  unfolding handle_outgoing_data
  handle_above (self, s) (fits, short) =
      let (below, fits') = o.handle_lem s fits in
      let (shows, fits'', short') =
        drain_lem (lower.handle s).1 self.outgoing (lower.handle s).0 fits' short in
      (shows ∙ ap (λ t. t ++ concat self.outgoing) below, (fits'', short'))

  queued_lem :
      (self : Stream) (s : S) (bytes : List ℕ)
      → seen s ++ concat (queue_data self bytes).outgoing
        ≡ (seen s ++ concat self.outgoing) ++ bytes
  unfolding queue_data concat
  queued_lem self s bytes =
      ap (λ t. seen s ++ t)
        (concat-append self.outgoing (bytes ∷ [])
          ∙ ap (λ t. concat self.outgoing ++ t) (append-nil bytes))
      ∙ sym (append_assoc (seen s) (concat self.outgoing) bytes)

  accept_lem :
      (self : Stream) (s : S) (bytes : List ℕ) (r : Result) (s' : S)
      → self.outgoing ≡ []
      → count_of r ≤ length bytes
      → seen s' ≡ seen s ++ taken bytes r
      → FitsAbove Fits (self, s')
      → length bytes < 2 ^ 31
      → let (r', state) = accept lower self bytes (r, s') in
        (seen_above seen state ≡ (seen s ++ concat self.outgoing) ++ taken bytes r')
        × (count_of r' ≤ length bytes)
        × FitsAbove Fits state
  unfolding accept concat queue_data
  accept_lem self s bytes again s' empty c e (fits, queued) small = (
    queued_lem self s' bytes
        ∙ ap (λ t. (t ++ concat self.outgoing) ++ bytes) (e ∙ append-nil (seen s))
        ∙ ap (λ t. (seen s ++ concat self.outgoing) ++ t)
            (sym (take_all bytes (length bytes) (omega arith))),
    omega arith,
    (fits, AllShort-append self.outgoing bytes queued small),
  )
  accept_lem self s bytes failed s' empty c e (fits, queued) small = (
    ap (λ t. t ++ concat self.outgoing) (e ∙ append-nil (seen s))
        ∙ sym (append-nil (seen s ++ concat self.outgoing)),
    omega arith,
    (fits, queued),
  )
  accept_lem self s bytes (wrote n) s' empty c e (fits, queued) small =
      let none_queued : concat self.outgoing ≡ [] = ap concat empty in
      let right : (seen s ++ concat self.outgoing) ++ take (length bytes) bytes ≡ seen s ++ bytes =
        ap (λ t. (seen s ++ concat self.outgoing) ++ t)
          (take_all bytes (length bytes) (omega arith))
        ∙ ap (λ t. (seen s ++ t) ++ bytes) none_queued
        ∙ ap (λ t. t ++ bytes) (append-nil (seen s)) in
      let left : seen s' ++ concat self.outgoing ≡ seen s ++ take n bytes =
        ap (λ t. seen s' ++ t) none_queued ∙ append-nil (seen s') ∙ e in
      elim (Bool-cases (ltb n (length bytes))) [
        | inl part ↦ rw part (
          queued_lem self s' (drop n bytes)
              ∙ ap (λ t. t ++ drop n bytes) left
              ∙ append_assoc (seen s) (take n bytes) (drop n bytes)
              ∙ ap (λ t. seen s ++ t) (take-append-drop n bytes)
              ∙ sym right,
          omega arith,
          (
            fits,
            AllShort-append self.outgoing (drop n bytes) queued
                (omega (arith, length-drop n bytes)),
          ),
        )
        | inr all ↦ rw all (
          left ∙ ap (λ t. seen s ++ t) (take_all bytes n (ground arith)) ∙ sym right,
          omega arith,
          (fits, queued),
        )
      ]

  pub write_above :
      (state : Stream × S) (bytes : List ℕ)
      → FitsAbove Fits state
      → length bytes < 2 ^ 31
      → (seen_above seen (do_write lower state bytes).1
          ≡ seen_above seen state ++ taken bytes (do_write lower state bytes).0)
        × (count_of (do_write lower state bytes).0 ≤ length bytes)
        × FitsAbove Fits (do_write lower state bytes).1
  unfolding do_write queue_data
  write_above (self, s) bytes (fits, queued) small =
      let (shows, counts, fits') = o.write_lem s bytes fits small in
      let whole_count = as_int_lem (lower.write s bytes).0 (omega (arith, counts)) in
      elim (Bool-cases (is_empty self.outgoing)) [
        | inl idle ↦
            rw (idle, whole_count)
              (accept_lem self s bytes (lower.write s bytes).0 (lower.write s bytes).1
                (empty_lem self.outgoing idle) counts shows (fits', queued) small)
        | inr busy ↦ rw busy (
          queued_lem self s bytes
              ∙ ap (λ t. (seen s ++ concat self.outgoing) ++ t)
                  (sym (take_all bytes (length bytes) (omega arith))),
          omega arith,
          (fits, AllShort-append self.outgoing bytes queued small),
        )
      ]
