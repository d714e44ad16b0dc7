-- ===== src/Stream/Order.antt =====
-- No byte is lost, doubled or overtaken: what a stream has taken over is what the stream below has
-- taken over, followed by what the stream's own queue holds.
use c_mx.Common.{ℕ, zero, suc, false, Option, none, some, List, ◌++◌}
use c_mx.Common.{◌==◌, ◌>>=◌, Bool-cases, inl, inr}
use c_mx.Common.{arith, ◌≡◌, refl, sym, ap, subst, ◌∙◌}
use c_mx.Stream.{Result, wrote, again, failed, Lower, Stream, layered}
use c_mx.Stream.{handle_outgoing_data, flush_loop, flush_more, do_flush, is_empty}
use c_mx.Stream.Writes.{
  AllShort, IsOrdered, concat, seen_above, FitsAbove, Held, handle_above, write_above,
}

module _ {S : Type 0} (lower : Lower S) (seen : S → List ℕ) (Fits : S → Type 0)
    (o : IsOrdered S lower seen Fits) where
  below_lem :
      (self : Stream) (s : S) (result : Option (Result × S)) (state' : Stream × S) (r : Result)
      → ((r : Result) (s' : S) → result ≡ some (r, s') → (seen s' ≡ seen s) × Fits s')
      → AllShort self.outgoing
      → ◌>>=◌ {B = Result × (Stream × S)} result (λ r. some (r.0, (self, r.1))) ≡ some (r, state')
      → Held lower seen Fits o state' (self, s)
  below_lem self s none state' r keeps queued e = cc
  below_lem self s (some (r', s')) (self', s'') r keeps queued e =
      let ends : (self, s') ≡ (self', s'') = cc in
      let (shows, fits) = keeps r' s' refl in
      (
        sym (ap (seen_above seen) ends) ∙ ap (λ t. t ++ concat self.outgoing) shows,
        subst (FitsAbove Fits) ends (fits, queued),
      )

  ended :
      (state state' : Stream × S)
      → state ≡ state'
      → FitsAbove Fits state
      → Held lower seen Fits o state' state
  ended state state' ends fit = (sym (ap (seen_above seen) ends), subst (FitsAbove Fits) ends fit)

  more_lem :
      (loop : Stream × S → Option (Result × (Stream × S))) (round : Result × (Stream × S))
      (state' : Stream × S) (r : Result)
      → ((state : Stream × S)
          → FitsAbove Fits state
          → loop state ≡ some (r, state')
          → Held lower seen Fits o state' state)
      → FitsAbove Fits round.1
      → flush_more lower loop round ≡ some (r, state')
      → Held lower seen Fits o state' round.1
  unfolding flush_more
  more_lem loop (again, state) state' r ih fit e = ih state fit e
  more_lem loop (failed, state) state' r ih fit e =
      let ends : state ≡ state' = cc in ended state state' ends fit
  more_lem loop (wrote zero, state) state' r ih fit e =
      let ends : state ≡ state' = cc in ended state state' ends fit
  more_lem loop (wrote (suc n), state) state' r ih fit e =
      let some_written : (suc n == 0) ≡ false = ground arith in ih state fit (rw some_written at e)

  flush_above :
      (fuel rounds : ℕ) (state state' : Stream × S) (r : Result)
      → FitsAbove Fits state
      → flush_loop lower fuel rounds state ≡ some (r, state')
      → Held lower seen Fits o state' state
  unfolding flush_loop
  flush_above fuel zero state state' r fit e = cc
  flush_above fuel (suc rounds) (self, s) state' r (fits, queued) e =
      elim (Bool-cases (is_empty self.outgoing)) [
        | inl idle ↦
            below_lem self s (lower.flush fuel s) state' r
              (λ r' s' found. o.flush_lem fuel s s' r' fits found) queued (rw idle at e)
        | inr busy ↦
            let (handled, fit') = handle_above lower seen Fits o (self, s) (fits, queued) in
            let (rest, fit'') =
              more_lem (λ state. flush_loop lower fuel rounds state)
                (handle_outgoing_data lower (self, s)) state' r
                (λ state fit found. flush_above fuel rounds state state' r fit found) fit'
                (rw busy at e) in
            (rest ∙ handled, fit'')
      ]

  -- A stream over one that keeps the order of bytes, for writes of fewer than 2^31 bytes, keeps it too, for such writes and for what
  -- it has taken over itself: its queue's bytes follow those that the stream below has taken over, where the slices of the
  -- queue are shorter than 2^31 bytes, as they then stay.
  pub layered-IsOrdered : IsOrdered (Stream × S) (layered lower) (seen_above seen) (FitsAbove Fits)
  unfolding layered do_flush
  layered-IsOrdered = record {
    write_lem = write_above lower seen Fits o;
    handle_lem = handle_above lower seen Fits o;
    flush_lem = λ fuel state state' r fit e. flush_above fuel fuel state state' r fit e;
  }
