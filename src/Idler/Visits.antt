-- ===== src/Idler/Visits.antt =====
-- Which streams the idler visits, with which status: `idler_get_next_stream` of source/idler.c.
use c_mx.Common.{
  ℕ, zero, suc, ◌+◌, ◌<◌, Bool, true, false, Option, none, some, List, [], ◌∷◌, ltb, length,
}
use c_mx.Common.{inl, inr, Bool-cases, arith, ◌≡◌, refl}
use c_mx.Idler.{FdSet, fd_isset, Watched, Idler, next_from, get_next_stream}
use c_mx.Idler.Watching.{AllFit}

abbrev Found : Type 0
Found = Watched × ℕ × List Watched

put : Watched × ℕ → Option (List (Watched × ℕ)) → Option (List (Watched × ℕ))
put found none = none
put found (some later) = some (found ∷ later)

collect :
    (List Watched → Option (List (Watched × ℕ)))
    → Option (Option Found)
    → Option (List (Watched × ℕ))
collect more none = none
collect more (some none) = some []
collect more (some (some (stream, status, behind))) = put (stream, status) (more behind)

-- A stream in front of others: with 1 where it can be read, 2 where it can be written, 3 where both, or left out.
unfoldable pub in_front : Watched → Bool → Bool → List (Watched × ℕ) → List (Watched × ℕ)
in_front stream false false others = others
in_front stream true false others = (stream, 1) ∷ others
in_front stream false true others = (stream, 2) ∷ others
in_front stream true true others = (stream, 3) ∷ others

-- The streams that can be read or written, by the idler's sets.
unfoldable pub ready : Idler → List Watched → List (Watched × ℕ)
ready self [] = []
ready self (stream ∷ streams) =
    in_front stream (self.read_fds stream.fd) (self.write_fds stream.fd) (ready self streams)

module _ (fd_setsize : ℕ) where
  -- What a loop around `idler_get_next_stream` visits from `prev` on, on fuel.
  pub visits : ℕ → Idler → Option (List Watched) → Option (List (Watched × ℕ))
  visits zero self prev = none
  visits (suc fuel) self prev =
      collect (λ behind. visits fuel self (some behind)) (get_next_stream fd_setsize self prev)

  isset_lem : (fd : ℕ) (set : FdSet) → fd < fd_setsize → fd_isset fd_setsize fd set ≡ some (set fd)
  unfolding fd_isset
  isset_lem fd set fits = let inside : ltb fd fd_setsize ≡ true = ground arith in rw inside refl

  visits_from :
      (fuel : ℕ) (self : Idler) (streams : List Watched)
      → AllFit fd_setsize streams
      → length streams < fuel
      → collect (λ behind. visits fuel self (some behind)) (next_from fd_setsize self streams)
        ≡ some (ready self streams)
  unfolding next_from ready in_front collect put visits get_next_stream AllFit
  visits_from fuel self [] fit enough = refl
  visits_from zero self (stream ∷ streams) fit enough = absurd (omega arith)
  visits_from (suc fuel) self (stream ∷ streams) (fits, fit) enough =
      let writes = isset_lem stream.fd self.write_fds fits in
      let reads = isset_lem stream.fd self.read_fds fits in
      let skip = visits_from (suc fuel) self streams fit (omega arith) in
      let stop = visits_from fuel self streams fit (omega arith) in
      elim (Bool-cases (self.read_fds stream.fd)) [
        | inl r ↦ elim (Bool-cases (self.write_fds stream.fd)) [
          | inl w ↦ rw (writes, reads, r, w, stop) refl
          | inr w ↦ rw (writes, reads, r, w, stop) refl
        ]
        | inr r ↦ elim (Bool-cases (self.write_fds stream.fd)) [
          | inl w ↦ rw (writes, reads, r, w, stop) refl
          | inr w ↦ rw (writes, reads, r, w) skip
        ]
      ]

  -- Where all descriptors are below FD_SETSIZE: called until it returns `NULL`, beginning with `NULL`,
  -- `idler_get_next_stream` gives each stream whose descriptor is in the set of those to read or to write once, in the order of the
  -- list, with 1 for the first, 2 for the second and 3 for both, and no other. Two calls more than there are streams are enough.
  pub visits-ready :
      (fuel : ℕ) (self : Idler)
      → AllFit fd_setsize self.streams
      → length self.streams + 1 < fuel
      → visits fuel self none ≡ some (ready self self.streams)
  unfolding visits get_next_stream
  visits-ready zero self fit enough = absurd (omega arith)
  visits-ready (suc fuel) self fit enough = visits_from fuel self self.streams fit (omega arith)
