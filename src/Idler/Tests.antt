-- ===== src/Idler/Tests.antt =====
-- An idler with three streams, two of which can be read or written. No code of its own.
use c_mx.Common.{ℕ, ◌≤◌, true, false, none, some, [], ◌∷◌, arith, ◌≡◌, ◌==◌}
use c_mx.Idler.{FdSet, Idler, prepare}
use c_mx.Idler.Watching.{AllFit, watches, has_data, prepare_lem}
use c_mx.Idler.Visits.{in_front, visits, ready, visits-ready}

abbrev three : Idler
three = record {
  read_fds = λ fd. fd == 4;
  write_fds = λ fd. fd == 7;
  streams =
      record { id = 1; fd = 4; has_outgoing = false }
      ∷ record { id = 2; fd = 5; has_outgoing = true }
      ∷ record { id = 3; fd = 7; has_outgoing = true }
      ∷ [];
}

three_fit : AllFit 1024 three.streams
unfolding AllFit
three_fit = (omega arith, (omega arith, (omega arith, tt)))

visits-ready_example :
    visits 1024 5 three none
    ≡ some (
        (record { id = 1; fd = 4; has_outgoing = false }, 1)
        ∷ (record { id = 3; fd = 7; has_outgoing = true }, 2)
        ∷ [])
unfolding ready in_front
visits-ready_example = visits-ready 1024 5 three three_fit (omega arith)

prepare_lem_example :
    (read_fds write_fds : FdSet) × (max_fd : ℕ) × (prepare 1024 three
      ≡ some (read_fds, write_fds, max_fd))
    × ((fd : ℕ)
        → (read_fds fd ≡ watches three.streams fd)
          × (write_fds fd ≡ has_data three.streams fd)
          × (watches three.streams fd ≡ true → fd ≤ max_fd))
prepare_lem_example = prepare_lem 1024 three three_fit
