-- ===== src/Idler/Watching.antt =====
-- What the idler waits for: `idler_prepare` of source/idler.c.
use c_mx.Common.{ℕ, ◌<◌, ◌≤◌, Bool, true, false, some, List, [], ◌∷◌, ltb, ◌==◌, if◌then◌else◌}
use c_mx.Common.{inl, inr, Bool-cases, arith, ◌≡◌, refl, ◌∙◌}
use c_mx.Idler.{FdSet, fd_zero, fd_set, Watched, Idler, prepare, prepare_loop}

-- The streams' descriptors fit into a set of descriptors.
unfoldable pub AllFit : ℕ → List Watched → Type 0
AllFit fd_setsize [] = Unit
AllFit fd_setsize (stream ∷ streams) = (stream.fd < fd_setsize) × AllFit fd_setsize streams

-- Is there a stream with this descriptor, and one that has outgoing data?
pub watches : List Watched → ℕ → Bool
watches [] fd = false
watches (stream ∷ streams) fd = if fd == stream.fd then true else watches streams fd

pub has_data : List Watched → ℕ → Bool
has_data [] fd = false
has_data (stream ∷ streams) fd =
    let others = has_data streams fd in
    if stream.has_outgoing then (if fd == stream.fd then true else others) else others

or_false : (a : Bool) → (if a then true else false) ≡ a
or_false true = refl
or_false false = refl

swap :
    (a b c : Bool)
    → (if b then true else if a then true else c) ≡ (if (if a then true else b) then true else c)
swap true true c = refl
swap true false c = refl
swap false b c = refl

abbrev with_fd : ℕ → FdSet → FdSet
with_fd fd set other = if other == fd then true else set other

read_from : List Watched → FdSet → FdSet
read_from [] r = r
read_from (stream ∷ streams) r = read_from streams (with_fd stream.fd r)

write_from : List Watched → FdSet → FdSet
write_from [] w = w
write_from (stream ∷ streams) w =
    write_from streams (if stream.has_outgoing then with_fd stream.fd w else w)

highest : List Watched → ℕ → ℕ
highest [] m = m
highest (stream ∷ streams) m = highest streams (if ltb m stream.fd then stream.fd else m)

prepare_loop_lem :
    (fd_setsize : ℕ) (streams : List Watched) (r w : FdSet) (m : ℕ)
    → AllFit fd_setsize streams
    → prepare_loop fd_setsize streams r w m
      ≡ some (read_from streams r, write_from streams w, highest streams m)
unfolding prepare_loop read_from write_from highest fd_set AllFit
prepare_loop_lem fd_setsize [] r w m fit = refl
prepare_loop_lem fd_setsize (stream ∷ streams) r w m (fits, fit) =
    let inside : ltb stream.fd fd_setsize ≡ true = ground arith in
    let m' = if ltb m stream.fd then stream.fd else m in
    elim (Bool-cases stream.has_outgoing) [
      | inl out ↦
          rw (inside, out)
            (prepare_loop_lem fd_setsize streams (with_fd stream.fd r) (with_fd stream.fd w) m' fit)
      | inr idle ↦
          rw (inside, idle) (prepare_loop_lem fd_setsize streams (with_fd stream.fd r) w m' fit)
    ]

read_lem :
    (streams : List Watched) (r : FdSet) (fd : ℕ)
    → read_from streams r fd ≡ (if watches streams fd then true else r fd)
unfolding read_from watches
read_lem [] r fd = refl
read_lem (stream ∷ streams) r fd =
    read_lem streams (with_fd stream.fd r) fd ∙ swap (fd == stream.fd) (watches streams fd) (r fd)

write_lem :
    (streams : List Watched) (w : FdSet) (fd : ℕ)
    → write_from streams w fd ≡ (if has_data streams fd then true else w fd)
unfolding write_from has_data
write_lem [] w fd = refl
write_lem (stream ∷ streams) w fd =
    write_lem streams (if stream.has_outgoing then with_fd stream.fd w else w) fd
    ∙ elim (Bool-cases stream.has_outgoing) [
      | inl some_data ↦ rw some_data (swap (fd == stream.fd) (has_data streams fd) (w fd))
      | inr no_data ↦ rw no_data refl
    ]

highest_lem :
    (streams : List Watched) (m fd : ℕ)
    → (m ≤ highest streams m) × (watches streams fd ≡ true → fd ≤ highest streams m)
unfolding highest watches
highest_lem [] m fd = (omega arith, λ found. cc)
highest_lem (stream ∷ streams) m fd =
    let m' = if ltb m stream.fd then stream.fd else m in
    let higher : (m ≤ m') × (stream.fd ≤ m') = ground arith in
    let (above, others) = highest_lem streams m' fd in
    (
      omega (arith, above, higher.0),
      λ found. elim (Bool-cases (fd == stream.fd)) [
        | inl same ↦
            let equal : fd ≡ stream.fd = ground (arith, same) in
            omega (arith, above, higher.1, equal)
        | inr other ↦ others (rw other at found)
      ],
    )

-- What the idler waits for, where all descriptors are below FD_SETSIZE: no set is written outside, a descriptor is watched for
-- reading where a stream has it, and for writing only where one of these streams has outgoing data, and none is above the
-- highest that is reported.
pub prepare_lem :
    (fd_setsize : ℕ) (self : Idler)
    → AllFit fd_setsize self.streams
    → (read_fds write_fds : FdSet) × (max_fd : ℕ) × (prepare fd_setsize self
        ≡ some (read_fds, write_fds, max_fd))
      × ((fd : ℕ)
          → (read_fds fd ≡ watches self.streams fd)
            × (write_fds fd ≡ has_data self.streams fd)
            × (watches self.streams fd ≡ true → fd ≤ max_fd))
unfolding prepare fd_zero
prepare_lem fd_setsize self fit = (
  read_from self.streams fd_zero,
  write_from self.streams fd_zero,
  highest self.streams 0,
  prepare_loop_lem fd_setsize self.streams fd_zero fd_zero 0 fit,
  λ fd. (
    read_lem self.streams fd_zero fd ∙ or_false (watches self.streams fd),
    write_lem self.streams fd_zero fd ∙ or_false (has_data self.streams fd),
    (highest_lem self.streams 0 fd).1,
  ),
)
