-- ===== src/Idler.antt =====
-- The idler, which waits for streams, and observers: source/idler.c and source/observer.c.
-- A set of descriptors is its test, and descriptors are not negative. A stream is known by a number, with its descriptor and whether it has outgoing
-- data (see Stream); a position in a list is the list from there on.
pub mod Watching
pub mod Visits
mod Tests
use c_mx.Common.{
  ℕ, ◌+◌, ◌*◌, ◌/◌, ◌%◌, Bool, true, false, Option, none, some, List, [], ◌∷◌, ltb, ◌==◌,
  if◌then◌else◌, ◌>>=◌,
}
use c_mx.Common.{bit_or}

abbrev pub FdSet : Type 0
FdSet = ℕ → Bool

-- `FD_ZERO`
pub fd_zero : FdSet
fd_zero fd = false

-- `FD_SET` and `FD_ISSET`; `none` is an access outside of the set, which has `fd_setsize` descriptors.
pub fd_set : ℕ → ℕ → FdSet → Option FdSet
fd_set fd_setsize fd set =
    if ltb fd fd_setsize then some (λ other. if other == fd then true else set other) else none

pub fd_isset : ℕ → ℕ → FdSet → Option Bool
fd_isset fd_setsize fd set = if ltb fd fd_setsize then some (set fd) else none

pub record Watched : Type 0 where
  pub id : ℕ
  pub fd : ℕ
  pub has_outgoing : Bool

-- `struct idler`
pub record Idler : Type 0 where
  pub read_fds : FdSet
  pub write_fds : FdSet
  pub streams : List Watched

-- `idler_new`, with what new memory holds.
pub idler_new : FdSet → FdSet → Idler
idler_new read_fds write_fds = record { read_fds = read_fds; write_fds = write_fds; streams = [] }

pub add_stream : Idler → Watched → Idler
add_stream self stream = record self { streams = stream ∷ self.streams }

pub unlink : List Watched → ℕ → List Watched
unlink [] id = []
unlink (stream ∷ streams) id =
    let others = unlink streams id in if stream.id == id then streams else stream ∷ others

pub remove_stream : Idler → ℕ → Idler
remove_stream self id = record self { streams = unlink self.streams id }

pub find_from : List Watched → ℕ → Option Watched
find_from [] fd = none
find_from (stream ∷ streams) fd =
    let later = find_from streams fd in if stream.fd == fd then some stream else later

pub find_stream : Idler → ℕ → Option Watched
find_stream self fd = find_from self.streams fd

-- The loop of `idler_prepare`, on the sets and the highest descriptor so far.
pub prepare_loop : ℕ → List Watched → FdSet → FdSet → ℕ → Option (FdSet × FdSet × ℕ)
prepare_loop fd_setsize [] read_fds write_fds max_fd = some (read_fds, write_fds, max_fd)
prepare_loop fd_setsize (stream ∷ streams) read_fds write_fds max_fd = do
  let higher = if ltb max_fd stream.fd then stream.fd else max_fd
  read_fds' ← fd_set fd_setsize stream.fd read_fds
  write_fds' ←
      (if stream.has_outgoing then fd_set fd_setsize stream.fd write_fds else some write_fds)
  prepare_loop fd_setsize streams read_fds' write_fds' higher

-- `idler_prepare`: the sets of descriptors to read and to write, and the highest.
pub prepare : ℕ → Idler → Option (FdSet × FdSet × ℕ)
prepare fd_setsize self = prepare_loop fd_setsize self.streams fd_zero fd_zero 0

-- What `idler_wait` returns.
pub data Waited : Type 0 where
  operation timeout interrupt error : Waited

-- What `select` returns, with the sets that it leaves: a number above 0, 0, or -1 with `EINTR` or another error.
pub data Selected : Type 0 where
  selected : FdSet → FdSet → Selected
  timed_out : FdSet → FdSet → Selected
  interrupted : Selected
  broken : Selected

pub finish_wait : Idler → FdSet × FdSet × ℕ → Selected → Waited × Idler
finish_wait self sets (selected read_fds write_fds) =
    (operation, record self { read_fds = read_fds; write_fds = write_fds })
finish_wait self sets (timed_out read_fds write_fds) =
    (timeout, record self { read_fds = read_fds; write_fds = write_fds })
finish_wait self (read_fds, write_fds, max_fd) interrupted =
    (interrupt, record self { read_fds = read_fds; write_fds = write_fds })
finish_wait self (read_fds, write_fds, max_fd) broken =
    (error, record self { read_fds = read_fds; write_fds = write_fds })

-- `idler_wait`; `select` takes the number of descriptors, the sets, seconds and microseconds.
pub wait : ℕ → (ℕ → FdSet → FdSet → ℕ → ℕ → Selected) → Idler → ℕ → Option (Waited × Idler)
wait fd_setsize select self time_ms = do
  sets ← prepare fd_setsize self
  some (
      finish_wait self sets
        (select (sets.2 + 1) sets.0 sets.1 (time_ms / 1000) (time_ms % 1000 * 1000)))

-- The two flags of a status: 1 for reading, 2 for writing.
pub get_stream_status : ℕ → Idler → Watched → Option ℕ
get_stream_status fd_setsize self stream = do
  outgoing ← fd_isset fd_setsize stream.fd self.write_fds
  incoming ← fd_isset fd_setsize stream.fd self.read_fds
  some (bit_or (if outgoing then 2 else 0) (if incoming then 1 else 0))

-- The loop of `idler_get_next_stream`: the stream found, its status, and what follows it.
pub next_from : ℕ → Idler → List Watched → Option (Option (Watched × ℕ × List Watched))
next_from fd_setsize self [] = some none
next_from fd_setsize self (stream ∷ streams) =
    let later = next_from fd_setsize self streams in
    fd_isset fd_setsize stream.fd self.write_fds >>= λ outgoing.
    fd_isset fd_setsize stream.fd self.read_fds >>= λ incoming.
    let current_status = bit_or (if outgoing then 2 else 0) (if incoming then 1 else 0) in
    if current_status == 0 then later else some (some (stream, current_status, streams))

-- `idler_get_next_stream`, where `prev` is what follows the previous stream, or `none` for `NULL`.
pub get_next_stream :
    ℕ → Idler → Option (List Watched) → Option (Option (Watched × ℕ × List Watched))
get_next_stream fd_setsize self none = next_from fd_setsize self self.streams
get_next_stream fd_setsize self (some behind) = next_from fd_setsize self behind

-- `struct observer`, with its list. 0 stands for `NULL`.
pub record Observer : Type 0 where
  pub object : ℕ
  pub notify_type : ℕ
  pub notify_handler : ℕ

pub observer_is_available : Option Observer → Bool
observer_is_available none = false
observer_is_available (some self) = if self.notify_handler == 0 then false else true

pub add_observer : List Observer → Observer → List Observer
add_observer items observer = observer ∷ items

pub matches : Observer → ℕ → ℕ → ℕ → Bool
matches tmp object notify_type handler =
    if tmp.object == object
    then if (if ltb 0 notify_type then tmp.notify_type == notify_type else true)
      then if handler == 0 then true else tmp.notify_handler == handler
      else false
    else false

pub find_observer : List Observer → ℕ → ℕ → ℕ → Option Observer
find_observer [] object notify_type handler = none
find_observer (tmp ∷ items) object notify_type handler =
    let later = find_observer items object notify_type handler in
    if matches tmp object notify_type handler then some tmp else later
