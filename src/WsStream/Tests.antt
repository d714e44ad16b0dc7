-- ===== src/WsStream/Tests.antt =====
-- WebSocket streams at concrete frames and times. No code of its own.
use c_mx.Common.{ℕ, zero, suc, ◌+◌, ◌*◌, Bool, true, false, none, some, List, [], ◌∷◌, ◌++◌, length}
use c_mx.Common.{inl, inr, arith, ◌≡◌, refl}
use c_mx.Timer.{start, expired, before_end, time_now, tstamp, clock_for}
use c_mx.Websocket.{WsFrame}
use c_mx.Stream.{Result, wrote, st_ready, st_closing, descriptor}
use c_mx.Stream.{got}
use c_mx.WsStream.{StreamWs, World, send, do_write, do_time, generate_mask, set_status}
use c_mx.WsStream.Receive.{waiting, peek_frame, read_frame, message, dispatch}
use c_mx.WsStream.Receive.Message.{Fragment, fragments, Small, peek_frame-read_frame}
use c_mx.WsStream.Sent.{Serves, do_write-read_frame}
use c_mx.WsStream.Alive.{do_time-dispatch}

abbrev write_all : List ℕ → List ℕ → Result × List ℕ
write_all wire bytes = (wrote (length bytes), wire ++ bytes)

abbrev fill : ℕ → ℕ → List ℕ
fill x zero = []
fill x (suc n) = x ∷ fill x n

length-fill : (x n : ℕ) → length (fill x n) ≡ n
length-fill x zero = refl
length-fill x (suc n) = omega (arith, length-fill x n)

-- The world at a time, in seconds.
abbrev world_at : ℕ → World
world_at s = record {
  sys = record { ms = s * 1000; s = s; chrono = s };
  clock = record { ms = s * 1000; s = s; chrono = s };
  malloc = λ n. fill 0 n;
  rand_data = λ i n. fill (i + 1) n;
  sha1 = λ bytes. bytes;
  base64 = λ bytes. some bytes;
}

world-Serves : (s : ℕ) → Serves (world_at s)
world-Serves s = record { memory = λ n. length-fill 0 n; random = λ i n. length-fill (i + 1) n }

abbrev stream_of : Bool → StreamWs (List ℕ)
stream_of client = record {
  base = record { status = st_ready; outgoing = [] };
  below = [];
  buffer = [];
  client_role = client;
  cache = [];
  data_type = 2;
  key = none;
  mask = none;
  keep_alive = 90;
  keep_alive_responded = true;
  keep_alive_timer = record { start_time = 10; interval = 90; flags = 1 };
  drawn = 0;
}

abbrev any_frame : WsFrame
any_frame = record {
  fin_flag = 0;
  opcode = 0;
  mask_flag = 0;
  payload_length = 0;
  mask_offset = 0;
  payload_offset = 0;
}

-- A message in three frames.
abbrev parts : List Fragment
parts =
    record { key = 1 ∷ 2 ∷ 3 ∷ 4 ∷ []; bytes = 104 ∷ 101 ∷ [] }
    ∷ record { key = 5 ∷ 6 ∷ 7 ∷ 8 ∷ []; bytes = [] }
    ∷ record { key = 9 ∷ 9 ∷ 9 ∷ 9 ∷ []; bytes = 108 ∷ 108 ∷ 111 ∷ [] }
    ∷ []

parts-Small : Small 1 parts
unfolding Small c_mx.Websocket.Header.length_bytes c_mx.Websocket.Masking.masked
parts-Small = (refl, omega arith, (refl, omega arith, (refl, omega arith, tt)))

peek_frame-read_frame_example :
    (self' : StreamWs (List ℕ)) × (peek_frame
        (descriptor write_all)
        (world_at 5)
        (got (fragments 1 parts) ∷ [])
        any_frame
        (stream_of false)
      ≡ some (waiting 5, self'))
    × (read_frame self' 100 ≡ (
      message 1 1 (104 ∷ 101 ∷ 108 ∷ 108 ∷ 111 ∷ []),
      record (stream_of false) { data_type = 1 },
    ))
peek_frame-read_frame_example =
    peek_frame-read_frame (descriptor write_all) (world_at 5) (stream_of false) 1 parts any_frame
      100 refl refl refl refl (inl refl) (omega arith) parts-Small (omega arith)

do_write-read_frame_example :
    (sent : List ℕ) × (server' : StreamWs (List ℕ)) × (do_write
        (descriptor write_all)
        (world_at 5)
        (stream_of true)
        (7 ∷ 8 ∷ [])
      ≡ some (
          send
            (descriptor write_all)
            (world_at 5)
            (generate_mask (descriptor write_all) (world_at 5) (stream_of true))
            sent))
    × (peek_frame (descriptor write_all) (world_at 5) (got sent ∷ []) any_frame (stream_of false)
        ≡ some (waiting 2, server'))
    × ((read_frame server' 4096).0 ≡ message 1 2 (7 ∷ 8 ∷ []))
do_write-read_frame_example =
    do_write-read_frame (descriptor write_all) (world_at 5) (world-Serves 5) (stream_of true)
      (stream_of false) (7 ∷ 8 ∷ []) any_frame 4096 refl (inr refl) (omega arith) refl refl refl
      refl (omega arith)

do_time-dispatch_example :
    (self' : StreamWs (List ℕ)) × (do_time (descriptor write_all) (world_at 100) (stream_of true)
      ≡ some self')
    × (self'.base.status ≡ st_ready)
    × (((self'.base, self'.below)
          ≡ (c_mx.Stream.do_write
              (descriptor write_all)
              ((stream_of true).base, (stream_of true).below)
              (137 ∷ 128 ∷ 1 ∷ 1 ∷ 1 ∷ 1 ∷ [])).1)
        × (self'.mask ≡ some (1 ∷ 1 ∷ 1 ∷ 1 ∷ []))
        × (self'.drawn ≡ 1)
        × (self'.keep_alive_timer
            ≡ start
                (world_at 100).sys
                (world_at 100).clock
                (stream_of true).keep_alive_timer.flags
                (stream_of true).keep_alive_timer.interval))
    × (expired (world_at 190).sys (world_at 190).clock self'.keep_alive_timer ≡ true
        → do_time (descriptor write_all) (world_at 190) self' ≡ some (set_status self' st_closing))
    × ((fin : ℕ) (bytes : List ℕ)
        → (answered later : StreamWs (List ℕ)) × (dispatch
              (descriptor write_all)
              (world_at 190)
              self'
              fin
              10
              bytes
            ≡ some answered)
          × (do_time (descriptor write_all) (world_at 190) answered ≡ some later)
          × (later.base.status ≡ st_ready))
unfolding expired before_end time_now tstamp clock_for
do_time-dispatch_example =
    do_time-dispatch (descriptor write_all) (world_at 100) (world_at 190) (stream_of true)
      (world-Serves 100) (world-Serves 190) refl refl refl
