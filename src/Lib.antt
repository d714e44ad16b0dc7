-- ===== src/Lib.antt =====
-- Verification of c-mx, a C library of modules for network programs: streams that decorate one
-- another, with WebSocket and MQTT streams among them, the packets and frames that they speak,
-- HTTP messages, addresses, strings, byte buffers, clocks and timers, and repeated attempts.
--
-- How the parts interact: a stream (source/stream.c) writes to a file descriptor or to the stream
-- that it decorates, and queues what that does not take. A WebSocket stream (source/stream_ws.c)
-- opens with HTTP messages (source/http.c, over source/string.c) and then reads and writes frames
-- (source/websocket.c). An MQTT stream (source/stream_mqtt.c) keeps the bytes that come in in a
-- buffer (source/buffer.c), finds frames in it and reads and writes packets with the codec
-- (source/mqtt.c), and keeps frames in queues (include/mx/queue.h, lists here). Both watch timers
-- (include/mx/timer.h). The idler (source/idler.c) waits for streams, by their descriptors and by
-- whether they have outgoing data. A repeater (source/repeater.c) spaces attempts by timers and
-- random back-off (source/rand.c).
--
-- Which file models which code:
--   Mqtt.Put, Mqtt.Get     the mqtt_put_ and mqtt_get_ functions of source/mqtt.c, as writers and readers
--   Mqtt.Length            mqtt_encode_length, mqtt_decode_length
--   Mqtt.Frame             mqtt_parse_frame, mqtt_format_frame, mqtt_format_fixed_header
--   Mqtt.Packets, .Publish, .Connect   parser, size and formatter of each packet's body
--   Mqtt.Values            the mqtt_msg_ and mqtt_conf_ functions of source/mqtt.c
--   Buffer                 source/buffer.c, include/mx/buffer.h; an operation is named as in C, less buffer_
--                          (cut, append, copy, rewind, resize; take_chunk is buffer_take)
--   Libc                   the functions of C's standard library on strings that the code calls
--   Strings                source/string.c
--   Url                    source/url.c
--   Http, .Parse, .Serialize   source/http.c
--   Stream                 source/stream.c: the queue of outgoing data; a stream is given by what it uses of
--                          the one below, the record Lower, and is one again (layered)
--   Websocket              source/websocket.c
--   WsStream, .Handshake, .Receive   source/stream_ws.c: what is sent and passing time, the opening, and
--                          what is received; an operation is named as in C, less stream_ws_
--   Idler                  source/idler.c, source/observer.c
--   Socket                 source/socket.c: whole buffers and messages over the system's write and read
--   Timer, .Backoff, .Repeater   include/mx/timer.h, source/timer.c, source/rand.c, source/repeater.c
--   Session, .Receive, .Input, .Time   source/stream_mqtt.c: what an application sends; frames received,
--                          one function per case of the switch; the loop over the input; and stream_mqtt_do_time
--
-- A block of memory is a list of bytes and a pointer an index into it; an access outside the block
-- is `none`, so that a result that is there says that no access was out of bounds. A pointer into
-- a string is the list of the characters from there to the terminator. Integers are natural
-- numbers, with the wrap-around of each type written out (u8, u16, u32, u64); the clocks count up
-- to the width of a time_t, which is a parameter, and what timers add to them has no bound.
-- stream_do_write and http_msg_serialize keep sizes in an int, and so do their models. FD_SETSIZE
-- is a parameter. What malloc and realloc promise is the record Buffer.Allocator; Buffer.Zeroing
-- fulfils it. The system's write and read, what reads yield, the clocks, the results of rand and
-- rand_data, SHA-1, base64 and the application's handler are parameters. The streams keep their
-- input and their slices as lists of bytes, which Buffer's refinement allows.
--
-- Loops: sending and receiving on a socket run on fuel, one round for each byte; the decoding and
-- encoding of a length run on fuel, one round for each byte that a size_t can need; the loops over
-- an input buffer, over header lines and over tokens run on fuel from the length of what is left
-- to read; the flush of a stream runs on fuel, which is enough where it exceeds the bytes queued
-- and the writes that the system refuses; the masking loop and the loops over queues recurse on
-- what is left to do.
--
-- Not modelled: constructors and destructors, the values that the writes of an MQTT stream return,
-- reading HTTP responses, opening sockets, network interfaces, TLS, JSON and logging; the
-- third-party base64, SHA-1, queue, list and tree code.
mod Common
pub mod Mqtt
pub mod Buffer
pub mod Websocket
pub mod Timer
pub mod Session
pub mod Libc
pub mod Strings
pub mod Url
pub mod Http
pub mod Stream
pub mod WsStream
pub mod Idler
pub mod Socket
