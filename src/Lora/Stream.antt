-- ===== src/Lora/Stream.antt =====
-- The receive side of main/lora.c: `stream_drop`, `lora_e32_flush_rx` and `lora_e32_receive_raw`
-- over the static buffer `g_rx_stream`. The clock and the UART driver are an `Io`, whose answers
-- are numbered by a tick that each iteration of the loop moves on. Log lines are left out; the
-- `uint32_t` counters wrap.
pub mod Parse
pub mod Loop
pub mod Total
pub mod Complete
use gtw_jalles_websoket_blue.Prelude.{
  ℕ, zero, suc, ◌+◌, ◌-◌, ◌*◌, ◌/◌, ◌%◌, ◌^◌, Bool, true, false, not, ◌||◌, Option, none, some,
  List, [], ◌∷◌, ◌++◌, ℤ, pos, negsuc, ltb, leb, ◌==◌, if◌then◌else◌, length, take, drop, get_or,
  replicate, min,
}
use gtw_jalles_websoket_blue.Lora.Crc.{stream_crc16}
use gtw_jalles_websoket_blue.Lora.Frame.{u16_at, preamble_byte, header_size, payload_size, crc_size}

-- `sizeof(g_rx_stream)`, `sizeof(chunk)`, and the limits of a frame.
abbrev pub stream_size : ℕ
stream_size = 512

abbrev pub chunk_size : ℕ
chunk_size = 128

abbrev pub len_offset : ℕ
len_offset = 9

abbrev pub stale_buffer_ms : ℕ
stale_buffer_ms = 1500

abbrev pub timeout_log_ms : ℕ
timeout_log_ms = 5000

-- The static variables of the file: `buf` is `g_rx_stream[0 .. g_rx_stream_len)`.
pub record Stream : Type 0 where
  pub buf : List ℕ
  pub last_byte_us : ℕ
  pub last_log_us : ℕ
  pub calls : ℕ
  pub ok : ℕ
  pub timeouts : ℕ
  pub bytes : ℕ
  pub noise : ℕ
  pub crc_fail : ℕ
  pub overflow : ℕ

-- A `uint32_t` counter.
abbrev pub u32_add : ℕ → ℕ → ℕ
u32_add a b = (a + b) % 2 ^ 32

unfoldable pub stream_drop : ℕ → Stream → Stream
stream_drop count s =
    if leb (length s.buf) count
    then record s { buf = []; last_byte_us = 0 }
    else record s { buf = rest; last_byte_us = if length rest == 0 then 0 else s.last_byte_us }
  where
    rest : List ℕ
    rest = drop count s.buf

-- `installed` is `g_uart_installed`; the flush of the driver's own buffer is the caller's.
unfoldable pub lora_e32_flush_rx : Stream → Stream
lora_e32_flush_rx s = record s { buf = []; last_byte_us = 0 }

-- The test of the inner loop: a byte that cannot begin a frame.
unfoldable pub starts_with_noise : List ℕ → Bool
starts_with_noise [] = false
starts_with_noise (b ∷ bytes) = not (b == preamble_byte)

-- One round of the inner loop.
unfoldable pub drop_one_noise : Stream → Stream
drop_one_noise s = let t = stream_drop 1 s in record t { noise = u32_add t.noise 1 }

-- The inner loop, with fuel: each round drops a byte, so the length of the buffer is enough.
unfoldable pub drop_noise : ℕ → Stream → Stream
drop_noise zero s = s
drop_noise (suc fuel) s =
    let rest = drop_noise fuel (drop_one_noise s) in if starts_with_noise s.buf then rest else s

-- What one look at the buffer decides: hand a frame over, look again, or read more bytes.
pub data Parsed : Type 0 where
  emit : List ℕ → Stream → Parsed
  again : Stream → Parsed
  more : Stream → Parsed

abbrev pub frame_len_of : List ℕ → ℕ
frame_len_of buf = header_size + get_or buf len_offset 0 + crc_size

-- The length is one that a frame for a buffer of `maxlen` bytes can have.
unfoldable pub bad_length : ℕ → List ℕ → Bool
bad_length maxlen buf = ltb payload_size (get_or buf len_offset 0) || ltb maxlen (frame_len_of buf)

unfoldable pub crc_matches : List ℕ → ℕ → Bool
crc_matches buf frame_len =
    u16_at buf (frame_len - crc_size) == stream_crc16 (take (frame_len - crc_size) buf)

-- The stream after a frame was copied out of it.
unfoldable pub taken : ℕ → Stream → Stream
taken frame_len s = let after = stream_drop frame_len s in record after { ok = u32_add after.ok 1 }

-- From the frame's length on: the body of `if (g_rx_stream_len >= LORA_STREAM_HEADER_LEN)`.
unfoldable pub parse_frame : ℕ → Stream → Parsed
parse_frame maxlen s =
    if bad_length maxlen s.buf
    then again (stream_drop 1 (record s { noise = u32_add s.noise 1 }))
    else if ltb (length s.buf) (frame_len_of s.buf)
    then more s
    else if crc_matches s.buf (frame_len_of s.buf)
    then emit (take (frame_len_of s.buf) s.buf) (taken (frame_len_of s.buf) s)
    else again (stream_drop 1 (record s { crc_fail = u32_add s.crc_fail 1 }))

unfoldable pub parse : ℕ → Stream → Parsed
parse maxlen s = if leb header_size (length clean.buf) then parse_frame maxlen clean else more clean
  where
    clean : Stream
    clean = drop_noise (length s.buf) s

-- `uart_read_bytes`: an error code below zero (`failed n` is -(n + 1)), or the bytes that came.
pub data Read : Type 0 where
  failed : ℕ → Read
  got : List ℕ → Read

-- `now` is `esp_timer_get_time` in microseconds, `read` takes the wait in milliseconds.
pub record Io : Type 0 where
  pub now : ℕ → ℕ
  pub read : ℕ → ℕ → Read

-- The result of the call, the caller's buffer if it was written, and the state after it.
pub record Received : Type 0 where
  pub result : ℤ
  pub out : Option (List ℕ)
  pub stream : Stream

-- Where `count` more bytes do not fit, the oldest bytes go.
unfoldable pub make_room : ℕ → Stream → Stream
make_room count s =
    if ltb stream_size (length s.buf + count)
    then stream_drop (length s.buf + count - stream_size)
        (record s { overflow = u32_add s.overflow 1 })
    else s

unfoldable pub append_chunk : ℕ → List ℕ → Stream → Stream
append_chunk now chunk s =
    let room = make_room (length chunk) s in
    record room {
      buf = room.buf ++ chunk;
      last_byte_us = now;
      bytes = u32_add room.bytes (length chunk);
    }

-- The end of the call after the loop. Subtraction stops at 0, where the source's signed difference
-- would be negative and fail the same test.
unfoldable pub stale_ms : ℕ → Stream → ℕ
stale_ms now s = if ltb 0 s.last_byte_us then (now - s.last_byte_us) / 1000 else 0

unfoldable pub finish_timeout : ℕ → Stream → Stream
finish_timeout now s =
    if length s.buf == 0
    then t
    else if leb stale_buffer_ms (stale_ms now s)
    then stream_drop (length s.buf) t
    else if leb (timeout_log_ms * 1000) (now - s.last_log_us)
    then record t { last_log_us = now }
    else t
  where
    t : Stream
    t = record s { timeouts = u32_add s.timeouts 1 }

abbrev pub remaining_ms : ℕ → ℕ
remaining_ms remaining_us = min ((remaining_us + 999) / 1000) 100

-- How the label `read_more` ends: the call returns, or the loop goes on.
pub data Reading : Type 0 where
  done : Received → Reading
  continue : Stream → Reading

-- The end of an iteration, with the rest of the loop.
unfoldable pub resume : (Stream → Option Received) → Reading → Option Received
resume loop (done r) = some r
resume loop (continue t) = loop t

-- What the loop does with the answer of `uart_read_bytes`.
unfoldable pub after_read : ℕ → Stream → Read → Reading
after_read now s (failed n) = done (record { result = negsuc n; out = none; stream = s })
after_read now s (got chunk) =
    if length chunk == 0 then continue s else continue (append_chunk now chunk s)

module _ (io : Io) (deadline maxlen : ℕ) where
  unfoldable pub timed_out : ℕ → Stream → Received
  timed_out tick s = record {
    result = pos 0;
    out = none;
    stream = finish_timeout (io.now (tick + 3)) s;
  }

  unfoldable pub read_more : ℕ → Stream → Reading
  read_more tick s =
      if leb deadline (io.now (tick + 1))
      then done (timed_out tick s)
      else after_read (io.now (tick + 2)) s
          (io.read tick (remaining_ms (deadline - io.now (tick + 1))))

  -- The frame, and zeros up to the end of the caller's buffer.
  unfoldable pub deliver : List ℕ → Stream → Received
  deliver frame s = record {
    result = pos (length frame);
    out = some (frame ++ replicate (maxlen - length frame) 0);
    stream = s;
  }

  unfoldable pub after_parse : ℕ → Parsed → Reading
  after_parse tick (emit frame t) = done (deliver frame t)
  after_parse tick (again t) = continue t
  after_parse tick (more t) = read_more tick t

  -- One iteration of the outer loop. The one that begins at a tick asks the clock at this tick and
  -- at the next three.
  unfoldable pub iteration : ℕ → Stream → Reading
  iteration tick s =
      if ltb (io.now tick) deadline || leb header_size (length s.buf)
      then after_parse tick (parse maxlen s)
      else done (timed_out tick s)

  unfoldable pub receive_loop : ℕ → ℕ → Stream → Option Received
  receive_loop zero tick s = none
  receive_loop (suc fuel) tick s = resume (λ t. receive_loop fuel (tick + 4) t) (iteration tick s)

unfoldable pub lora_e32_receive_raw : Io → ℕ → ℕ → ℕ → ℕ → Stream → Option Received
lora_e32_receive_raw io fuel maxlen timeout_ms tick s =
    let rest =
      receive_loop io (io.now tick + timeout_ms * 1000) maxlen fuel (tick + 1)
        (record s { calls = u32_add s.calls 1 }) in
    if maxlen == 0 then some (record { result = negsuc 0; out = none; stream = s }) else rest
