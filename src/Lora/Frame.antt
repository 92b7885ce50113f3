-- ===== src/Lora/Frame.antt =====
-- `lora_app_frame_t` of main/config.h, and the functions of main/main.c that measure, build and
-- check a frame: `lora_frame_air_len`, `lora_send_frame_air`, `lora_received_frame_valid`.
-- A pointer argument is never null here; a byte is a number below 2 ^ 8.
pub mod Layout
use gtw_jalles_websoket_blue.Prelude.{
  ℕ, suc, ◌+◌, ◌*◌, ◌-◌, ◌/◌, ◌%◌, Bool, true, false, List, [], ◌∷◌, ◌++◌, ℤ, negsuc, ltb, leb,
  ◌==◌, if◌then◌else◌, ◌||◌, not, take, drop, get_or,
}
use gtw_jalles_websoket_blue.Lora.Crc.{lora_crc16}

abbrev pub preamble_byte : ℕ
preamble_byte = 0xAA

-- `device_type_t` and `msg_type_t`.
abbrev pub dev_gtw : ℕ
dev_gtw = 1

abbrev pub dev_tank : ℕ
dev_tank = 2

abbrev pub dev_rep : ℕ
dev_rep = 3

abbrev pub msg_data : ℕ
msg_data = 1

abbrev pub msg_cmd : ℕ
msg_cmd = 2

abbrev pub msg_ack : ℕ
msg_ack = 3

abbrev pub msg_ping : ℕ
msg_ping = 4

pub record LoraAppFrame : Type 0 where
  pub preamble : ℕ
  pub src_type : ℕ
  pub src_id : ℕ
  pub dst_type : ℕ
  pub dst_id : ℕ
  pub msg_type : ℕ
  pub msg_id : ℕ
  pub len : ℕ
  pub has_bomba_id : ℕ
  pub bomba_id : ℕ
  pub payload : List ℕ  -- uint8_t[64]
  pub crc : ℕ

-- `offsetof(lora_app_frame_t, payload)`, `sizeof(payload)`, `sizeof(crc)` and the size of the struct.
abbrev pub header_size : ℕ
header_size = 13

abbrev pub payload_size : ℕ
payload_size = 64

abbrev pub crc_size : ℕ
crc_size = 2

abbrev pub frame_size : ℕ
frame_size = 79

-- A `uint16_t` in memory, low byte first.
abbrev pub u16_bytes : ℕ → List ℕ
u16_bytes n = n % 256 ∷ n / 256 ∷ []

abbrev pub u16_at : List ℕ → ℕ → ℕ
u16_at raw i = get_or raw i 0 + get_or raw (suc i) 0 * 256

-- The packed struct as it lies in memory.
unfoldable pub header_bytes : LoraAppFrame → List ℕ
header_bytes f =
    f.preamble
    ∷ f.src_type
    ∷ f.src_id % 256
    ∷ f.src_id / 256
    ∷ f.dst_type
    ∷ f.dst_id % 256
    ∷ f.dst_id / 256
    ∷ f.msg_type
    ∷ f.msg_id
    ∷ f.len
    ∷ f.has_bomba_id
    ∷ f.bomba_id % 256
    ∷ f.bomba_id / 256
    ∷ []

unfoldable pub struct_bytes : LoraAppFrame → List ℕ
unfolding header_bytes
struct_bytes f = header_bytes f ++ (f.payload ++ u16_bytes f.crc)

-- The struct that the bytes of its memory stand for.
unfoldable pub frame_of : List ℕ → LoraAppFrame
frame_of raw = record {
  preamble = get_or raw 0 0;
  src_type = get_or raw 1 0;
  src_id = u16_at raw 2;
  dst_type = get_or raw 4 0;
  dst_id = u16_at raw 5;
  msg_type = get_or raw 7 0;
  msg_id = get_or raw 8 0;
  len = get_or raw 9 0;
  has_bomba_id = get_or raw 10 0;
  bomba_id = u16_at raw 11;
  payload = take payload_size (drop header_size raw);
  crc = u16_at raw 77;
}

unfoldable pub lora_frame_air_len : LoraAppFrame → ℕ
lora_frame_air_len f = if ltb payload_size f.len then 0 else header_size + f.len + crc_size

-- What the checksum covers: the header and the used part of the payload.
unfoldable pub air_body : LoraAppFrame → List ℕ
unfolding struct_bytes
air_body f = take (header_size + f.len) (struct_bytes f)

-- The bytes that go on the air.
unfoldable pub air_bytes : LoraAppFrame → List ℕ
unfolding air_body
air_bytes f = air_body f ++ u16_bytes (lora_crc16 (air_body f))

-- `send` is `lora_e32_send_raw`. The frame comes back with its checksum stored.
unfoldable pub lora_send_frame_air : (List ℕ → ℤ) → LoraAppFrame → LoraAppFrame × ℤ
lora_send_frame_air send f =
    if lora_frame_air_len f == 0 || ltb frame_size (lora_frame_air_len f)
    then (f, negsuc 0)
    else (record f { crc = lora_crc16 (air_body f) }, send (air_bytes f))

-- `ok`, the checksum computed and the checksum received; the last two keep their old values on the
-- early returns.
pub record FrameCheck : Type 0 where
  pub ok : Bool
  pub crc_calc : ℕ
  pub crc_rx : ℕ

unfoldable pub lora_received_frame_valid : LoraAppFrame → ℕ → FrameCheck
lora_received_frame_valid rx air_len =
    if ltb air_len (header_size + crc_size)
    then record { ok = false; crc_calc = 0; crc_rx = 0 }
    else if lora_frame_air_len rx == 0 || not (air_len == lora_frame_air_len rx)
    then record { ok = false; crc_calc = 0; crc_rx = 0 }
    else checked
  where
    raw : List ℕ
    raw = struct_bytes rx

    received : ℕ
    received = u16_at raw (lora_frame_air_len rx - crc_size)

    computed : ℕ
    computed = lora_crc16 (take (lora_frame_air_len rx - crc_size) raw)

    checked : FrameCheck
    checked = record { ok = computed == received; crc_calc = computed; crc_rx = received }
