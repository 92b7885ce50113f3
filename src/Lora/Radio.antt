-- ===== src/Lora/Radio.antt =====
-- The E32 module's set-up and transmit side in main/lora.c: `lora_e32_init`, `lora_e32_reinit`,
-- `cfg_response_matches`, `lora_e32_apply_cfg_with_head` and its two callers, `lora_e32_send_raw`.
-- The answers of the UART driver and of the GPIO are arguments; delays and log lines are left out.
pub mod Configure
pub mod Send
use gtw_jalles_websoket_blue.Prelude.{
  ℕ, zero, suc, ◌+◌, Bool, true, false, ◌&&◌, ◌||◌, List, [], ◌∷◌, ◌++◌, ℤ, pos, negsuc, ltb, ◌==◌,
  if◌then◌else◌, length, take, drop, get_or,
}
use gtw_jalles_websoket_blue.Esp.{
  EspErr, esp_ok, esp_fail, invalid_state, invalid_size, timeout, invalid_response, is_ok,
}
use gtw_jalles_websoket_blue.Lora.Stream.{Stream, Read, failed, got}

-- `lora_e32_config_t`: the fields that decide something; the pins and the port are fixed numbers.
pub record Config : Type 0 where
  pub has_reset_pin : Bool
  pub head : ℕ
  pub addh : ℕ
  pub addl : ℕ
  pub speed : ℕ
  pub channel : ℕ
  pub option : ℕ

-- What the pins M0 and M1 select.
pub data Mode : Type 0 where
  normal config : Mode

-- The static variables of the file beside the receive stream's own, the mode pins, and how often
-- the reset pin was pulsed.
pub record Radio : Type 0 where
  pub cfg : Config
  pub installed : Bool
  pub mode : Mode
  pub resets : ℕ
  pub stream : Stream

-- What the driver answers to `uart_driver_install`, `uart_param_config` and `uart_set_pin`.
pub record SetUp : Type 0 where
  pub install : EspErr
  pub param : EspErr
  pub pins : EspErr

unfoldable pub hw_reset_if_any : Radio → Radio
hw_reset_if_any r = if r.cfg.has_reset_pin then record r { resets = r.resets + 1 } else r

-- From `uart_param_config` on.
unfoldable pub init_uart : SetUp → Radio → Radio × EspErr
init_uart u r =
    if is_ok u.param
    then if is_ok u.pins then (hw_reset_if_any r, esp_ok) else (r, u.pins)
    else (r, u.param)

unfoldable pub lora_e32_init : SetUp → Config → Radio → Radio × EspErr
lora_e32_init u cfg r =
    let r' = record r { cfg = cfg; mode = normal } in
    if r.installed
    then init_uart u r'
    else if is_ok u.install
    then init_uart u (record r' { installed = true })
    else (r', u.install)

unfoldable pub lora_e32_reinit : SetUp → Radio → Radio × EspErr
lora_e32_reinit u r = lora_e32_init u r.cfg r

-- The test of one round of `cfg_response_matches`: `r` is the response from the offset on.
unfoldable pub response_at : List ℕ → List ℕ → Bool
response_at cmd r =
    (get_or r 0 0 == 0xC0 || get_or r 0 0 == 0xC1 || get_or r 0 0 == 0xC2)
    && (get_or r 1 0 == get_or cmd 1 0 && get_or r 2 0 == get_or cmd 2 0)
    && (get_or r 3 0 == get_or cmd 3 0 || (get_or cmd 3 0 == 0x18 && get_or r 3 0 == 0x1A))
    && (get_or r 4 0 == get_or cmd 4 0 && get_or r 5 0 == get_or cmd 5 0)

-- The loop over the offsets, as a recursion on the rest of the response.
unfoldable pub cfg_response_matches : List ℕ → List ℕ → Bool
cfg_response_matches [] cmd = false
cfg_response_matches (b ∷ rest) cmd =
    if ltb (length (b ∷ rest)) 6
    then false
    else response_at cmd (b ∷ rest) || cfg_response_matches rest cmd

-- The answers to `uart_flush_input`, `uart_write_bytes`, `uart_wait_tx_done` and `uart_read_bytes`.
pub record Exchange : Type 0 where
  pub flush : EspErr
  pub written : ℤ
  pub tx_done : EspErr
  pub response : Read

unfoldable pub command : Config → ℕ → List ℕ
command c head = head ∷ c.addh ∷ c.addl ∷ c.speed ∷ c.channel ∷ c.option ∷ []

unfoldable pub read_result : List ℕ → Read → EspErr
read_result cmd (failed n) = esp_fail
read_result cmd (got resp) =
    if length resp == 0
    then timeout
    else if cfg_response_matches resp cmd
    then esp_ok
    else invalid_response

-- A short write is an error, and a negative one another.
unfoldable pub write_result : ℤ → EspErr
write_result (negsuc n) = esp_fail
write_result (pos n) = if n == 6 then esp_ok else invalid_size

unfoldable pub exchange_result : List ℕ → Exchange → EspErr
exchange_result cmd x =
    if is_ok x.flush
    then if is_ok (write_result x.written)
      then if is_ok x.tx_done then read_result cmd x.response else x.tx_done
      else write_result x.written
    else x.flush

-- The result, and the modes that the pins went through.
pub record Applied : Type 0 where
  pub radio : Radio
  pub modes : List Mode
  pub result : EspErr

unfoldable pub lora_e32_apply_cfg_with_head : ℕ → Exchange → Radio → Applied
lora_e32_apply_cfg_with_head head x r =
    if r.installed
    then record {
      radio = record r { mode = normal; stream = record stream { buf = [] } };
      modes = config ∷ normal ∷ [];
      result = exchange_result (command r.cfg head) x;
    }
    else record { radio = r; modes = []; result = invalid_state }
  where
    stream : Stream
    stream = r.stream

unfoldable pub lora_e32_apply_cfg : Exchange → Radio → Applied
lora_e32_apply_cfg x r = lora_e32_apply_cfg_with_head r.cfg.head x r

unfoldable pub lora_e32_apply_cfg_temp : Exchange → Radio → Applied
lora_e32_apply_cfg_temp x r = lora_e32_apply_cfg_with_head 0xC2 x r

-- `uart_write_bytes` answers by the bytes that are left to write and how many were written before;
-- `wire` collects what it took. The loop has as much fuel as there are bytes.
pub record Sent : Type 0 where
  pub result : ℤ
  pub wire : List ℕ

-- After one `uart_write_bytes`: nothing written, or an error, ends the call.
unfoldable pub go_on : (ℤ → Sent) → (ℕ → Sent) → ℤ → Sent
go_on stop loop (negsuc n) = stop (negsuc n)
go_on stop loop (pos n) = if n == 0 then stop (pos 0) else loop n

-- `tx_done` is whether `uart_wait_tx_done` answered ESP_OK.
module _ (write : ℕ → List ℕ → ℤ) (tx_done : Bool) where
  unfoldable pub stopped : ℕ → List ℕ → ℤ → Sent
  stopped total wire written = record {
    result = if ltb 0 total then pos total else written;
    wire = wire;
  }

  unfoldable pub send_loop : ℕ → ℕ → List ℕ → List ℕ → Sent
  send_loop fuel total wire [] = record {
    result = if tx_done then pos total else negsuc 0;
    wire = wire;
  }
  send_loop zero total wire (b ∷ left) = stopped total wire (pos 0)
  send_loop (suc fuel) total wire (b ∷ left) =
      go_on (stopped total wire)
        (λ n. send_loop fuel (total + n) (wire ++ take n (b ∷ left)) (drop n (b ∷ left)))
        (write total (b ∷ left))

  unfoldable pub lora_e32_send_raw : List ℕ → Sent
  lora_e32_send_raw bytes =
      if length bytes == 0
      then record { result = pos 0; wire = [] }
      else send_loop (length bytes) 0 [] bytes
