-- ===== src/Ota/Ble/Run.antt =====
-- Whole updates over Bluetooth: any sequence of calls, and the upload of an image in pieces.
use gtw_jalles_websoket_blue.Prelude.{ℕ, true, List, [], ◌∷◌, inl, inr, Bool-cases}
use gtw_jalles_websoket_blue.Esp.{EspErr}
use gtw_jalles_websoket_blue.Ota.State.{Ota}
use gtw_jalles_websoket_blue.Ota.Ble.{
  Begin, firmware_ota_ble_begin, firmware_ota_ble_write, Finish, firmware_ota_ble_finish,
  firmware_ota_ble_abort,
}
use gtw_jalles_websoket_blue.Ota.Ble.Inv.{
  IsSession, release-IsSession, firmware_ota_ble_begin-IsSession, firmware_ota_ble_write-IsSession,
}
use gtw_jalles_websoket_blue.Ota.Ble.Ending.{firmware_ota_ble_finish-IsSession}

-- The calls that the Bluetooth callbacks make, each with the answers that it meets.
pub data Call : Type 0 where
  begin : ℕ → Begin → Call
  write : ℕ → List ℕ → EspErr → EspErr → Call
  finish : Finish → Call
  abort : EspErr → Call

unfoldable pub step : Call → Ota → Ota
step (begin image_size b) o = (firmware_ota_ble_begin image_size b o).0
step (write offset chunk wrote stored) o = (firmware_ota_ble_write offset chunk wrote stored o).0
step (finish f) o = (firmware_ota_ble_finish f o).0
step (abort stored) o = firmware_ota_ble_abort stored o

unfoldable pub run : List Call → Ota → Ota
run [] o = o
run (c ∷ calls) o = run calls (step c o)

abort-IsSession :
    (stored : EspErr) (o : Ota) → IsSession o → IsSession (firmware_ota_ble_abort stored o)
unfolding firmware_ota_ble_abort
abort-IsSession stored o v = elim (Bool-cases o.ble.active) [
  | inl active ↦ simp active (release-IsSession true stored o)
  | inr inactive ↦ simp inactive v
]

pub step-IsSession : (c : Call) (o : Ota) → IsSession o → IsSession (step c o)
unfolding step
step-IsSession (begin image_size b) o v = firmware_ota_ble_begin-IsSession image_size b o v
step-IsSession (write offset chunk wrote stored) o v =
    firmware_ota_ble_write-IsSession offset chunk wrote stored o v
step-IsSession (finish f) o v = firmware_ota_ble_finish-IsSession f o v
step-IsSession (abort stored) o v = abort-IsSession stored o v

pub run-IsSession : (calls : List Call) (o : Ota) → IsSession o → IsSession (run calls o)
unfolding run
run-IsSession [] o v = v
run-IsSession (c ∷ calls) o v = run-IsSession calls (step c o) (step-IsSession c o v)
