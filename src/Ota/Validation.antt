-- ===== src/Ota/Validation.antt =====
-- The confirmation of the running image in main/firmware_ota.c: `firmware_ota_mark_running_valid`,
-- `validation_task` and `firmware_ota_schedule_validation`.
use gtw_jalles_websoket_blue.Prelude.{
  ℕ, ◌≤◌, ◌≡◌, refl, inl, inr, Bool, true, false, not, ◌&&◌, List, [], ◌∷◌, ◌++◌, ltb,
  if◌then◌else◌, if-elim, Bool-cases, arith,
}
use gtw_jalles_websoket_blue.Esp.{EspErr, esp_ok, no_mem, invalid_state, is_ok}
use gtw_jalles_websoket_blue.Ota.State.{Ota, set_state, valid, no_ota}

-- The state of the update, `s_validation_scheduled`, whether the SDK still has the running image to be
-- confirmed, and the delays of the validation tasks that were created and have not ended.
pub record Validation : Type 0 where
  pub ota : Ota
  pub scheduled : Bool
  pub pending_verify : Bool
  pub tasks : List ℕ

-- Whether the running partition and its state are known, and the answers to the confirmation and of NVS.
pub record Confirm : Type 0 where
  pub known : Bool
  pub confirm : EspErr
  pub stored : EspErr

unfoldable pub mark_state : Confirm → Validation → Validation × EspErr
mark_state c v =
    let o : Ota = v.ota in
    (
      record v {
        ota =
            set_state c.stored (if o.ota_capable then valid else no_ota) (record o { target = [] });
      },
      c.stored,
    )

unfoldable pub firmware_ota_mark_running_valid : Confirm → Validation → Validation × EspErr
firmware_ota_mark_running_valid c v =
    if not (v.ota.initialized)
    then (v, invalid_state)
    else if not (c.known && v.pending_verify)
    then mark_state c v
    else if is_ok c.confirm
    then mark_state c (record v { pending_verify = false })
    else (v, c.confirm)

-- The end of the validation task with the delay at the front.
unfoldable pub validation_task : Confirm → Validation → Validation
validation_task c v = go v.tasks
  where
    go : List ℕ → Validation
    go [] = v
    go (delay ∷ rest) = record (firmware_ota_mark_running_valid c v).0 {
      scheduled = false;
      tasks = rest;
    }

-- `made` says that the task could be created.
unfoldable pub firmware_ota_schedule_validation :
    (made : Bool) → ℕ → Validation → Validation × EspErr
firmware_ota_schedule_validation made delay_ms v =
    if not (v.ota.initialized)
    then (v, invalid_state)
    else if v.scheduled
    then (v, esp_ok)
    else if not made
    then (v, no_mem)
    else (
      record v {
        scheduled = true;
        tasks = v.tasks ++ ((if ltb delay_ms 1000 then 1000 else delay_ms) ∷ []);
      },
      esp_ok,
    )

-- At most one task is there, the flag says so, and its delay is at least a second.
abbrev pub IsScheduled : Bool → List ℕ → Type 0
IsScheduled scheduled tasks = elim tasks [
  | [] ↦ scheduled ≡ false
  | delay ∷ rest ↦ (scheduled ≡ true) × (rest ≡ []) × (1000 ≤ delay)
]

abbrev HasOneTask : (Validation × EspErr) → Type 0
HasOneTask r = IsScheduled r.0.scheduled r.0.tasks

fresh_task :
    (delay_ms : ℕ) (tasks : List ℕ)
    → IsScheduled false tasks
    → IsScheduled true (tasks ++ ((if ltb delay_ms 1000 then 1000 else delay_ms) ∷ []))
fresh_task delay_ms [] h = (refl, refl, ground arith)
fresh_task delay_ms (d ∷ rest) h = absurd (let on = h.0 in ground arith)

-- `firmware_ota_schedule_validation` never makes a second task beside one that has not ended, and gives
-- each at least a second.
pub schedule_validation-IsScheduled :
    (made : Bool) (delay_ms : ℕ) (v : Validation)
    → IsScheduled v.scheduled v.tasks
    → HasOneTask (firmware_ota_schedule_validation made delay_ms v)
unfolding firmware_ota_schedule_validation
schedule_validation-IsScheduled made delay_ms v h =
    if-elim HasOneTask (not (v.ota.initialized)) (λ e. h)
      (λ ready. elim (Bool-cases v.scheduled) [
        | inl there ↦ simp there (simp there at h)
        | inr none_there ↦ simp none_there (
            if-elim HasOneTask (not made) (λ e. h)
              (λ e. fresh_task delay_ms v.tasks (simp none_there at h)))
      ])
