-- ===== src/Gateway/Patch/Tests.antt =====
-- A few requests, on which the theorems on the queue are applied.
use gtw_jalles_websoket_blue.Prelude.{ℕ, ◌<◌, ◌≡◌, ◌↔◌, ◌⊎◌, true, false, List, [], ◌∷◌, length}
use gtw_jalles_websoket_blue.Gateway.Patch.{
  http_patch, Locks, is_tank_level_patch, queue_http_request, patch_init, patch_backoff_delay_ms,
}
use gtw_jalles_websoket_blue.Gateway.Patch.Slots.{IsPool, patch_init-IsPool}
use gtw_jalles_websoket_blue.Gateway.Patch.Queue.{
  Event, request, taken, finished, happen_all, happen_all-IsPool, queue_http_request_iff,
}
use gtw_jalles_websoket_blue.Gateway.Patch.Backoff.{patch_backoff_delay_ms_lem}

abbrev locks : Locks
locks = record { first = true; second = true; fill = true; undo = true }

-- `/b/1` and `{}`.
abbrev path : List ℕ
path = 47 ∷ 98 ∷ 47 ∷ 49 ∷ []

abbrev body : List ℕ
body = 123 ∷ 125 ∷ []

abbrev events : List Event
events =
    request locks path body http_patch
    ∷ taken false
    ∷ request locks path body http_patch
    ∷ finished true
    ∷ []

happen_all-IsPool_example : IsPool (happen_all events patch_init)
happen_all-IsPool_example = happen_all-IsPool events patch_init patch_init-IsPool

queue_http_request_iff_example :
    ((queue_http_request locks path body http_patch patch_init).1 ≡ true) ↔ (
      (length path < 64)
      × (length body < 256)
      × ((is_tank_level_patch path body http_patch ≡ true) ⊎ (0 < length patch_init.free)))
queue_http_request_iff_example =
    queue_http_request_iff locks path body http_patch patch_init patch_init-IsPool

backoff_after_three : patch_backoff_delay_ms 1234 3 ≡ 8234
backoff_after_three = patch_backoff_delay_ms_lem 1234 3
