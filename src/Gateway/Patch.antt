-- ===== src/Gateway/Patch.antt =====
-- The queue of HTTP requests in main/main.c, between the receiving task and `patch_task`: 64 slots, a
-- queue of the free ones and a queue of the filled ones. A lock argument says whether
-- `patch_pool_mutex` was taken in time; log lines are left out.
pub mod Slots
pub mod Queue
pub mod Backoff
pub mod Delivery
mod Tests
mod DeliveryTests
use gtw_jalles_websoket_blue.Prelude.{
  ℕ, zero, suc, ◌+◌, ◌-◌, ◌*◌, ◌%◌, Bool, true, false, not, ◌&&◌, ◌||◌, Option, none, some, List,
  [], ◌∷◌, ◌++◌, length, take, ltb, leb, ◌==◌, if◌then◌else◌, min,
}
use gtw_jalles_websoket_blue.Text.{starts_with, same_text, contains}

abbrev pub queue_length : ℕ
queue_length = 64

abbrev pub path_size : ℕ
path_size = 64

abbrev pub body_size : ℕ
body_size = 256

-- `http_method_t`, as far as it goes through the queue.
pub data Method : Type 0 where
  http_patch http_post : Method

abbrev pub is_patch : Method → Bool
is_patch http_patch = true
is_patch http_post = false

-- `patch_slot_state_t`.
pub data SlotState : Type 0 where
  slot_free slot_queued slot_processing : SlotState

abbrev pub is_queued : SlotState → Bool
is_queued slot_queued = true
is_queued _ = false

pub record PatchRequest : Type 0 where
  pub path : List ℕ
  pub body : List ℕ
  pub method : Method

-- `patchPool`, `patchPoolState`, `xPatchFreeQueue`, `xPatchQueue` (by the index of the slot), and the
-- slot that `patch_task` works on, if it does.
pub record Patch : Type 0 where
  pub pool : ℕ → PatchRequest
  pub slots : ℕ → SlotState
  pub free : List ℕ
  pub queue : List ℕ
  pub in_hand : List ℕ

abbrev pub put : {A : Type 0} → (ℕ → A) → ℕ → A → ℕ → A
put f i x j = if j == i then x else f j

-- `/tanque/` and `nivel_atual`.
abbrev pub tank_prefix : List ℕ
tank_prefix = 47 ∷ 116 ∷ 97 ∷ 110 ∷ 113 ∷ 117 ∷ 101 ∷ 47 ∷ []

abbrev pub level_key : List ℕ
level_key = 110 ∷ 105 ∷ 118 ∷ 101 ∷ 108 ∷ 95 ∷ 97 ∷ 116 ∷ 117 ∷ 97 ∷ 108 ∷ []

unfoldable pub is_tank_level_patch : List ℕ → List ℕ → Method → Bool
is_tank_level_patch path body method =
    is_patch method && starts_with tank_prefix path && contains level_key body

-- The test on slot `i`: it waits with an older level of the same tank.
unfoldable pub coalesces : List ℕ → Patch → ℕ → Bool
coalesces path p i =
    is_queued (p.slots i)
    && is_patch request.method
    && same_text request.path path
    && contains level_key request.body
  where
    request : PatchRequest
    request = p.pool i

unfoldable pub coalesce_from : ℕ → ℕ → List ℕ → List ℕ → Patch → Patch × Bool
coalesce_from zero i path body p = (p, false)
coalesce_from (suc left) i path body p =
    let rest = coalesce_from left (suc i) path body p in
    if coalesces path p i
    then (record p { pool = put p.pool i (record old { body = take 255 body }) }, true)
    else rest
  where
    old : PatchRequest
    old = p.pool i

unfoldable pub coalesce_queued_tank_level : Bool → List ℕ → List ℕ → Patch → Patch × Bool
coalesce_queued_tank_level lock path body p =
    if lock then coalesce_from queue_length 0 path body p else (p, false)

unfoldable pub patch_slot_set : Bool → ℕ → SlotState → Patch → Patch
patch_slot_set lock idx state p =
    if lock && ltb idx queue_length then record p { slots = put p.slots idx state } else p

-- `xQueueSend` on `xPatchFreeQueue`, which drops what does not fit.
unfoldable pub give_back : ℕ → Patch → Patch
give_back idx p =
    if ltb (length p.free) queue_length then record p { free = p.free ++ idx ∷ [] } else p

-- Whether the mutex was taken each time.
pub record Locks : Type 0 where
  pub first : Bool
  pub second : Bool
  pub fill : Bool
  pub undo : Bool

-- From the slot on: the request is copied into it and queued.
unfoldable pub enqueue : Locks → PatchRequest → ℕ → Patch → Patch × Bool
enqueue locks request idx p =
    if ltb (length filled.queue) queue_length
    then (record filled { queue = filled.queue ++ idx ∷ [] }, true)
    else (give_back idx (patch_slot_set locks.undo idx slot_free filled), false)
  where
    filled : Patch
    filled = patch_slot_set locks.fill idx slot_queued (record p { pool = put p.pool idx request })

-- With the free slots that there are. A level that finds none is taken as done.
unfoldable pub take_slot : Locks → Bool → PatchRequest → List ℕ → Patch → Patch × Bool
take_slot locks level request [] p =
    if level
    then ((coalesce_queued_tank_level locks.second request.path request.body p).0, true)
    else (p, false)
take_slot locks level request (idx ∷ rest) p = enqueue locks request idx (record p { free = rest })

unfoldable pub queue_http_request : Locks → List ℕ → List ℕ → Method → Patch → Patch × Bool
queue_http_request locks path body method p =
    if leb path_size (length path) || leb body_size (length body)
    then (p, false)
    else if level && (coalesce_queued_tank_level locks.first path body p).1
    then ((coalesce_queued_tank_level locks.first path body p).0, true)
    else take_slot locks level request p.free p
  where
    level : Bool
    level = is_tank_level_patch path body method

    request : PatchRequest
    request = record { path = take 63 path; body = take 255 body; method = method }

unfoldable pub queue_patch_request : Locks → List ℕ → List ℕ → Patch → Patch × Bool
queue_patch_request locks path body p = queue_http_request locks path body http_patch p

-- `patch_task` takes a request when it has none.
unfoldable pub take_request : Bool → List ℕ → List ℕ → Patch → Patch
take_request lock (idx ∷ rest) [] p =
    patch_slot_set lock idx slot_processing (record p { queue = rest; in_hand = idx ∷ [] })
take_request lock queue in_hand p = p

unfoldable pub patch_task_take : Bool → Patch → Patch
patch_task_take lock p = take_request lock p.queue p.in_hand p

-- `patch_task` is done with a request: the server answered with a status from 200 to 299.
unfoldable pub release_slot : Bool → List ℕ → Patch → Patch
release_slot lock [] p = p
release_slot lock (idx ∷ rest) p =
    give_back idx (patch_slot_set lock idx slot_free (record p { in_hand = [] }))

unfoldable pub patch_task_done : Bool → Patch → Patch
patch_task_done lock p = release_slot lock p.in_hand p

-- The wait before the next attempt: `left` is how often the loop may double it.
unfoldable pub backoff_loop : ℕ → ℕ → ℕ
backoff_loop zero delay_ms = delay_ms
backoff_loop (suc left) delay_ms =
    let rest = backoff_loop left (min (delay_ms * 2) 30000) in
    if ltb delay_ms 30000 then rest else delay_ms

unfoldable pub patch_backoff_delay_ms : ℕ → ℕ → ℕ
patch_backoff_delay_ms random fail_count = backoff_loop (fail_count - 1) 2000 + random % 1000

-- `app_main` fills the queue of free slots with their indices, from `i` on.
unfoldable pub free_indices : ℕ → ℕ → List ℕ
free_indices zero i = []
free_indices (suc left) i = i ∷ free_indices left (suc i)

unfoldable pub patch_init : Patch
patch_init = record {
  pool = λ i. record { path = []; body = []; method = http_patch };
  slots = λ i. slot_free;
  free = free_indices queue_length 0;
  queue = [];
  in_hand = [];
}
