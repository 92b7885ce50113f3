-- ===== src/Gateway/Patch/Slots.antt =====
-- The slots of the request queue: none is lost and none is in two places.
use gtw_jalles_websoket_blue.Prelude.{
  ℕ, zero, suc, ◌+◌, ◌≤◌, ◌<◌, ◌≡◌, refl, ap, Bool, true, false, ◌&&◌, List, [], ◌∷◌, ◌++◌, length,
  length-append, ltb, leb, ◌==◌, if◌then◌else◌, inl, inr, Bool-cases, arith,
}
use gtw_jalles_websoket_blue.Gateway.Patch.{
  Patch, PatchRequest, SlotState, slot_queued, put, free_indices, patch_init, coalesces,
  coalesce_from, coalesce_queued_tank_level, patch_slot_set, Locks, enqueue, free_indices,
  patch_init,
}

-- How often a slot is in a list.
unfoldable pub count : ℕ → List ℕ → ℕ
count i [] = 0
count i (j ∷ js) = (if i == j then 1 else 0) + count i js

pub count-append : (i : ℕ) (xs ys : List ℕ) → count i (xs ++ ys) ≡ count i xs + count i ys
unfolding count
count-append i [] ys = omega arith
count-append i (x ∷ xs) ys = omega (arith, count-append i xs ys)

-- The 64 slots: each is free, queued or in the hands of `patch_task`, and in one place only.
pub record IsPool (p : Patch) : Type 0 where
  pub total : length p.free + length p.queue + length p.in_hand ≡ 64
  pub single : length p.in_hand ≤ 1
  pub once :
      (i : ℕ) → count i p.free + count i p.queue + count i p.in_hand ≡ (if ltb i 64 then 1 else 0)

-- The two queues and the slot in hand are the same.
abbrev pub SamePlaces : Patch → Patch → Type 0
SamePlaces p q = (q.free ≡ p.free) × (q.queue ≡ p.queue) × (q.in_hand ≡ p.in_hand)

pub SamePlaces-IsPool : (p q : Patch) → SamePlaces p q → IsPool p → IsPool q
SamePlaces-IsPool p q (f, u, h) v = record {
  total = omega (arith, ap length f, ap length u, ap length h, v.total);
  single = omega (arith, ap length h, v.single);
  once = λ i. omega (arith, ap (count i) f, ap (count i) u, ap (count i) h, v.once i);
}

pub patch_slot_set-SamePlaces :
    (lock : Bool) (idx : ℕ) (state : SlotState) (p : Patch)
    → SamePlaces p (patch_slot_set lock idx state p)
unfolding patch_slot_set
patch_slot_set-SamePlaces lock idx state p = elim (Bool-cases (lock && ltb idx 64)) [
  | inl set ↦ simp set (refl, refl, refl)
  | inr left ↦ simp left (refl, refl, refl)
]

coalesce_from-SamePlaces :
    (left i : ℕ) (path body : List ℕ) (p : Patch)
    → SamePlaces p (coalesce_from left i path body p).0
unfolding coalesce_from
coalesce_from-SamePlaces zero i path body p = (refl, refl, refl)
coalesce_from-SamePlaces (suc left) i path body p = elim (Bool-cases (coalesces path p i)) [
  | inl here ↦ simp here (refl, refl, refl)
  | inr elsewhere ↦ simp elsewhere (coalesce_from-SamePlaces left (suc i) path body p)
]

pub coalesce-SamePlaces :
    (lock : Bool) (path body : List ℕ) (p : Patch)
    → SamePlaces p (coalesce_queued_tank_level lock path body p).0
unfolding coalesce_queued_tank_level
coalesce-SamePlaces true path body p = coalesce_from-SamePlaces 64 0 path body p
coalesce-SamePlaces false path body p = (refl, refl, refl)

-- A free slot goes to the queue, which has room for it.
enqueue_lem :
    (locks : Locks) (request : PatchRequest) (idx : ℕ) (p : Patch)
    → length p.queue < 64
    → ((enqueue locks request idx p).1 ≡ true)
      × ((enqueue locks request idx p).0.free ≡ p.free)
      × ((enqueue locks request idx p).0.queue ≡ p.queue ++ idx ∷ [])
      × ((enqueue locks request idx p).0.in_hand ≡ p.in_hand)
unfolding enqueue
enqueue_lem locks request idx p room =
    let filled : Patch =
      patch_slot_set locks.fill idx slot_queued (record p { pool = put p.pool idx request }) in
    let (f, u, h) =
      patch_slot_set-SamePlaces locks.fill idx slot_queued
        (record p { pool = put p.pool idx request }) in
    let fits : ltb (length filled.queue) 64 ≡ true = ground (arith, ap length u) in
    simp fits (refl, f, ap (λ t. t ++ idx ∷ []) u, h)

pub enqueue-IsPool :
    (locks : Locks) (request : PatchRequest) (idx : ℕ) (rest : List ℕ) (p : Patch)
    → p.free ≡ idx ∷ rest
    → IsPool p
    → ((enqueue locks request idx (record p { free = rest })).1 ≡ true)
      × IsPool (enqueue locks request idx (record p { free = rest })).0
unfolding count
enqueue-IsPool locks request idx rest p taken v =
    let (done, f, u, h) =
      enqueue_lem locks request idx (record p { free = rest })
        (omega (arith, v.total, ap length taken)) in
    (
      done,
      record {
        total = omega (
          arith,
          ap length f,
          ap length u,
          ap length h,
          v.total,
          ap length taken,
          length-append p.queue (idx ∷ []),
        );
        single = omega (arith, ap length h, v.single);
        once = λ i. omega (
          arith,
          ap (count i) f,
          ap (count i) u,
          ap (count i) h,
          v.once i,
          ap (count i) taken,
          count-append i p.queue (idx ∷ []),
        );
      },
    )

count-free_indices :
    (left k i : ℕ) → count i (free_indices left k) ≡ (if leb k i && ltb i (k + left) then 1 else 0)
unfolding count free_indices
count-free_indices zero k i = ground arith
count-free_indices (suc left) k i = ground (arith, count-free_indices left (suc k) i)

-- The pool is whole at the start.
pub patch_init-IsPool : IsPool patch_init
unfolding patch_init
patch_init-IsPool = record {
  total = unfold free_indices in refl;
  single = omega arith;
  once = λ i. unfold count in ground (arith, count-free_indices 64 0 i);
}
