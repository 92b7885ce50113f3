-- ===== src/Gateway/Patch/Queue.antt =====
-- What the callers of the request queue can rely on: `queue_http_request` and the two ends of
-- `patch_task`, in any order.
use gtw_jalles_websoket_blue.Prelude.{
  ℕ, ◌<◌, ◌≡◌, ◌↔◌, refl, ap, ◌∙◌, Bool, true, false, ◌&&◌, ◌||◌, List, [], ◌∷◌, ◌++◌, length,
  length-append, take, ltb, leb, inl, inr, ◌⊎◌, Bool-cases, arith,
}
use gtw_jalles_websoket_blue.Gateway.Patch.{
  Patch, PatchRequest, Method, slot_free, slot_processing, is_tank_level_patch,
  coalesce_queued_tank_level, patch_slot_set, give_back, Locks, take_slot, queue_http_request,
  take_request, patch_task_take, release_slot, patch_task_done,
}
use gtw_jalles_websoket_blue.Gateway.Patch.Slots.{
  count, count-append, IsPool, SamePlaces-IsPool, patch_slot_set-SamePlaces, coalesce-SamePlaces,
  enqueue-IsPool,
}

take_slot-IsPool :
    (locks : Locks) (level : Bool) (request : PatchRequest) (free : List ℕ) (p : Patch)
    → p.free ≡ free
    → IsPool p
    → IsPool (take_slot locks level request free p).0
unfolding take_slot
take_slot-IsPool locks true request [] p e v =
    SamePlaces-IsPool p _ (coalesce-SamePlaces locks.second request.path request.body p) v
take_slot-IsPool locks false request [] p e v = v
take_slot-IsPool locks level request (idx ∷ rest) p e v =
    (enqueue-IsPool locks request idx rest p e v).1

take_slot_iff :
    (locks : Locks) (level : Bool) (request : PatchRequest) (free : List ℕ) (p : Patch)
    → p.free ≡ free
    → IsPool p
    → ((take_slot locks level request free p).1 ≡ true) ↔ ((level ≡ true) ⊎ (0 < length free))
unfolding take_slot
take_slot_iff locks true request [] p e v = (λ h. inl refl, λ h. refl)
take_slot_iff locks false request [] p e v = (λ h. cc, λ h. ground arith)
take_slot_iff locks level request (idx ∷ rest) p e v =
    (λ h. inr (omega arith), λ h. (enqueue-IsPool locks request idx rest p e v).0)

queue_http_request-IsPool :
    (locks : Locks) (path body : List ℕ) (method : Method) (p : Patch)
    → IsPool p
    → IsPool (queue_http_request locks path body method p).0
unfolding queue_http_request
queue_http_request-IsPool locks path body method p v =
    elim (Bool-cases (leb 64 (length path) || leb 256 (length body))) [
      | inl long ↦ simp long v
      | inr fits ↦
          elim (Bool-cases (
            is_tank_level_patch path body method
            && (coalesce_queued_tank_level locks.first path body p).1)) [
              | inl merged ↦
                  simp (fits, merged)
                    (SamePlaces-IsPool p _ (coalesce-SamePlaces locks.first path body p) v)
              | inr apart ↦ simp (fits, apart) (take_slot-IsPool locks _ _ p.free p refl v)
            ]
    ]

and_left : (a b : Bool) → (a && b) ≡ true → a ≡ true
and_left true b h = refl
and_left false b h = h

short_texts : (a b : ℕ) → (leb 64 a || leb 256 b) ≡ false → (a < 64) × (b < 256)
short_texts a b h = (ground arith, ground arith)

long_texts : (a b : ℕ) → (leb 64 a || leb 256 b) ≡ true → a < 64 → b < 256 → ⊥
long_texts a b h p q = ground arith

-- While the pool is whole, `queue_http_request` accepts a request exactly when its texts fit and a
-- slot is free or it is the level of a tank; the send to the queue of requests never fails, whatever
-- becomes of the mutex.
pub queue_http_request_iff :
    (locks : Locks) (path body : List ℕ) (method : Method) (p : Patch)
    → IsPool p
    → ((queue_http_request locks path body method p).1 ≡ true) ↔ (
        (length path < 64)
        × (length body < 256)
        × ((is_tank_level_patch path body method ≡ true) ⊎ (0 < length p.free)))
unfolding queue_http_request
queue_http_request_iff locks path body method p v =
    elim (Bool-cases (leb 64 (length path) || leb 256 (length body))) [
      | inl long ↦
          simp long (λ h. cc, λ (a, b, c). absurd (long_texts (length path) (length body) long a b))
      | inr fits ↦
          let (short_path, short_body) = short_texts (length path) (length body) fits in
          elim (Bool-cases (
            is_tank_level_patch path body method
            && (coalesce_queued_tank_level locks.first path body p).1)) [
              | inl merged ↦
                  simp (fits, merged)
                    (λ h. (short_path, short_body, inl (and_left _ _ merged)), λ h. refl)
              | inr apart ↦
                  let slot =
                    take_slot_iff locks (is_tank_level_patch path body method)
                      (record { path = take 63 path; body = take 255 body; method = method }) p.free
                      p refl v in
                  simp (fits, apart)
                    (λ h. (short_path, short_body, slot.0 h), λ (a, b, c). slot.1 c)
            ]
    ]

take_request-IsPool :
    (lock : Bool) (queue in_hand : List ℕ) (p : Patch)
    → p.queue ≡ queue
    → p.in_hand ≡ in_hand
    → IsPool p
    → IsPool (take_request lock queue in_hand p)
unfolding take_request count
take_request-IsPool lock [] in_hand p e f v = v
take_request-IsPool lock (idx ∷ rest) (j ∷ more) p e f v = v
take_request-IsPool lock (idx ∷ rest) [] p e f v =
    SamePlaces-IsPool (record p { queue = rest; in_hand = idx ∷ [] }) _
      (patch_slot_set-SamePlaces lock idx slot_processing
        (record p { queue = rest; in_hand = idx ∷ [] }))
      (record {
        total = omega (arith, v.total, ap length e, ap length f);
        single = omega arith;
        once = λ i. omega (arith, v.once i, ap (count i) e, ap (count i) f);
      })

give_back_lem :
    (idx : ℕ) (p : Patch)
    → length p.free < 64
    → ((give_back idx p).free ≡ p.free ++ idx ∷ [])
      × ((give_back idx p).queue ≡ p.queue)
      × ((give_back idx p).in_hand ≡ p.in_hand)
unfolding give_back
give_back_lem idx p room =
    let fits : ltb (length p.free) 64 ≡ true = ground arith in simp fits (refl, refl, refl)

release_slot-IsPool :
    (lock : Bool) (in_hand : List ℕ) (p : Patch)
    → p.in_hand ≡ in_hand
    → IsPool p
    → IsPool (release_slot lock in_hand p)
unfolding release_slot count
release_slot-IsPool lock [] p e v = v
release_slot-IsPool lock (idx ∷ j ∷ more) p e v = absurd (omega (arith, v.single, ap length e))
release_slot-IsPool lock (idx ∷ []) p e v =
    let q : Patch = patch_slot_set lock idx slot_free (record p { in_hand = [] }) in
    let (f, u, h) = patch_slot_set-SamePlaces lock idx slot_free (record p { in_hand = [] }) in
    let (f', u', h') = give_back_lem idx q (omega (arith, ap length f, v.total, ap length e)) in
    record {
      total = omega (
        arith,
        v.total,
        ap length e,
        ap length f,
        ap length f',
        length-append q.free (idx ∷ []),
        ap length (u' ∙ u),
        ap length (h' ∙ h),
      );
      single = omega (arith, ap length (h' ∙ h));
      once = λ i. omega (
        arith,
        v.once i,
        ap (count i) e,
        ap (count i) f,
        ap (count i) f',
        count-append i q.free (idx ∷ []),
        ap (count i) (u' ∙ u),
        ap (count i) (h' ∙ h),
      );
    }

-- What can happen to the queue: a request, or the two ends of the work of `patch_task`.
pub data Event : Type 0 where
  request : Locks → List ℕ → List ℕ → Method → Event
  taken : Bool → Event
  finished : Bool → Event

unfoldable pub happen : Event → Patch → Patch
happen (request locks path body method) p = (queue_http_request locks path body method p).0
happen (taken lock) p = patch_task_take lock p
happen (finished lock) p = patch_task_done lock p

unfoldable pub happen_all : List Event → Patch → Patch
happen_all [] p = p
happen_all (e ∷ events) p = happen_all events (happen e p)

happen-IsPool : (e : Event) (p : Patch) → IsPool p → IsPool (happen e p)
unfolding happen patch_task_take patch_task_done
happen-IsPool (request locks path body method) p v =
    queue_http_request-IsPool locks path body method p v
happen-IsPool (taken lock) p v = take_request-IsPool lock p.queue p.in_hand p refl refl v
happen-IsPool (finished lock) p v = release_slot-IsPool lock p.in_hand p refl v

-- Through any sequence of requests and of work of `patch_task`, whatever becomes of the mutex, no slot
-- is lost and none is in two places: each of the 64 is free, queued or in the hands of `patch_task`,
-- exactly once.
pub happen_all-IsPool : (events : List Event) (p : Patch) → IsPool p → IsPool (happen_all events p)
unfolding happen_all
happen_all-IsPool [] p v = v
happen_all-IsPool (e ∷ events) p v = happen_all-IsPool events (happen e p) (happen-IsPool e p v)
