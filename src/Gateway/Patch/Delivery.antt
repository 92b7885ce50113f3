-- ===== src/Gateway/Patch/Delivery.antt =====
-- The loop of `patch_task` in main/main.c that sends one request until the server takes it. An attempt is
-- one pass of the loop; delays and logs are left out.
use gtw_jalles_websoket_blue.Prelude.{
  ℕ, ◌+◌, ◌%◌, ◌^◌, ◌≤◌, ◌<◌, ◌≡◌, ◌↔◌, refl, ap, ◌∙◌, inl, inr, ℤ, pos, negsuc, Bool, true, false,
  not, ◌&&◌, ◌||◌, some, List, [], ◌∷◌, All, leb, ltb, if◌then◌else◌, if-elim, Bool-cases, arith,
}
use gtw_jalles_websoket_blue.Wifi.Monitor.{Networks, Attempt, Round, wifi_task}
use gtw_jalles_websoket_blue.Wifi.Monitor.Offline.{HasNoSocket, wifi_task_offline}
use gtw_jalles_websoket_blue.Http.{Http, Reply, server_request}

-- `Connectado` is 1, `MutexHTTP` was taken in time, and what the server does.
pub record Pass : Type 0 where
  pub online : Bool
  pub mutex : Bool
  pub server : List ℕ → List ℕ → Reply

-- `mutex_fail_count` and `http_fail_total`; `done`: the loop has ended; `restarted`: it asked for a restart.
pub record Delivery : Type 0 where
  pub http : Http
  pub mutex_fail_count : ℕ
  pub http_fail_total : ℕ
  pub done : Bool
  pub restarted : Bool

abbrev pub is_success : ℤ → Bool
is_success (pos n) = leb 200 n && ltb n 300
is_success (negsuc n) = false

-- A pass with the mutex: the request is sent.
unfoldable pub send_once : List ℕ → List ℕ → Pass → Delivery → Delivery
send_once route path p d =
    if is_success answer.1
    then record d { http = answer.0; mutex_fail_count = 0; http_fail_total = 0; done = true }
    else record d {
      http = answer.0;
      mutex_fail_count = 0;
      http_fail_total = (d.http_fail_total + 1) % 2 ^ 32;
    }
  where
    answer : Http × ℤ
    answer = server_request route p.server (some path) d.http

-- A pass in which the mutex was not taken; the fifth in a row restarts the gateway.
unfoldable pub wait_mutex : Delivery → Delivery
wait_mutex d =
    let fails = (d.mutex_fail_count + 1) % 2 ^ 32 in
    record d { mutex_fail_count = fails; restarted = leb 5 fails }

unfoldable pub delivery_pass : List ℕ → List ℕ → Pass → Delivery → Delivery
delivery_pass route path p d =
    if not (p.online && d.http.token_ok)
    then d
    else if p.mutex
    then send_once route path p d
    else wait_mutex d

unfoldable pub deliver : List ℕ → List ℕ → List Pass → Delivery → Delivery
deliver route path [] d = d
deliver route path (p ∷ passes) d =
    let rest = deliver route path passes (delivery_pass route path p d) in
    if d.done || d.restarted then d else rest

-- The pass finds the gateway online with a valid token, takes the mutex, and the
-- server answers with a status from 200 to 299.
abbrev pub IsTaken : List ℕ → List ℕ → Pass → Delivery → Type 0
IsTaken route path p d =
    (p.online ≡ true)
    × (d.http.token_ok ≡ true)
    × (p.mutex ≡ true)
    × ((status : ℕ) × ((server_request route p.server (some path) d.http).1 ≡ pos status)
        × (200 ≤ status)
        × (status < 300))

pos_injective : {m n : ℕ} → pos m ≡ pos n → m ≡ n
pos_injective e = cc

is_success_iff :
    (z : ℤ)
    → (is_success z ≡ true) ↔ ((status : ℕ) × (z ≡ pos status) × (200 ≤ status) × (status < 300))
is_success_iff (pos n) = (
  λ h. (n, refl, ground arith, ground arith),
  λ (m, e, low, high). let same : n ≡ m = pos_injective e in ground arith,
)
is_success_iff (negsuc n) = (λ h. absurd (ground arith), λ (m, e, low, high). absurd (ground arith))

delivery_pass_iff :
    (route path : List ℕ) (p : Pass) (d : Delivery)
    → d.done ≡ false
    → ((delivery_pass route path p d).done ≡ true) ↔ IsTaken route path p d
unfolding delivery_pass send_once wait_mutex
delivery_pass_iff route path p d fresh = elim (Bool-cases (not (p.online && d.http.token_ok))) [
  | inl waits ↦
      simp waits
        (λ e. absurd (ground arith), λ t. let on = t.0 in let token = t.1 in absurd (ground arith))
  | inr goes ↦ elim (Bool-cases p.mutex) [
    | inr busy ↦ simp (goes, busy) (λ e. absurd (ground arith), λ t. let taken = t.2 in cc)
    | inl taken ↦
        elim (Bool-cases (is_success (server_request route p.server (some path) d.http).1)) [
          | inl good ↦
              simp (goes, taken, good)
                (λ e. (ground arith, ground arith, refl, (is_success_iff _).0 good), λ t. refl)
          | inr bad ↦
              simp (goes, taken, bad)
                (λ e. absurd (ground arith), λ t. let good = (is_success_iff _).1 (t.3) in cc)
        ]
  ]
]

-- Some pass is reached and takes the request.
pub data SomeTaken (route path : List ℕ) : List Pass → Delivery → Type 0 where
  now :
      {p : Pass} {passes : List Pass} {d : Delivery}
      → d.restarted ≡ false
      → IsTaken route path p d
      → SomeTaken route path (p ∷ passes) d
  later :
      {p : Pass} {passes : List Pass} {d : Delivery}
      → d.restarted ≡ false
      → SomeTaken route path passes (delivery_pass route path p d)
      → SomeTaken route path (p ∷ passes) d

finished-done :
    (route path : List ℕ) (passes : List Pass) (d : Delivery)
    → d.done ≡ true
    → deliver route path passes d ≡ d
unfolding deliver
finished-done route path [] d over = refl
finished-done route path (p ∷ passes) d over = simp over refl

deliver_taken :
    (route path : List ℕ) (passes : List Pass) (d : Delivery)
    → d.done ≡ false
    → SomeTaken route path passes d
    → (deliver route path passes d).done ≡ true
unfolding deliver
deliver_taken route path [] d fresh none_taken = elim none_taken [ ]
deliver_taken route path (p ∷ rest) d fresh (now runs taken) =
    let over = (delivery_pass_iff route path p d fresh).1 taken in
    simp (fresh, runs)
      (ap (λ (x : Delivery). x.done)
          (finished-done route path rest (delivery_pass route path p d) over)
        ∙ over)
deliver_taken route path (p ∷ rest) d fresh (later runs some_taken) =
    elim (Bool-cases (delivery_pass route path p d).done) [
      | inl over ↦
          simp (fresh, runs)
            (ap (λ (x : Delivery). x.done)
                (finished-done route path rest (delivery_pass route path p d) over)
              ∙ over)
      | inr goes_on ↦
          simp (fresh, runs)
            (deliver_taken route path rest (delivery_pass route path p d) goes_on some_taken)
    ]

taken_deliver :
    (route path : List ℕ) (passes : List Pass) (d : Delivery)
    → d.done ≡ false
    → (deliver route path passes d).done ≡ true
    → SomeTaken route path passes d
unfolding deliver
taken_deliver route path [] d fresh over = absurd (ground arith)
taken_deliver route path (p ∷ passes) d fresh over = elim (Bool-cases d.restarted) [
  | inl gone ↦ absurd (let same = simp (fresh, gone) at over in ground arith)
  | inr runs ↦ elim (Bool-cases (delivery_pass route path p d).done) [
    | inl ends ↦ now runs ((delivery_pass_iff route path p d fresh).0 ends)
    | inr goes_on ↦ later runs (
        taken_deliver route path passes (delivery_pass route path p d) goes_on
          (simp (fresh, runs) at over))
  ]
]

-- The loop of `patch_task` ends for a request exactly when one of its passes, reached without a restart,
-- finds the gateway online with a valid token, takes the mutex, and the server answers the request with a
-- status from 200 to 299.
pub deliver_iff :
    (route path : List ℕ) (passes : List Pass) (d : Delivery)
    → d.done ≡ false
    → ((deliver route path passes d).done ≡ true) ↔ SomeTaken route path passes d
deliver_iff route path passes d fresh =
    (taken_deliver route path passes d fresh, deliver_taken route path passes d fresh)

-- A pass of the build without a WebSocket: `Connectado` is what rounds of `wifi_task` left.
abbrev pub IsOffline : Networks → Attempt → Pass → Type 0
IsOffline n a p =
    (rounds : List Round) × All HasNoSocket rounds × (p.online ≡ (wifi_task n a rounds).connectado)

-- In the build that receives from the radio, where `wifi_task` runs without a WebSocket and nothing else
-- sets `Connectado` to 1, `patch_task` sends nothing: any number of passes leave everything as it was.
pub deliver_offline :
    (n : Networks) (a : Attempt) (route path : List ℕ) (passes : List Pass) (d : Delivery)
    → All (IsOffline n a) passes
    → deliver route path passes d ≡ d
unfolding deliver delivery_pass
deliver_offline n a route path [] d all = refl
deliver_offline n a route path (p ∷ passes) d all =
    let (rounds, sockets, online) = all.0 in
    let offline : p.online ≡ false = online ∙ wifi_task_offline n a rounds sockets in
    let rest = deliver_offline n a route path passes d (all.1) in
    simp offline
      (if-elim (λ (x : Delivery). x ≡ d) (d.done || d.restarted) (λ over. refl) (λ runs. rest))
