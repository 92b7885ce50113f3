-- ===== src/Command/Orders.antt =====
-- What the tests of `handle_bomba_control` let through, and that its text fits.
use gtw_jalles_websoket_blue.Prelude.{
  ℕ, zero, suc, ◌+◌, ◌^◌, ◌∙◌, ◌≤◌, ◌<◌, ◌≡◌, refl, sym, subst, Bool, true, false, not, ◌&&◌, ◌||◌,
  Option, none, some, List, [], ◌∷◌, ◌++◌, ℤ, pos, negsuc, length, length-append, if◌then◌else◌,
  inl, inr, ◌⊎◌, Bool-cases, arith,
}
use gtw_jalles_websoket_blue.Text.{print_number_short}
use gtw_jalles_websoket_blue.Config.{same_int}
use gtw_jalles_websoket_blue.Command.Fields.{
  Double, whole, between, not_finite, Item, null_item, other_item, boolean, number, bomba_id,
  comando, status_bomba, gtw_id, tanque_id, vazao, DataObject, CommandField, at_most, from_zero,
  valid_id, valid_gtw, valid_status, valid_flow, is_boolean, is_true, is_given, int_of, Order,
  valid_order, order_of, bomba_order, print_int, control_key, execute_key, flow_text, order_text,
}

-- The item is the whole number `n`, for cJSON's `valuedouble` and its `valueint` alike.
abbrev pub Is : Option Item → ℕ → Type 0
Is item n = item ≡ some (number (whole (pos n)) (pos n))

-- The item is a number of 0 to 100.
pub record IsFlow (item : Option Item) : Type 0 where
  pub value :
      (v : Double) × (n : ℤ) × (item ≡ some (number v n))
      × (from_zero v ≡ true)
      × (at_most 100 v ≡ true)

-- What an order comes from.
pub record IsOrder (device_id : ℕ) (d : DataObject) (o : Order) : Type 0 where
  pub pump : (n : ℕ) × Is (d.field bomba_id) n × (0 < n) × (n ≤ 65535) × (o.pump ≡ pos n)
  pub tank : (n : ℕ) × Is (d.field tanque_id) n × (0 < n) × (n ≤ 65535) × (o.tank ≡ pos n)
  pub gateway : Is (d.field gtw_id) device_id
  pub status :
      (m : ℕ) × (n : ℤ) × (d.field status_bomba ≡ some (number (whole (pos m)) n))
      × (m ≤ 1)
      × (o.status ≡ n)
  pub execute : d.field comando ≡ some (boolean o.execute)
  pub flow :
      (IsFlow (d.field vazao) × (o.flow ≡ d.field vazao))
      ⊎ ((o.flow ≡ none) × (o.execute ≡ true) × (is_given (d.field vazao) ≡ false))

-- What cJSON documents of a number: `valueint` is `valuedouble`, where that is a whole number of an `int`.
pub record IsParsed (d : DataObject) : Type 0 where
  pub whole_int :
      (f : CommandField) (m : ℕ) (n : ℤ)
      → d.field f ≡ some (number (whole (pos m)) n)
      → m < 2 ^ 31
      → n ≡ pos m

valid_id_lem :
    (item : Option Item)
    → valid_id item ≡ true
    → (n : ℕ) × Is item n × (0 < n) × (n ≤ 65535) × (int_of item ≡ pos n)
unfolding valid_id
valid_id_lem (some (number (whole (pos n)) (pos m))) h =
    let same : n ≡ m = ground arith in (n, rw same refl, ground arith, ground arith, rw same refl)
valid_id_lem (some (number (whole (pos n)) (negsuc m))) h = absurd (ground arith)
valid_id_lem (some (number (whole (negsuc n)) m)) h = absurd (ground arith)
valid_id_lem (some (number (between (pos n)) m)) h = absurd (ground arith)
valid_id_lem (some (number (between (negsuc n)) m)) h = absurd (ground arith)
valid_id_lem (some (number not_finite m)) h = absurd (ground arith)
valid_id_lem (some null_item) h = absurd (ground arith)
valid_id_lem (some other_item) h = absurd (ground arith)
valid_id_lem (some (boolean b)) h = absurd (ground arith)
valid_id_lem none h = absurd (ground arith)

valid_gtw_lem :
    (item : Option Item) (device_id : ℕ)
    → valid_gtw item ≡ true
    → same_int (int_of item) (pos device_id) ≡ true
    → Is item device_id
unfolding valid_gtw
valid_gtw_lem (some (number (whole (pos n)) (pos m))) device_id h us =
    let same : n ≡ device_id = ground arith in
    let int : m ≡ device_id = ground arith in rw (same, int) refl
valid_gtw_lem (some (number (whole (pos n)) (negsuc m))) device_id h us = absurd (ground arith)
valid_gtw_lem (some (number (whole (negsuc n)) m)) device_id h us = absurd (ground arith)
valid_gtw_lem (some (number (between (pos n)) m)) device_id h us = absurd (ground arith)
valid_gtw_lem (some (number (between (negsuc n)) m)) device_id h us = absurd (ground arith)
valid_gtw_lem (some (number not_finite m)) device_id h us = absurd (ground arith)
valid_gtw_lem (some null_item) device_id h us = absurd (ground arith)
valid_gtw_lem (some other_item) device_id h us = absurd (ground arith)
valid_gtw_lem (some (boolean b)) device_id h us = absurd (ground arith)
valid_gtw_lem none device_id h us = absurd (ground arith)

valid_flow_lem : (item : Option Item) → valid_flow item ≡ true → IsFlow item
unfolding valid_flow
valid_flow_lem (some (number v n)) h = record { value = (v, n, refl, ground arith, ground arith) }
valid_flow_lem (some null_item) h = absurd (ground arith)
valid_flow_lem (some other_item) h = absurd (ground arith)
valid_flow_lem (some (boolean b)) h = absurd (ground arith)
valid_flow_lem none h = absurd (ground arith)

valid_status_lem :
    (item : Option Item)
    → valid_status item ≡ true
    → (m : ℕ) × (n : ℤ) × (item ≡ some (number (whole (pos m)) n)) × (m ≤ 1) × (int_of item ≡ n)
unfolding valid_status
valid_status_lem (some (number (whole (pos m)) n)) h = (m, n, refl, ground arith, refl)
valid_status_lem (some (number (whole (negsuc m)) n)) h = absurd (ground arith)
valid_status_lem (some (number (between z) n)) h = absurd (ground arith)
valid_status_lem (some (number not_finite n)) h = absurd (ground arith)
valid_status_lem (some null_item) h = absurd (ground arith)
valid_status_lem (some other_item) h = absurd (ground arith)
valid_status_lem (some (boolean b)) h = absurd (ground arith)
valid_status_lem none h = absurd (ground arith)

boolean_lem : (item : Option Item) → is_boolean item ≡ true → item ≡ some (boolean (is_true item))
boolean_lem (some (boolean b)) h = refl
boolean_lem (some (number v n)) h = cc
boolean_lem (some null_item) h = cc
boolean_lem (some other_item) h = cc
boolean_lem none h = cc

order_rate :
    (item : Option Item) (execute : Bool)
    → (not (is_given item) || valid_flow item) ≡ true
    → (execute || valid_flow item) ≡ true
    → (IsFlow item × ((if valid_flow item then item else none) ≡ item))
      ⊎ (((if valid_flow item then item else none) ≡ none)
          × (execute ≡ true)
          × (is_given item ≡ false))
order_rate item execute given enough = elim (Bool-cases (valid_flow item)) [
  | inl flows ↦ inl (valid_flow_lem item flows, simp flows refl)
  | inr flows ↦ inr (simp flows refl, ground arith, ground arith)
]

some_order :
    (b c : Bool) (x o : Order)
    → (if b then none else (if c then none else some x)) ≡ some o
    → (b ≡ false) × (c ≡ false) × (x ≡ o)
some_order true c x o h = cc
some_order false true x o h = cc
some_order false false x o h = (refl, refl, cc)

-- The seven tests.
valid_order_lem :
    (d : DataObject)
    → valid_order d ≡ true
    → (valid_id (d.field bomba_id) ≡ true)
      × (valid_id (d.field tanque_id) ≡ true)
      × (valid_gtw (d.field gtw_id) ≡ true)
      × (is_boolean (d.field comando) ≡ true)
      × (valid_status (d.field status_bomba) ≡ true)
      × ((not (is_given (d.field vazao)) || valid_flow (d.field vazao)) ≡ true)
      × ((is_true (d.field comando) || valid_flow (d.field vazao)) ≡ true)
unfolding valid_order
valid_order_lem d h =
    all_seven (valid_id (d.field bomba_id)) (valid_id (d.field tanque_id))
      (valid_gtw (d.field gtw_id)) (is_boolean (d.field comando))
      (valid_status (d.field status_bomba))
      (not (is_given (d.field vazao)) || valid_flow (d.field vazao))
      (is_true (d.field comando) || valid_flow (d.field vazao)) h
  where
    all_seven :
        (a b c e f g i : Bool)
        → (a && b && c && e && f && g && i) ≡ true
        → (a ≡ true) × (b ≡ true) × (c ≡ true) × (e ≡ true) × (f ≡ true) × (g ≡ true) × (i ≡ true)
    all_seven a b c e f g i h = ground arith

order_of-IsOrder :
    (device_id : ℕ) (d : DataObject)
    → valid_order d ≡ true
    → same_int (int_of (d.field gtw_id)) (pos device_id) ≡ true
    → IsOrder device_id d (order_of d)
unfolding order_of
order_of-IsOrder device_id d valid ours =
    let (pump, tank, gateway, boolean_comando, status, given, enough) = valid_order_lem d valid in
    record {
      pump = valid_id_lem (d.field bomba_id) pump;
      tank = valid_id_lem (d.field tanque_id) tank;
      gateway = valid_gtw_lem (d.field gtw_id) device_id gateway ours;
      status = valid_status_lem (d.field status_bomba) status;
      execute = boolean_lem (d.field comando) boolean_comando;
      flow = order_rate (d.field vazao) (is_true (d.field comando)) given enough;
    }

pub bomba_order_lem :
    (device_id : ℕ) (d : DataObject) (o : Order)
    → bomba_order device_id d ≡ some o
    → IsOrder device_id d o
unfolding bomba_order valid_order
bomba_order_lem device_id d o h =
    let (valid, ours, same) =
      some_order (not (valid_order d)) (not (same_int (int_of (d.field gtw_id)) (pos device_id)))
        (order_of d) o h in
    subst (IsOrder device_id d) same (order_of-IsOrder device_id d (ground arith) (ground arith))

-- If cJSON gives a whole number of an `int` the same `valueint` as `valuedouble`: a command becomes an
-- order only if its pump and its tank are whole numbers of 1 to 65535, which the order has, its gateway is
-- this one, its status is 0 or 1, which the order has, its "comando" is a boolean, and its flow is a
-- number of 0 to 100, or absent or null in a command to be executed.
pub bomba_order-IsOrder :
    (device_id : ℕ) (d : DataObject) (o : Order)
    → IsParsed d
    → bomba_order device_id d ≡ some o
    → IsOrder device_id d o × ((o.status ≡ pos 0) ⊎ (o.status ≡ pos 1))
bomba_order-IsOrder device_id d o parsed h =
    let order = bomba_order_lem device_id d o h in
    let (m, n, item, small, has) = order.status in
    let same = parsed.whole_int status_bomba m n item (omega arith) in
    (order, zero_or_one m o.status small (has ∙ same))
  where
    zero_or_one : (m : ℕ) (z : ℤ) → m ≤ 1 → z ≡ pos m → (z ≡ pos 0) ⊎ (z ≡ pos 1)
    zero_or_one zero z small e = inl e
    zero_or_one (suc zero) z small e = inr e
    zero_or_one (suc (suc m)) z small e = absurd (ground arith)

print_int_short : (z : ℤ) (text : List ℕ) → length (print_int z text) ≤ 11 + length text
unfolding print_int
print_int_short (pos n) text = omega (arith, print_number_short 10 n text)
print_int_short (negsuc n) text = omega (arith, print_number_short 10 (suc n) text)

flow_text_short :
    (print : Double → List ℕ) (item : Option Item) (text : List ℕ)
    → ((v : Double) → from_zero v ≡ true → at_most 100 v ≡ true → length (print v) ≤ 6)
    → (IsFlow item ⊎ (item ≡ none))
    → length (flow_text print item text) ≤ 11 + length text
flow_text_short print item text short (inr nothing) = rw nothing (omega arith)
flow_text_short print item text short (inl flows) =
    let (v, n, e, low, high) = flows.value in
    rw e (omega (arith, length-append (print v) text, short v low high))

-- The text for the tank always fits its 64 bytes, if `%.2f` prints at most six characters of a number of
-- 0 to 100, as in 100.00.
pub order_text_fits :
    (print : Double → List ℕ) (device_id : ℕ) (d : DataObject) (o : Order)
    → ((v : Double) → from_zero v ≡ true → at_most 100 v ≡ true → length (print v) ≤ 6)
    → bomba_order device_id d ≡ some o
    → length (order_text print o) < 64
unfolding order_text
order_text_fits print device_id d o short h =
    let end : List ℕ = execute_key ++ (if o.execute then 49 else 48) ∷ 125 ∷ [] in
    let control : List ℕ = control_key ++ print_int o.control end in
    let flows : IsFlow o.flow ⊎ (o.flow ≡ none) = elim (bomba_order_lem device_id d o h).flow [
      | inl x ↦ inl (subst IsFlow (sym x.1) x.0)
      | inr x ↦ inr x.0
    ] in
    omega (
      arith,
      print_int_short o.status (flow_text print o.flow control),
      flow_text_short print o.flow control short flows,
      print_int_short o.control end,
    )
