-- ===== src/Command/Fields.antt =====
-- The fields of a command in main/main.c: what `handle_bomba_control` tests of them and takes from them,
-- and the text for the tank.
use gtw_jalles_websoket_blue.Prelude.{
  ℕ, suc, Bool, true, false, not, ◌&&◌, ◌||◌, Option, none, some, List, [], ◌∷◌, ◌++◌, ℤ, pos,
  negsuc, ltb, leb, if◌then◌else◌,
}
use gtw_jalles_websoket_blue.Text.{print_number}
use gtw_jalles_websoket_blue.Config.{same_int}

-- A `double`: a whole number, one between `n` and `n + 1`, or none.
pub data Double : Type 0 where
  whole : ℤ → Double
  between : ℤ → Double
  not_finite : Double

-- An item of cJSON; a number has its `valuedouble` and its `valueint`.
pub data Item : Type 0 where
  null_item other_item : Item
  boolean : Bool → Item
  number : Double → ℤ → Item

-- The fields that are looked up in "data" and in the answer of the server.
pub data CommandField : Type 0 where
  bomba_id control_id comando status_bomba gtw_id tanque_id vazao gtw_tanque : CommandField

-- What cJSON finds under "data": whether it is an object, and its fields.
pub record DataObject : Type 0 where
  pub is_object : Bool
  pub field : CommandField → Option Item

-- A message: its text "event", if there is one, and its "data".
pub record WsMessage : Type 0 where
  pub event : Option (List ℕ)
  pub data_object : Option DataObject

-- `v == (double)n`.
abbrev pub is_int : Double → ℤ → Bool
is_int (whole z) n = same_int z n
is_int _ n = false

abbrev pub above_zero : Double → Bool
above_zero (whole (pos n)) = ltb 0 n
above_zero (between (pos n)) = true
above_zero _ = false

-- `v <= n`.
abbrev pub at_most : ℕ → Double → Bool
at_most limit (whole (pos n)) = leb n limit
at_most limit (whole (negsuc n)) = true
at_most limit (between (pos n)) = ltb n limit
at_most limit (between (negsuc n)) = true
at_most limit not_finite = false

abbrev pub from_zero : Double → Bool
from_zero (whole (pos n)) = true
from_zero (between (pos n)) = true
from_zero _ = false

-- A number of 1 to 65535 without a fraction.
unfoldable pub valid_id : Option Item → Bool
valid_id (some (number v n)) = above_zero v && at_most 65535 v && is_int v n
valid_id _ = false

unfoldable pub valid_gtw : Option Item → Bool
valid_gtw (some (number v n)) = above_zero v && is_int v n
valid_gtw _ = false

unfoldable pub valid_status : Option Item → Bool
valid_status (some (number v n)) = is_int v (pos 0) || is_int v (pos 1)
valid_status _ = false

unfoldable pub valid_flow : Option Item → Bool
valid_flow (some (number v n)) = from_zero v && at_most 100 v
valid_flow _ = false

abbrev pub is_boolean : Option Item → Bool
is_boolean (some (boolean b)) = true
is_boolean _ = false

abbrev pub is_true : Option Item → Bool
is_true (some (boolean b)) = b
is_true _ = false

-- There is an item that is not null.
abbrev pub is_given : Option Item → Bool
is_given none = false
is_given (some null_item) = false
is_given (some _) = true

-- `valueint` of a number; the callers have tested that it is one.
abbrev pub int_of : Option Item → ℤ
int_of (some (number v n)) = n
int_of _ = pos 0

abbrev pub is_number : Option Item → Bool
is_number (some (number v n)) = true
is_number _ = false

-- A command that passed the tests.
pub record Order : Type 0 where
  pub pump : ℤ
  pub tank : ℤ
  pub control : ℤ
  pub status : ℤ
  pub execute : Bool
  pub flow : Option Item  -- if it is valid

-- The tests of `handle_bomba_control`.
unfoldable pub valid_order : DataObject → Bool
valid_order d =
    valid_id (d.field bomba_id)
    && valid_id (d.field tanque_id)
    && valid_gtw (d.field gtw_id)
    && is_boolean (d.field comando)
    && valid_status (d.field status_bomba)
    && (not (is_given (d.field vazao)) || valid_flow (d.field vazao))
    && (is_true (d.field comando) || valid_flow (d.field vazao))

-- What is taken of a command.
unfoldable pub order_of : DataObject → Order
order_of d = record {
  pump = int_of (d.field bomba_id);
  tank = int_of (d.field tanque_id);
  control =
      if is_number (d.field control_id)
      then int_of (d.field control_id)
      else int_of (d.field bomba_id);
  status = int_of (d.field status_bomba);
  execute = is_true (d.field comando);
  flow = if valid_flow (d.field vazao) then d.field vazao else none;
}

unfoldable pub bomba_order : ℕ → DataObject → Option Order
bomba_order device_id d =
    if not (valid_order d)
    then none
    else if not (same_int (int_of (d.field gtw_id)) (pos device_id))
    then none
    else some (order_of d)

-- `%d`.
unfoldable pub print_int : ℤ → List ℕ → List ℕ
print_int (pos n) text = print_number 10 n text
print_int (negsuc n) text = 45 ∷ print_number 10 (suc n) text

-- {"s":
abbrev pub status_key : List ℕ
status_key = 123 ∷ 34 ∷ 115 ∷ 34 ∷ 58 ∷ []

-- ,"v":
abbrev pub flow_key : List ℕ
flow_key = 44 ∷ 34 ∷ 118 ∷ 34 ∷ 58 ∷ []

-- ,"c":
abbrev pub control_key : List ℕ
control_key = 44 ∷ 34 ∷ 99 ∷ 34 ∷ 58 ∷ []

-- ,"q":
abbrev pub execute_key : List ℕ
execute_key = 44 ∷ 34 ∷ 113 ∷ 34 ∷ 58 ∷ []

abbrev pub flow_text : (Double → List ℕ) → Option Item → List ℕ → List ℕ
flow_text print (some (number v n)) text = flow_key ++ (print v ++ text)
flow_text print _ text = text

-- The text for the tank; `print` is `%.2f` of the `float`.
unfoldable pub order_text : (Double → List ℕ) → Order → List ℕ
order_text print o =
    status_key
    ++ print_int o.status (
        flow_text print o.flow (
          control_key
          ++ print_int o.control (execute_key ++ (if o.execute then 49 else 48) ∷ 125 ∷ [])))
