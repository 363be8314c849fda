-- ===== src/PinModal.antt =====
-- The PIN dialog of components/dashboard/pin-modal.tsx: four boxes, and the request that verifies the PIN.
pub mod Sent
use secure_vault.Prelude.{
  ℕ, String, Bool, true, false, Option, none, some, List, ◌&◌, if◌then◌else◌, nat_eq, string_eq,
  list_of, ◌∷◌, ◌==◌, without_first_nondigit, not, ltb, ◌&&◌, suc, last_of, chars, [], ◌++◌, zero,
  is_empty, ◌-◌, ◌+◌,
}
use secure_vault.Signup.{set_box, join_otp}

pub record PinDialog : Type 0 where
  pub pin : List String
  pub loading : Bool
  pub error : Bool
  pub focus : Option ℕ

abbrev pub empty_boxes : List String
empty_boxes = "" ∷ "" ∷ "" ∷ "" ∷ []

abbrev pub new_dialog : PinDialog
new_dialog = record { pin = empty_boxes; loading = false; error = false; focus = none }

unfoldable pub handle_change : ℕ → String → PinDialog → PinDialog
unfolding set_box
handle_change index value d = if ltb 1 (chars value) then d else record d {
  pin = set_box index value d.pin;
  error = false;
  focus = if not (is_empty value) && ltb index 3 then some (index + 1) else d.focus;
}

-- What the box gives its handler: `e.target.value.replace(/\D/, "")`
unfoldable pub type_box : ℕ → String → PinDialog → PinDialog
unfolding handle_change without_first_nondigit
type_box index raw d = handle_change index (without_first_nondigit raw) d

abbrev pub box_at : ℕ → List String → String
box_at i [] = ""
box_at zero (b ∷ bs) = b
box_at (suc i) (b ∷ bs) = box_at i bs

unfoldable pub handle_key_down : ℕ → String → PinDialog → PinDialog
handle_key_down index key d =
    if key == "Backspace" && is_empty (box_at index d.pin) && ltb 0 index
    then record d { focus = some (index - 1) }
    else d

-- The user's id and the PIN that are sent.
pub record PinRequest : Type 0 where
  pub user_id : String
  pub entered : String

-- `handleVerify` up to its request; `user` is the id of the user that `getUser()` gives.
unfoldable pub start_verify : Option String → PinDialog → PinDialog × Option PinRequest
unfolding join_otp
start_verify none d = (record d { error = true }, none)
start_verify (some user) d =
    if not (chars (join_otp d.pin) == 4)
    then (record d { error = true }, none)
    else (record d { loading = true }, some (record { user_id = user; entered = join_otp d.pin }))

-- The rest of `handleVerify`: whether the reply is ok, and false when the request fails. The second
-- component says that `onSuccess` is called.
unfoldable pub finish_verify : Bool → PinDialog → PinDialog × Bool
finish_verify true d = (record d { loading = false }, true)
finish_verify false d = (record d { loading = false; error = true; pin = empty_boxes }, false)

pub data PinEvent : Type 0 where
  typed : ℕ → String → PinEvent
  key_down : ℕ → String → PinEvent
  verify : Option String → PinEvent
  answered : Bool → PinEvent

unfoldable pub pin_step : PinEvent → PinDialog → PinDialog × Option PinRequest
unfolding type_box handle_key_down start_verify finish_verify
pin_step (typed index raw) d = (type_box index raw d, none)
pin_step (key_down index key) d = (handle_key_down index key d, none)
pin_step (verify user) d = start_verify user d
pin_step (answered right) d = ((finish_verify right d).0, none)

-- All that a run of events sends.
unfoldable pub pin_requests : List PinEvent → PinDialog → List PinRequest
unfolding pin_step
pin_requests [] d = []
pin_requests (e ∷ es) d = list_of ((pin_step e d).1) ++ pin_requests es ((pin_step e d).0)
