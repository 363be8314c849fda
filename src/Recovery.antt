-- ===== src/Recovery.antt =====
-- The wizards of app/forgot-password/page.tsx and app/forgot-pin/page.tsx: ask for a code, verify it, choose the
-- new password or PIN. Each handler sends a request and goes on when its answer comes; the
-- "Resend" button works while another request is on its way, so several may be.
pub mod Forward
use Prim.Native.Char.{code}
use secure_vault.Json.{Json, null, str, obj, end, field, property, ◌or_else◌}
use secure_vault.Prelude.{
  ℕ, String, Bool, Option, none, some, List, [], ◌∷◌, ◌++◌, ◌==◌, string_eq, nat_eq, not, ◌&&◌,
  ◌||◌, ltb, leb, if◌then◌else◌, is_empty, chars, true, suc, false, zero, digits_of,
}

pub data Kind : Type 0 where
  password pin : Kind

pub data Stage : Type 0 where
  asking verifying resetting : Stage

pub data Toast : Type 0 where
  error_toast success_toast : String → Toast
  -- `toast.error(error.message)` with the message of what was thrown
  thrown_toast : Option Json → Toast

pub record Page : Type 0 where
  pub step : ℕ
  pub email : String
  pub otp : String
  pub new_value : String
  pub confirm_value : String
  pub reset_token : Option Json
  pub loading : Bool

-- `requests` are on their way: for which handler, and with which body.
pub record Wizard : Type 0 where
  pub page : Page
  pub requests : List (Stage × Json)
  pub toasts : List Toast

-- What the await brings: an exception of the fetch or of the parser, or a status with its body.
pub data Answer : Type 0 where
  thrown : String → Answer
  reply : Bool → Json → Answer

abbrev pub type_text : Kind → String
type_text password = "password"
type_text pin = "pin"

-- A body sent as JSON; a field that is undefined is left out.
abbrev pub put : String → Option Json → Json → Json
put k (some v) (obj fs) = obj (field k v fs)
put k none j = j
put k v j = j

-- What a handler does first: refuse, or send.
pub data Start : Type 0 where
  refused : String → Start
  sends : Json → Start

unfoldable pub request_otp : Kind → Page → Start
request_otp kind p =
    if is_empty p.email
    then refused "Please enter your email"
    else sends (obj (field "email" (str p.email) (field "type" (str (type_text kind)) end)))

unfoldable pub verify_otp : Kind → Page → Start
verify_otp kind p =
    if is_empty p.otp
    then refused "Please enter the 6-digit OTP"
    else sends (
        obj (
          field "email" (str p.email)
            (field "otp" (str p.otp) (field "type" (str (type_text kind)) end))))

-- The rule on the length, and what is said to a value that breaks it.
abbrev pub is_wrong_length : Kind → ℕ → Bool
is_wrong_length password n = ltb n 8
is_wrong_length pin n = not (n == 4)

abbrev pub length_message : Kind → String
length_message password = "Password must be at least 8 characters"
length_message pin = "PIN must be exactly 4 digits"

abbrev pub mismatch_message : Kind → String
mismatch_message password = "Passwords do not match"
mismatch_message pin = "PINs do not match"

-- The three guards, in their order.
unfoldable pub reset_refusal : Kind → String → String → Option String
reset_refusal kind new_value confirm_value =
    if is_empty new_value || is_empty confirm_value
    then some "Please fill in all fields"
    else if not (new_value == confirm_value)
    then some (mismatch_message kind)
    else if is_wrong_length kind (chars new_value)
    then some (length_message kind)
    else none

unfoldable pub reset_credential : Kind → Page → Start
unfolding reset_refusal
reset_credential kind p = elim (reset_refusal kind p.new_value p.confirm_value) [
  | some m ↦ refused m
  | none ↦ sends (
      put "resetToken" p.reset_token
        (obj (field "newValue" (str p.new_value) (field "type" (str (type_text kind)) end))))
]

unfoldable pub start : Kind → Stage → Page → Start
unfolding request_otp verify_otp reset_credential
start kind asking p = request_otp kind p
start kind verifying p = verify_otp kind p
start kind resetting p = reset_credential kind p

unfoldable pub began : Stage → Start → Wizard → Wizard
began stage (refused m) w = record w { toasts = w.toasts ++ error_toast m ∷ [] }
began stage (sends body) w = record w {
  page = record w.page { loading = true };
  requests = w.requests ++ (stage, body) ∷ [];
}

-- The form that the step shows; its button is off while a request is on its way.
abbrev pub form_of : ℕ → Option Stage
form_of n =
    if n == 1
    then some asking
    else if n == 2
    then some verifying
    else if n == 3
    then some resetting
    else none

unfoldable pub handle : Kind → Option Stage → Wizard → Wizard
unfolding start began
handle kind none w = w
handle kind (some stage) w = began stage (start kind stage w.page) w

abbrev pub failure_message : Kind → Stage → String
failure_message kind asking = "Failed to send OTP"
failure_message kind verifying = "Invalid or expired OTP"
failure_message password resetting = "Failed to reset password"
failure_message pin resetting = "Failed to reset PIN"

abbrev pub success_message : Kind → Stage → String
success_message kind asking = "OTP sent to your email"
success_message kind verifying = "OTP verified successfully"
success_message password resetting = "Password reset successfully"
success_message pin resetting = "PIN reset successfully"

-- `new Error(data.error || message)`; to read a field of null throws.
abbrev pub error_of : Json → String → Option Json
error_of null m = none
error_of body m = some (property "error" body or_else str m)

-- What an accepted answer does to the page; `none` is the exception on `data.resetToken` of null.
unfoldable pub accepted : Stage → Json → Page → Option Page
accepted asking body p = some (record p { step = 2 })
accepted verifying null p = none
accepted verifying body p = some (record p { step = 3; reset_token = property "resetToken" body })
accepted resetting body p = some (record p { step = 4 })

unfoldable pub told : Page → Toast → Wizard → Wizard
told p t w = record w { page = record p { loading = false }; toasts = w.toasts ++ t ∷ [] }

unfoldable pub on_answer : Kind → Stage → Answer → Wizard → Wizard
unfolding accepted told
on_answer kind stage (thrown m) w = told w.page (thrown_toast (some (str m))) w
on_answer kind stage (reply false body) w =
    told w.page (thrown_toast (error_of body (failure_message kind stage))) w
on_answer kind stage (reply true body) w = elim (accepted stage body w.page) [
  | none ↦ told w.page (thrown_toast none) w
  | some p ↦ told p (success_toast (success_message kind stage)) w
]

pub data Event : Type 0 where
  type_email type_otp type_new type_confirm : String → Event
  submit resend : Event
  answered : ℕ → Answer → Event

-- What the field of the new value takes: the page of the PIN keeps the digits.
abbrev pub field_value : Kind → String → String
field_value password s = s
field_value pin s = digits_of s

unfoldable pub request_at : ℕ → List (Stage × Json) → Option Stage
request_at i [] = none
request_at zero ((stage, body) ∷ rs) = some stage
request_at (suc i) (r ∷ rs) = request_at i rs

unfoldable pub without_request : ℕ → List (Stage × Json) → List (Stage × Json)
without_request i [] = []
without_request zero (r ∷ rs) = rs
without_request (suc i) (r ∷ rs) = r ∷ without_request i rs

unfoldable pub answer_to : Kind → Option Stage → Answer → Wizard → Wizard
unfolding on_answer
answer_to kind none a w = w
answer_to kind (some stage) a w = on_answer kind stage a w

unfoldable pub step : Kind → Event → Wizard → Wizard
unfolding handle answer_to request_at without_request
step kind (type_email s) w = record w { page = record w.page { email = s } }
step kind (type_otp s) w = record w { page = record w.page { otp = digits_of s } }
step kind (type_new s) w = record w { page = record w.page { new_value = field_value kind s } }
step kind (type_confirm s) w = record w {
  page = record w.page { confirm_value = field_value kind s };
}
step kind submit w = if w.page.loading then w else handle kind (form_of w.page.step) w
step kind resend w = if w.page.step == 2 then handle kind (some asking) w else w
step kind (answered i a) w =
    answer_to kind (request_at i w.requests) a
      (record w { requests = without_request i w.requests })
