-- ===== src/Signup.antt =====
-- The form of app/signup/page.tsx: account, code, master PIN.
pub mod Code
use Prim.Native.Char.{Char, code}
use Prim.Native.Nat.{min}
use Prim.Native.String.{[], ◌∷◌}
use mathlib.Core.List.{List, [], ◌∷◌}
use secure_vault.Json.{Json, str, obj, end, field}
use secure_vault.Prelude.{
  ℕ, zero, suc, ◌+◌, String, Bool, true, false, Option, none, some, ◌==◌, string_eq, nat_eq, not,
  ◌&&◌, ◌||◌, ltb, leb, if◌then◌else◌, is_empty, chars, is_space, is_digit, digits_of, ◌&◌, ◌-◌,
}

-- Whether some character passes: a character class searched for.
unfoldable pub some_char : (ℕ → Bool) → String → Bool
some_char test [] = false
some_char test (c ∷ s) = let rest = some_char test s in test (code c) || rest

abbrev pub is_upper : ℕ → Bool
is_upper c = leb b'A' c && leb c b'Z'

abbrev pub is_lower : ℕ → Bool
is_lower c = leb b'a' c && leb c b'z'

abbrev pub is_other : ℕ → Bool
is_other c = not (is_upper c || is_lower c || is_digit c)

abbrev pub one_if : Bool → ℕ
one_if b = if b then 1 else 0

-- `getStrength()`
unfoldable pub get_strength : String → ℕ
unfolding some_char
get_strength password =
    one_if (leb 8 (chars password))
    + one_if (some_char is_upper password)
    + one_if (some_char is_digit password)
    + one_if (some_char is_other password)

-- The label below the bars; none without a password.
unfoldable pub strength_label : String → Option String
unfolding get_strength
strength_label password =
    if is_empty password
    then none
    else let strength : ℕ = get_strength password in
      if strength == 0
      then some "Too short"
      else if strength == 1
      then some "Weak"
      else if strength == 2
      then some "Fair"
      else if strength == 3
      then some "Good"
      else some "Military Grade"

abbrev pub starts_word : String → Bool
starts_word [] = false
starts_word (c ∷ s) = not (is_space (code c))

-- The part after `@`: characters that are no space, with a `.` between two of them. `seen` tells
-- whether one has come already.
unfoldable pub has_domain : Bool → String → Bool
has_domain seen [] = false
has_domain seen (c ∷ s) =
    let rest = has_domain true s in
    not (is_space (code c)) && ((seen && code c == b'.' && starts_word s) || rest)

-- `/\S+@\S+\.\S+/.test(email)`; `before` tells whether the last character was no space.
unfoldable pub email_from : Bool → String → Bool
unfolding has_domain
email_from before [] = false
email_from before (c ∷ s) =
    let rest = email_from (not (is_space (code c))) s in
    (before && code c == b'@' && has_domain false s) || rest

unfoldable pub is_email : String → Bool
unfolding email_from
is_email s = email_from false s

pub record Form : Type 0 where
  pub step : ℕ
  pub full_name : String
  pub phone : String
  pub email : String
  pub dob : String
  pub password : String
  pub confirm_password : String
  pub otp : List String
  pub otp_timer : ℕ
  pub pin : String
  pub confirm_pin : String

abbrev pub initial_form : Form
initial_form = record {
  step = 0;
  full_name = "";
  phone = "";
  email = "";
  dob = "";
  password = "";
  confirm_password = "";
  otp = "" ∷ "" ∷ "" ∷ "" ∷ "" ∷ "" ∷ [];
  otp_timer = 30;
  pin = "";
  confirm_pin = "";
}

abbrev pub lacks_field : Form → Bool
lacks_field f =
    is_empty f.full_name
    || is_empty f.phone
    || is_empty f.email
    || is_empty f.dob
    || is_empty f.password
    || is_empty f.confirm_password

-- What `handleStep1` refuses, in the order of its guards.
unfoldable pub step_1_refusal : Form → Option String
unfolding is_email
step_1_refusal f =
    if lacks_field f
    then some "Please fill in all fields"
    else if not (is_email f.email)
    then some "Please enter a valid email address"
    else if ltb (chars f.password) 8
    then some "Password must be at least 8 characters"
    else if not (f.password == f.confirm_password)
    then some "Passwords do not match"
    else none

-- `otp.join("")`
unfoldable pub join_otp : List String → String
join_otp [] = ""
join_otp (s ∷ ss) = s & join_otp ss

unfoldable pub step_2_refusal : Form → Option String
unfolding join_otp
step_2_refusal f =
    if not (chars (join_otp f.otp) == 6) then some "Please enter the complete 6-digit OTP" else none

unfoldable pub step_3_refusal : Form → Option String
step_3_refusal f =
    if not (chars f.pin == 4)
    then some "PIN must be exactly 4 digits"
    else if not (f.pin == f.confirm_pin)
    then some "PINs do not match"
    else none

-- What each step sends.
unfoldable pub step_1_body : Form → Json
step_1_body f = obj (field "email" (str f.email) end)

unfoldable pub step_2_body : Form → Json
unfolding join_otp
step_2_body f = obj (field "email" (str f.email) (field "otp" (str (join_otp f.otp)) end))

unfoldable pub step_3_body : Form → Json
step_3_body f = obj (
    field "fullName" (str f.full_name) (
      field "email" (str f.email)
        (field "password" (str f.password) (field "pin" (str f.pin) end))))

-- One second of the timer.
unfoldable pub tick : ℕ → ℕ
tick prev = if leb prev 1 then 0 else prev - 1

-- The accepted answers: the step goes on, and the first one starts the timer.
unfoldable pub on_step_1 : Form → Form
on_step_1 f = record f { step = 1; otp_timer = 30 }

unfoldable pub on_step_2 : Form → Form
on_step_2 f = record f { step = 2 }

-- `newOtp[index] = value`, on one of the boxes.
unfoldable pub set_box : ℕ → String → List String → List String
set_box i v [] = []
set_box zero v (b ∷ bs) = v ∷ bs
set_box (suc i) v (b ∷ bs) = b ∷ set_box i v bs

-- `digits.forEach((d, idx) => { if (idx < 6) newOtp[idx] = d })`; the digits are six at most.
unfoldable pub fill_boxes : String → List String → List String
fill_boxes s [] = []
fill_boxes [] bs = bs
fill_boxes (c ∷ s) (b ∷ bs) = (c ∷ []) ∷ fill_boxes s bs

-- `s.slice(0, n)`
unfoldable pub slice_to : ℕ → String → String
slice_to zero s = []
slice_to (suc n) [] = []
slice_to (suc n) (c ∷ s) = c ∷ slice_to n s

-- `handleOtpChange(index, value)`: the boxes, and the one that gets the focus.
unfoldable pub handle_otp_change : ℕ → String → List String → List String × Option ℕ
unfolding set_box fill_boxes slice_to
handle_otp_change index value otp =
    if ltb 1 (chars value)
    then (let digits : String = slice_to 6 (digits_of value) in
        if ltb 0 (chars digits)
        then (fill_boxes digits otp, some (min (chars digits) 5))
        else (otp, none))
    else (
      set_box index value otp,
      if not (is_empty value) && ltb index 5 then some (index + 1) else none,
    )

abbrev pub box_at : ℕ → List String → String
box_at i [] = ""
box_at zero (b ∷ bs) = b
box_at (suc i) (b ∷ bs) = box_at i bs

-- `handleOtpKeyDown(index, e)` for `Backspace`.
unfoldable pub handle_otp_backspace : ℕ → List String → Option ℕ
handle_otp_backspace index otp =
    if is_empty (box_at index otp) && ltb 0 index then some (index - 1) else none
