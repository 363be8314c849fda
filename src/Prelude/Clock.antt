-- ===== src/Prelude/Clock.antt =====
-- `new Date(ms).toISOString()`, for the milliseconds since 1970 up to the year 9999.
use Prim.Native.Nat.{ℕ, ◌+◌, ◌-◌, ◌*◌, ◌/◌, ◌%◌}
use Prim.Native.String.{String}
use mathlib.Core.Path.{◌≡◌, refl}
use secure_vault.Prelude.Decimal.{to_string}
use secure_vault.Prelude.Tests.{ltb, leb, if◌then◌else◌}
use secure_vault.Prelude.Text.{◌&◌}

pad_2 : ℕ → String
pad_2 n = if ltb n 10 then "0" & to_string n else to_string n

pad_3 : ℕ → String
unfolding pad_2
pad_3 n = if ltb n 100 then "0" & pad_2 n else to_string n

-- The date of a day, counted from 1970-01-01, over the 400-year cycle that begins on 1 March.
date_of : ℕ → String
unfolding pad_2
date_of days =
    let z : ℕ = days + 719468 in
    let cycle : ℕ = z / 146097 in
    let doe : ℕ = z % 146097 in
    let yoe : ℕ = (doe + doe / 36524 - doe / 1460 - doe / 146096) / 365 in
    let doy : ℕ = doe + yoe / 100 - 365 * yoe - yoe / 4 in
    let mp : ℕ = (5 * doy + 2) / 153 in
    let day : ℕ = doy + 1 - (153 * mp + 2) / 5 in
    let month : ℕ = (if ltb mp 10 then mp + 3 else mp - 9) in
    let year : ℕ = yoe + cycle * 400 + (if leb month 2 then 1 else 0) in
    to_string year & "-" & pad_2 month & "-" & pad_2 day

unfoldable pub to_iso_string : ℕ → String
unfolding date_of pad_3 to_string
to_iso_string ms =
    let secs : ℕ = ms / 1000 in
    date_of (secs / 86400)
    & "T"
    & pad_2 (secs / 3600 % 24)
    & ":"
    & pad_2 (secs / 60 % 60)
    & ":"
    & pad_2 (secs % 60)
    & "."
    & pad_3 (ms % 1000)
    & "Z"

epoch : to_iso_string 0 ≡ "1970-01-01T00:00:00.000Z"
unfolding to_iso_string
epoch = refl

leap_day : to_iso_string 1709209807045 ≡ "2024-02-29T12:30:07.045Z"
unfolding to_iso_string
leap_day = refl
