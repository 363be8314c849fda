-- ===== src/Fetch/Errors.antt =====
-- `extractErrorMessage` and the normalised error body of lib/api.ts; `extractAdminErrorMessage` of
-- lib/admin-api.ts has the same lines.
pub mod Laws
use Prim.Native.Char.{Char}
use Prim.Native.String.{[], ◌∷◌}
use secure_vault.Json.{
  Json, null, bool, num, str, arr, obj, Items, nil, cons, Fields, end, field, get_field, set_field,
  property, truthy, ◌or_else◌,
}
use secure_vault.Prelude.{
  ℕ, zero, suc, ◌+◌, String, Bool, true, false, not, Option, none, some, if◌then◌else◌,
}
use secure_vault.Prelude.Decimal.{to_string}

-- `data.detail[0].msg || fallback`; null has no fields, and to read one throws.
unfoldable pub first_message : Json → String → Option Json
first_message null fallback = none
first_message first fallback = some (property "msg" first or_else str fallback)

-- `data.detail || data.error || data.message || fallback`
unfoldable pub any_message : Json → String → Json
any_message body fallback =
    property "detail" body
    or_else property "error" body
    or_else property "message" body
    or_else str fallback

-- The two `if`s on `data.detail`: an array that is not empty, or anything else.
unfoldable pub detail_message : Option Json → Json → String → Option Json
unfolding first_message any_message
detail_message (some (arr (cons first rest))) body fallback = first_message first fallback
detail_message detail body fallback = some (any_message body fallback)

-- A text is the message; of anything else the fields are asked.
unfoldable pub message_of : Json → String → Option Json
unfolding detail_message
message_of (str s) fallback = some (str s)
message_of body fallback = detail_message (property "detail" body) body fallback

-- `extractErrorMessage(data, fallback)`; `none` is an exception.
unfoldable pub extract_error_message : Json → String → Option Json
unfolding message_of
extract_error_message body fallback =
    if truthy body then message_of body fallback else some (str fallback)

-- `{ ...rawData }`: the fields of an object, the elements of an array or the characters of a text
-- under their indices, and nothing of any other value.
spread_items : ℕ → Items → Fields
spread_items i nil = end
spread_items i (cons x xs) = field (to_string i) x (spread_items (i + 1) xs)

spread_chars : ℕ → String → Fields
spread_chars i [] = end
spread_chars i (c ∷ s) = field (to_string i) (str (c ∷ [])) (spread_chars (i + 1) s)

unfoldable pub spread : Json → Fields
unfolding spread_items spread_chars
spread (obj fs) = fs
spread (arr xs) = spread_items 0 xs
spread (str s) = spread_chars 0 s
spread _ = end

-- The body that the caller reads of a reply that is not ok. `none` as the body is one that is no JSON,
-- which `.catch(() => ({}))` replaces.
abbrev pub raw_data : Option Json → Json
raw_data none = obj end
raw_data (some body) = body

unfoldable pub normalized_data : Option Json → Option Fields
unfolding extract_error_message spread
normalized_data body = elim (extract_error_message (raw_data body) "Request failed") [
  | none ↦ none
  | some message ↦ some (set_field "error" message (spread (raw_data body)))
]
