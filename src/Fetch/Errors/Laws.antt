-- ===== src/Fetch/Errors/Laws.antt =====
-- What the normalised body of a failed reply holds.
use mathlib.Core.Option.{some-injective}
use secure_vault.Fetch.Errors.{
  extract_error_message, normalized_data, message_of, first_message, detail_message, any_message,
  spread, raw_data,
}
use secure_vault.Json.{
  Json, null, str, arr, obj, Items, cons, Fields, end, field, get_field, set_field, property,
  truthy, or_else-truthy,
}
use secure_vault.Prelude.{
  String, true, false, Option, none, some, if◌then◌else◌, ◌≡◌, ◌≢◌, refl, arith, ◌==◌, is_empty,
  eq_iff, string_eq, Bool-cases, inl, inr, ◌∙◌, sym,
}
use secure_vault.Storage.Laws.{eq_false}

pub get_field-set_field :
    (k j : String) (v : Json) (fs : Fields)
    → get_field j (set_field k v fs) ≡ (if k == j then some v else get_field j fs)
unfolding get_field set_field
get_field-set_field k j v end = refl
get_field-set_field k j v (field i w fs) =
    ground (arith, eq_iff k j, eq_iff i k, eq_iff i j, get_field-set_field k j v fs)

any_message-truthy :
    (body : Json) (fallback : String)
    → is_empty fallback ≡ false
    → truthy (any_message body fallback) ≡ true
unfolding any_message
any_message-truthy body fallback h = or_else-truthy (property "detail" body) _ (
    or_else-truthy (property "error" body) _
      (or_else-truthy (property "message" body) (str fallback) (rw h)))

first_message-truthy :
    (first : Json) (fallback : String) (message : Json)
    → is_empty fallback ≡ false
    → first_message first fallback ≡ some message
    → truthy message ≡ true
unfolding first_message
first_message-truthy null fallback message h e = cc
first_message-truthy first fallback message h e =
    rw (← some-injective _ _ e) (or_else-truthy (property "msg" first) (str fallback) (rw h))

detail_message-truthy :
    (detail : Option Json) (body : Json) (fallback : String) (message : Json)
    → is_empty fallback ≡ false
    → detail_message detail body fallback ≡ some message
    → truthy message ≡ true
unfolding detail_message
detail_message-truthy (some (arr (cons first rest))) body fallback message h e =
    first_message-truthy first fallback message h e
detail_message-truthy detail body fallback message h e =
    rw (← some-injective _ _ e) (any_message-truthy body fallback h)

message_of-truthy :
    (body : Json) (fallback : String) (message : Json)
    → is_empty fallback ≡ false
    → truthy body ≡ true
    → message_of body fallback ≡ some message
    → truthy message ≡ true
unfolding message_of
message_of-truthy (str s) fallback message h t e = rw (← some-injective _ _ e) t
message_of-truthy body fallback message h t e =
    detail_message-truthy (property "detail" body) body fallback message h e

-- What `extractErrorMessage` gives is truthy, if its fallback is not empty.
pub extract_error_message-truthy :
    (body : Json) (fallback : String) (message : Json)
    → is_empty fallback ≡ false
    → extract_error_message body fallback ≡ some message
    → truthy message ≡ true
unfolding extract_error_message
extract_error_message-truthy body fallback message h e = elim (Bool-cases (truthy body)) [
  | inl t ↦ message_of-truthy body fallback message h t (rw t at e)
  | inr f ↦ rw (← some-injective _ _ (rw f at e)) (rw h)
]

normalized_parts :
    (body : Option Json) (fs : Fields)
    → normalized_data body ≡ some fs
    → ((m : Json) × (get_field "error" fs ≡ some m) × (truthy m ≡ true))
      × ((k : String) → k ≢ "error" → get_field k fs ≡ get_field k (spread (raw_data body)))
unfolding normalized_data
normalized_parts body fs e = go (extract_error_message (raw_data body) "Request failed") refl e
  where
    go :
        (o : Option Json)
        → extract_error_message (raw_data body) "Request failed" ≡ o
        → elim o [ none ↦ none | some m ↦ some (set_field "error" m (spread (raw_data body))) ]
          ≡ some fs
        → ((m : Json) × (get_field "error" fs ≡ some m) × (truthy m ≡ true))
          × ((k : String) → k ≢ "error" → get_field k fs ≡ get_field k (spread (raw_data body)))
    go none q e = cc
    go (some m) q e = rw (← some-injective _ _ e) (
      (
        m,
        get_field-set_field "error" "error" m (spread (raw_data body)),
        extract_error_message-truthy (raw_data body) "Request failed" m refl q,
      ),
      λ k h.
          get_field-set_field "error" k m (spread (raw_data body))
          ∙ rw (eq_false "error" k (λ p. h (sym p))),
    )

-- Whatever the body of a failed reply, if no exception is thrown then the caller reads a truthy
-- `error`, and every field of another name is as the server sent it.
pub normalized_data_lem :
    (body : Option Json) (fs : Fields) (k : String)
    → normalized_data body ≡ some fs
    → k ≢ "error"
    → ((m : Json) × (get_field "error" fs ≡ some m) × (truthy m ≡ true))
      × (get_field k fs ≡ get_field k (spread (raw_data body)))
normalized_data_lem body fs k e h =
    let (shown, kept) = normalized_parts body fs e in (shown, kept k h)

-- FastAPI's plain form: a detail that is a text and not empty is the message.
pub extract_error_message_text :
    (fs : Fields) (fallback s : String)
    → is_empty s ≡ false
    → get_field "detail" fs ≡ some (str s)
    → extract_error_message (obj fs) fallback ≡ some (str s)
unfolding extract_error_message
extract_error_message_text fs fallback s h e = ground (arith)

-- FastAPI's validation errors: of an array whose first element is an object with a truthy `msg`, that is the message.
pub extract_error_message_array :
    (fs es : Fields) (fallback : String) (items : Items) (msg : Json)
    → truthy msg ≡ true
    → get_field "msg" es ≡ some msg
    → get_field "detail" fs ≡ some (arr (cons (obj es) items))
    → extract_error_message (obj fs) fallback ≡ some msg
unfolding extract_error_message
extract_error_message_array fs es fallback items msg h e d = ground (arith)

-- A detail that is an object is itself the result, though the function is declared to return a text.
pub extract_error_message_not_text :
    (fs es : Fields) (fallback : String)
    → get_field "detail" fs ≡ some (obj es)
    → extract_error_message (obj fs) fallback ≡ some (obj es)
unfolding extract_error_message
extract_error_message_not_text fs es fallback e = ground (arith)
