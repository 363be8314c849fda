-- ===== src/Requests.antt =====
-- The request functions of the frontend's lib: what each asks of the server, and what it makes of
-- the reply. `send` stands for the network, below `secureAdminFetch` or `fetch`.
pub mod Security
pub mod Support
pub mod Verification
pub mod Payment
pub mod Paging
use secure_vault.Json.{Json}
use secure_vault.Prelude.{
  ℕ, String, Bool, Option, none, some, List, [], ◌∷◌, ◌++◌, not, is_empty, ◌&◌, if◌then◌else◌, ◌==◌,
  string_eq,
}
use secure_vault.Prelude.Decimal.{to_string}

pub data Method : Type 0 where
  get_method post : Method

-- Which address and which fetch: the admin's wrapper, or the plain `fetch` of the payment pages.
pub data Channel : Type 0 where
  admin_api user_api : Channel

-- `URLSearchParams`: names with values, in order.
abbrev pub Query : Type 0
Query = List (String × String)

pub data Body : Type 0 where
  no_body : Body
  json_body : Json → Body
  form : Query → String → Body

pub record Request : Type 0 where
  pub channel : Channel
  pub method : Method
  pub path : String
  pub query : Option Query
  pub body : Body

-- A reply: `json` is `none` when its body is no JSON.
pub record Response : Type 0 where
  pub ok : Bool
  pub text : String
  pub json : Option Json

pub data Result : Type 0 where
  value : Json → Result
  error : String → Result
  object_url : Response → Result
  -- `new Error(v)` for a value that need not be a text
  error_value : Json → Result
  -- `res.json()` on a body that is no JSON, and a field of null
  syntax_error type_error : Result

-- `if (params.x) query.append(name, params.x)`
unfoldable pub append_text : String → Option String → Query → Query
append_text name none q = q
append_text name (some v) q = if is_empty v then q else q ++ (name, v) ∷ []

-- `if (params.x !== undefined) query.append(name, params.x.toString())`
unfoldable pub append_count : String → Option ℕ → Query → Query
append_count name none q = q
append_count name (some n) q = q ++ (name, to_string n) ∷ []

-- `query.get(name)`: the first value.
unfoldable pub get_param : String → Query → Option String
get_param name [] = none
get_param name ((k, v) ∷ q) = if k == name then some v else get_param name q

pub record Page : Type 0 where
  pub search : Option String
  pub skip : Option ℕ
  pub limit : Option ℕ

unfoldable pub page_query : Page → Query → Query
unfolding append_text append_count
page_query p q =
    append_count "limit" p.limit (append_count "skip" p.skip (append_text "search" p.search q))

-- `return res.json()`
unfoldable pub read_json : Response → Result
read_json r = elim r.json [ none ↦ syntax_error | some j ↦ value j ]

-- `if (!res.ok) throw new Error(await res.text()); return res.json()`
unfoldable pub text_or_json : Response → Result
unfolding read_json
text_or_json r = if not r.ok then error r.text else read_json r

-- `if (!res.ok) throw new Error(message); return res.json()`
unfoldable pub message_or_json : String → Response → Result
unfolding read_json
message_or_json m r = if not r.ok then error m else read_json r

-- Without a method, `fetch` asks with GET.
abbrev pub admin_get : String → Request
admin_get path = record {
  channel = admin_api;
  method = get_method;
  path = path;
  query = none;
  body = no_body;
}

abbrev pub admin_get_page : String → Query → Request
admin_get_page path q = record {
  channel = admin_api;
  method = get_method;
  path = path;
  query = some q;
  body = no_body;
}

abbrev pub admin_post : String → Body → Request
admin_post path b = record {
  channel = admin_api;
  method = post;
  path = path;
  query = none;
  body = b;
}
