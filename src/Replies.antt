-- ===== src/Replies.antt =====
-- How the requests that the dashboard's pages send on their own end, with `fetch` in a `try`.
use secure_vault.Prelude.{String, Option, none, some, is_empty, if◌then◌else◌}

-- With an ok reply and what its body brings, with another reply, or in the `catch`.
pub data Outcome (T : Type 0) : Type 0 where
  ok : T → Outcome T
  not_ok : Outcome T
  offline : Outcome T

-- How a request ends whose reply is read as JSON: an ok reply and what it brings; another reply with its
-- `error`, which may be missing; or an exception with its message.
pub data Reply (T : Type 0) : Type 0 where
  agreed : T → Reply T
  refused : Option String → Reply T
  broken : String → Reply T

-- `data.error || fallback`
abbrev pub error_or : String → Option String → String
error_or fallback none = fallback
error_or fallback (some e) = if is_empty e then fallback else e
