-- ===== src/Fetch.antt =====
-- The fetch wrappers `secureFetch` (lib/api.ts) and `secureAdminFetch` (lib/admin-api.ts): calls that
-- run side by side, and the refresh of the access token that they share. An event is what the
-- network does next; between two events the script runs to its next `await`.
pub mod Errors
pub mod Invariant
pub mod Progress
pub mod Completion
pub mod User
use secure_vault.Fetch.Errors.{normalized_data}
use secure_vault.Json.{Json, Fields, obj}
use secure_vault.Prelude.{
  ℕ, zero, suc, ◌+◌, ◌==◌, nat_eq, leb, ltb, String, Bool, true, false, not, ◌&&◌, ◌||◌, Option,
  none, some, List, [], ◌∷◌, ◌++◌, if◌then◌else◌, includes,
}

-- A reply of the server; `none` is a body that is no JSON.
pub record Reply : Type 0 where
  pub status : ℕ
  pub body : Option Json

-- `response.ok`
abbrev pub is_ok : Reply → Bool
is_ok r = leb 200 r.status && leb r.status 299

pub data Failure : Type 0 where
  network session_expired bad_body : Failure

-- Where a call stands: at its first fetch, at `await refreshPromise`, at the retry, or at its end.
pub data Phase : Type 0 where
  first retried : Phase
  waiting : Option ℕ → Phase
  returned : Reply → Phase
  failed : Failure → Phase

-- `sent` counts the requests for the call's own address.
pub record Call : Type 0 where
  pub endpoint : String
  pub phase : Phase
  pub sent : ℕ

-- `isRefreshing`, `refreshPromise` (the number of the refresh request that it waits for), the number of
-- refresh requests sent, the calls in the order of their start, the browser's state, and how often
-- the way to the login page was scheduled.
pub record Client (S : Type 0) : Type 0 where
  pub refreshing : Bool
  pub promise : Option ℕ
  pub started : ℕ
  pub calls : List Call
  pub store : S
  pub redirects : ℕ

pub data RefreshAnswer : Type 0 where
  granted denied broken : RefreshAnswer

pub data Event : Type 0 where
  start : String → Event
  answer : ℕ → Reply → Event
  break : ℕ → Event
  settle : RefreshAnswer → Event

-- The end of a call: a reply that is not ok gets the normalised body.
unfoldable pub finish : Reply → Phase
finish r = if is_ok r then returned r else elim (normalized_data r.body) [
  | none ↦ failed bad_body
  | some fs ↦ returned (record { status = r.status; body = some (obj fs) })
]

unfoldable pub call_at : ℕ → List Call → Option Call
call_at i [] = none
call_at zero (c ∷ cs) = some c
call_at (suc i) (c ∷ cs) = call_at i cs

unfoldable pub set_call : ℕ → Call → List Call → List Call
set_call i c [] = []
set_call zero c (d ∷ cs) = c ∷ cs
set_call (suc i) c (d ∷ cs) = d ∷ set_call i c cs

-- Whether a call waits for the refresh request of that number.
abbrev pub waits_for : Option ℕ → Phase → Bool
waits_for (some n) (waiting (some m)) = m == n
waits_for _ _ = false

-- What a waiting call does when the refresh has ended.
unfoldable pub resume : RefreshAnswer → Call → Call
resume granted c = record c { phase = retried; sent = c.sent + 1 }
resume denied c = record c { phase = failed session_expired }
resume broken c = record c { phase = failed network }

-- The calls that wait for the refresh request of that number go on.
unfoldable pub resume_calls : Option ℕ → RefreshAnswer → List Call → List Call
unfolding resume
resume_calls p a [] = []
resume_calls p a (c ∷ cs) = (if waits_for p c.phase then resume a c else c) ∷ resume_calls p a cs

unfoldable pub waiting_calls : Option ℕ → List Call → ℕ
waiting_calls p [] = 0
waiting_calls p (c ∷ cs) =
    let rest = waiting_calls p cs in if waits_for p c.phase then suc rest else rest

module _ {S : Type 0} where
  -- A call goes to another phase.
  unfoldable pub move : ℕ → Call → Phase → Client S → Client S
  unfolding set_call
  move i c p s = record s { calls = set_call i (record c { phase = p }) s.calls }

  -- Only one refresh at a time: the first call that needs one sends it.
  unfoldable pub ensure_refresh : Client S → Client S
  ensure_refresh s =
      if s.refreshing
      then s
      else record s { refreshing = true; promise = some s.started; started = s.started + 1 }

  unfoldable pub await_refresh : ℕ → Call → Client S → Client S
  unfolding move
  await_refresh i c s = move i c (waiting s.promise) s

  unfoldable pub on_break : Phase → ℕ → Call → Client S → Client S
  unfolding move
  on_break first i c s = move i c (failed network) s
  on_break retried i c s = move i c (failed network) s
  on_break _ i c s = s

module _ {S : Type 0} (is_auth_endpoint : String → Bool) (expire : S → S) where
  -- The reply to a call's first request, or to its retry.
  unfoldable pub on_reply : Phase → ℕ → Call → Reply → Client S → Client S
  unfolding move finish ensure_refresh await_refresh
  on_reply first i c r s =
      if r.status == 401 && not (is_auth_endpoint c.endpoint)
      then await_refresh i c (ensure_refresh s)
      else move i c (finish r) s
  on_reply retried i c r s = move i c (finish r) s
  on_reply _ i c r s = s

  -- A refusal ends the session once for each call that waits.
  unfoldable pub expire_each : Option ℕ → List Call → S → S
  expire_each p [] b = b
  expire_each p (c ∷ cs) b = expire_each p cs (if waits_for p c.phase then expire b else b)

  unfoldable pub after_answer : RefreshAnswer → Client S → Client S
  unfolding expire_each waiting_calls
  after_answer denied s = record s {
    store = expire_each s.promise s.calls s.store;
    redirects = s.redirects + waiting_calls s.promise s.calls;
  }
  after_answer _ s = s

  -- First `.finally(…)`, which forgets the promise; then every call that waits goes on.
  unfoldable pub on_settle : RefreshAnswer → Client S → Client S
  unfolding resume_calls after_answer
  on_settle a s = record (after_answer a s) {
    refreshing = false;
    promise = none;
    calls = resume_calls s.promise a s.calls;
  }

  -- An event that the network cannot bring now changes nothing.
  unfoldable pub step : Event → Client S → Client S
  unfolding on_reply on_break on_settle call_at
  step (start endpoint) s = record s {
    calls = s.calls ++ record { endpoint = endpoint; phase = first; sent = 1 } ∷ [];
  }
  step (answer i r) s = elim (call_at i s.calls) [ none ↦ s | some c ↦ on_reply c.phase i c r s ]
  step (break i) s = elim (call_at i s.calls) [ none ↦ s | some c ↦ on_break c.phase i c s ]
  step (settle a) s = if s.refreshing then on_settle a s else s

  unfoldable pub run : List Event → Client S → Client S
  unfolding step
  run [] s = s
  run (e ∷ es) s = run es (step e s)
