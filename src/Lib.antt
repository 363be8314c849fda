-- ===== src/Lib.antt =====
-- Verification of the client side of Secure Vault: what the frontend keeps in the browser, how it
-- talks to the server, and how its pages let a user in, out and through their forms.
--
-- The parts, and the files that model them (paths from the root of the repository):
--   Storage.antt: localStorage and sessionStorage, as lists of keys with values.
--   Session.antt and its children: frontend/lib/store.ts. A call is an action on the browser's state
--     that gives a value or an exception (setCurrentUserId is set_current_user_id, saveUser is
--     save_user, setLoggedIn is set_logged_in, isPinVerifiedSession is is_pin_verified_session). What
--     JSON.stringify wrote is kept as the value, which JSON.parse gives back.
--   Auth.antt: frontend/lib/auth-utils.ts. Admin.antt: frontend/lib/admin-store.ts.
--   Json.antt, Fetch.antt and its children: frontend/lib/api.ts and frontend/lib/admin-api.ts. Calls of
--     secureFetch run side by side; an event is what the network does next, and between two events
--     the script runs to its next await. Fetch/User.antt joins them to the two stores.
--   Requests.antt and its children: frontend/lib/security-api.ts, support-api.ts, verification-api.ts,
--     payment-api.ts and payment-admin-api.ts; the network is the parameter send.
--   Shell.antt: frontend/app/login, the last step of frontend/app/signup, frontend/app/complete-profile,
--     frontend/components/dashboard/dashboard-shell.tsx and the trackers of frontend/components/auth.
--   Signup.antt: frontend/app/signup/page.tsx. Recovery.antt: frontend/app/forgot-password/page.tsx and
--     frontend/app/forgot-pin/page.tsx.
--   Governance.antt: frontend/app/dashboard/governance/page.tsx.
--   Nominees.antt: frontend/app/dashboard/nominees/page.tsx, with the clicks, replies and requests in
--     Nominees/Events.antt; Allocations.antt: its allocation drawer.
--   Table.antt: frontend/components/design-system/DataTable.tsx.
--   Switch.antt: frontend/app/dashboard/settings/switch/page.tsx, with one function for the click of each
--     handler and one for its reply, whose ending is a Replies.Outcome; Switch/Events.antt puts them in any
--     order, Switch/Timeline.antt is the page's timeline. Policies.antt:
--     frontend/app/dashboard/policies/page.tsx. Claims.antt and its children:
--     frontend/app/dashboard/claims/page.tsx, with the requests on their way as a list.
--   Uploads.antt: frontend/components/design-system/FileUploader.tsx and
--     frontend/components/dashboard/payment-modal.tsx; Uploads/Asset.antt:
--     frontend/app/dashboard/assets/add/page.tsx. Explorer.antt and Explorer/Drawer.antt:
--     frontend/app/dashboard/assets/explorer/page.tsx. PinModal.antt:
--     frontend/components/dashboard/pin-modal.tsx.
--   Settings.antt: frontend/app/dashboard/settings/page.tsx, on top of Session.antt.
--   NomineeClaim.antt: frontend/app/nominee/verify/[token]/page.tsx. ZeroTrust.antt:
--     frontend/app/dashboard/security/zerotrust/page.tsx. Heartbeat.antt: the heartbeat of
--     frontend/components/auth/session-timeout-tracker.tsx.
--   AdminShell.antt: frontend/components/admin/admin-shell.tsx, on top of Admin.antt.
--   AdminAccounts.antt and its children: frontend/app/admin/admins/page.tsx, with the clicks and replies
--     in AdminAccounts/Events.antt.
--   Prelude.antt: shared names; JavaScript's strings, decimal numbers and Date's toISOString.
--   Examples.antt: concrete inputs for the theorems.
--
-- Bounds: all loops are structural recursion, there is no fuel. Numbers are natural, or
-- Prelude.Integers where the source can make a negative one; times are milliseconds since 1970. Letters
-- are ASCII's in toLowerCase, white space is ASCII's with the no-break space, and a text's length counts
-- its characters. A share of an allocation is a whole number of per cent. The query of a request is kept
-- as its list of names with values, not as encoded text.
--
-- Not modelled: what is drawn on the screen, toasts that nothing reads, headers and credentials of
-- requests, the server, the cryptography of the platform, and the copies of other projects' components.
-- The array's sort, Date.parse and toLocaleDateString, JSON.stringify of an arbitrary value, String of
-- one and the network are parameters. The registry of addresses is a map: that a JavaScript object keeps
-- its prototype under the name __proto__ is left out.
pub mod Prelude
pub mod Storage
pub mod Session
pub mod Auth
pub mod Admin
pub mod Json
pub mod Fetch
pub mod Requests
pub mod Governance
pub mod Table
pub mod Allocations
pub mod Recovery
pub mod Signup
pub mod Shell
pub mod Examples
pub mod Replies
pub mod Switch
pub mod Policies
pub mod Claims
pub mod Uploads
pub mod Explorer
pub mod PinModal
pub mod AdminShell
pub mod Settings
pub mod NomineeClaim
pub mod ZeroTrust
pub mod Heartbeat
pub mod Nominees
pub mod AdminAccounts
