-- ===== src/Auth/Store.antt =====
-- frontend/src/lib/auth.ts, lines 5 to 22 and 56 to 149: the module's state and its operations.
pub mod Guarded
pub mod Expiry
pub mod Delay
pub mod Reload
pub mod Session
use Prim.Native.Nat.{max}
use jjudge.Prelude.{
  Text, ℕ, zero, suc, ◌+◌, ◌-◌, ◌%◌, Bool, true, false, not, ◌&&◌, ◌||◌, List, [], ◌∷◌, ◌++◌,
  Option, none, some, ltb, leb, ◌==◌, if◌then◌else◌, filter,
}
use jjudge.Auth.Token.{Platform, get_token_expiry_ms, is_token_expired}

pub record User : Type 0 where
  pub name : Option Text
  pub email : Option Text
  pub username : Option Text
  pub role : Option Text

pub record StoredAuth : Type 0 where
  pub token : Option Text
  pub user : Option User

abbrev pub signed_out : StoredAuth
signed_out = record { token = none; user = none }

-- What `JSON.parse` makes of the item under the storage key. The item is any text that somebody
-- wrote there, so the token may have any type; of a token that is no string only its truth counts.
pub data RawToken : Type 0 where
  string : Text → RawToken
  truthy falsy : RawToken

pub data Item : Type 0 where
  malformed : Item
  parsed : RawToken → Option User → Item

-- `JSON.stringify(value)`, read back.
abbrev pub raw_token : Option Text → RawToken
raw_token none = falsy
raw_token (some t) = string t

abbrev pub stringify : StoredAuth → Item
stringify a = parsed (raw_token a.token) a.user

-- The pending `setTimeout`: the time at which its callback `clearAuth()` is due. `calls` logs the
-- listeners that `notify` has called, the last one first.
pub record Store : Type 0 where
  pub auth_state : StoredAuth
  pub listeners : List ℕ
  pub cached_snapshot : Option StoredAuth
  pub expiry_timer : Option ℕ
  pub storage : Option Item
  pub calls : List ℕ

-- Where and when a function of the module runs: `window` is false on the server.
pub record Env : Type 0 where
  pub platform : Platform
  pub window : Bool
  pub now : ℕ

abbrev pub browser : Platform → ℕ → Env
browser p now = record { platform = p; window = true; now = now }

abbrev pub expired : Env → Option Text → Bool
expired v none = false
expired v (some t) = is_token_expired v.platform t v.now

-- The empty string is as good as no token.
abbrev pub truthy_token : Option Text → Bool
truthy_token none = false
truthy_token (some []) = false
truthy_token (some (c ∷ t)) = true

unfoldable pub normalize_auth : Env → StoredAuth → StoredAuth
normalize_auth v a = if truthy_token a.token && expired v a.token then signed_out else a

-- A browser holds the delay of a timer in a signed 32-bit number, and takes a negative one as 0.
abbrev pub timer_delay : ℕ → ℕ
timer_delay ms = if ltb (ms % 4_294_967_296) 2_147_483_648 then ms % 4_294_967_296 else 0

pub due : Env → Option ℕ → Option ℕ
due v none = none
due v (some zero) = none
due v (some (suc e)) = some (v.now + timer_delay (max (suc e - v.now) 0))

unfoldable pub expiry : Platform → Option Text → Option ℕ
expiry p none = none
expiry p (some t) = if truthy_token (some t) then get_token_expiry_ms p t else none

unfoldable pub schedule_expiry_check : Env → Option Text → Store → Store
unfolding due expiry
schedule_expiry_check v token s = record s { expiry_timer = due v (expiry v.platform token) }

unfoldable pub write_to_storage : Env → StoredAuth → Store → Store
write_to_storage v a s = record s { storage = if v.window then some (stringify a) else s.storage }

abbrev string_token : RawToken → Option Text
string_token (string t) = some t
string_token truthy = none
string_token falsy = none

abbrev truthy_raw : RawToken → Bool
truthy_raw (string t) = truthy_token (some t)
truthy_raw truthy = true
truthy_raw falsy = false

abbrev is_some : Option User → Bool
is_some none = false
is_some (some u) = true

-- The state that an item stands for.
unfoldable pub value_of : Env → Option Item → StoredAuth
unfolding normalize_auth
value_of v none = signed_out
value_of v (some malformed) = signed_out
value_of v (some (parsed t u)) = normalize_auth v (record { token = string_token t; user = u })

-- `!normalized.token && (parsed?.token || parsed?.user)`: the item is written anew.
stale : Env → Option Item → Bool
stale v none = false
stale v (some malformed) = false
stale v (some (parsed t u)) =
    not (truthy_token (value_of v (some (parsed t u))).token) && (truthy_raw t || is_some u)

unfoldable pub read_from_storage : Env → Store → StoredAuth × Store
unfolding value_of stale write_to_storage
read_from_storage v s = if not v.window then (signed_out, s) else (
  value_of v s.storage,
  if stale v s.storage then write_to_storage v (value_of v s.storage) s else s,
)

unfoldable pub notify : Store → Store
notify s = record s { calls = s.listeners ++ s.calls }

unfoldable pub set_auth : Env → StoredAuth → Store → Store
unfolding normalize_auth write_to_storage schedule_expiry_check notify
set_auth v value s =
    let normalized = normalize_auth v value in
    let s₁ = record s { auth_state = normalized; cached_snapshot = some normalized } in
    notify (schedule_expiry_check v normalized.token (write_to_storage v normalized s₁))

unfoldable pub clear_auth : Env → Store → Store
unfolding set_auth
clear_auth v s = set_auth v signed_out s

load_snapshot : Env → Option StoredAuth → Store → StoredAuth × Store
unfolding read_from_storage
load_snapshot v (some a) s = (a, s)
load_snapshot v none s =
    let (snapshot, s₁) = read_from_storage v s in
    (snapshot, record s₁ { auth_state = snapshot; cached_snapshot = some snapshot })

unfoldable pub get_auth_snapshot : Env → Store → StoredAuth × Store
unfolding load_snapshot
get_auth_snapshot v s =
    if not v.window then (s.auth_state, s) else load_snapshot v s.cached_snapshot s

-- `listeners.add(cb)` and the function that it returns; a set holds a callback once.
abbrev contains : ℕ → List ℕ → Bool
contains x [] = false
contains x (y ∷ ys) = x == y || contains x ys

unfoldable pub subscribe_auth : ℕ → Store → Store
subscribe_auth cb s = record s {
  listeners = if contains cb s.listeners then s.listeners else s.listeners ++ cb ∷ [];
}

unfoldable pub unsubscribe_auth : ℕ → Store → Store
unsubscribe_auth cb s = record s { listeners = filter (λ x. not (x == cb)) s.listeners }

-- `useAuth` in a component: the snapshot, and the effect after it.
unfoldable pub use_auth : Env → Store → StoredAuth × Store
unfolding get_auth_snapshot schedule_expiry_check
use_auth v s =
    let (snapshot, s₁) = get_auth_snapshot v s in
    (snapshot, schedule_expiry_check v snapshot.token s₁)

run_timer : Env → Option ℕ → Store → Store
unfolding clear_auth
run_timer v none s = s
run_timer v (some d) s = if leb d v.now then clear_auth v (record s { expiry_timer = none }) else s

-- The browser runs the callback of a timer that is due.
unfoldable pub tick : Env → Store → Store
unfolding run_timer
tick v s = run_timer v s.expiry_timer s

abbrev pub initial : Option Item → Store
initial item = record {
  auth_state = signed_out;
  listeners = [];
  cached_snapshot = none;
  expiry_timer = none;
  storage = item;
  calls = [];
}
