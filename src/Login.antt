-- ===== src/Login.antt =====
-- workbuddy/oauth_pending.go and workbuddy/oauth_pending_flow.go: a login that the user finishes in a
-- browser, while the plugin polls and keeps what it has obtained on disk. `Poll` is a poll, `Kept` shows
-- that what it keeps can be restored, `Once` that nothing is consumed twice, `Register` the bound on
-- pending logins. Times are nanoseconds of Unix time, and 0 stands for the zero time. The cookies of a
-- login are those recorded in its jar.
pub mod Poll
pub mod Kept
pub mod Checked
pub mod Once
pub mod Register
mod Tests
use workbuddy_cpa_plugin.Base.{
  ℕ, ◌+◌, Bool, true, false, not, ◌&&◌, ◌||◌, List, [], ◌∷◌, Option, none, some, String, ltb, leb,
  nat_eq, string_eq, ◌==◌, if◌then◌else◌, is_some, length, any,
}
use workbuddy_cpa_plugin.Base.Int.{ℤ, pos}
use workbuddy_cpa_plugin.Base.Text.{codes, trim_space, is_empty}

-- `loginTTL`, 30 minutes.
abbrev pub login_ttl : ℕ
login_ttl = 1_800_000_000_000

-- `oauthResultTTL`, 10 minutes.
abbrev pub oauth_result_ttl : ℕ
oauth_result_ttl = 600_000_000_000

abbrev minute : ℕ
minute = 60_000_000_000

-- The profiles that `oauthProfileForModeRegion` makes.
pub data OauthProfile : Type 0 where
  cli workbuddy_cn workbuddy_global : OauthProfile

abbrev pub mode_of : OauthProfile → String
mode_of cli = "cli"
mode_of _ = "workbuddy"

-- `region` in `oauthRecord`: the profile's base address tells it.
abbrev pub region_of : OauthProfile → String
region_of workbuddy_global = "global"
region_of _ = "cn"

pub record TokenData : Type 0 where
  pub access_token : String
  pub refresh_token : String
  pub expires_in : ℤ
  pub domain : String

-- `accountData`.
pub record AccountData : Type 0 where
  pub uid : String
  pub enterprise_id : String
  pub nickname : String

-- The `storedAuth` that a login builds.
pub record LoginAuth : Type 0 where
  pub access_token : String
  pub refresh_token : String
  pub expires_at : ℤ
  pub domain : String
  pub account : AccountData

-- `oauthPendingCookie`: its address, its other attributes, MaxAge, and Expires, where 0 stands for none.
pub record PendingCookie : Type 0 where
  pub url : String
  pub attributes : String
  pub max_age : ℤ
  pub expires : ℕ

abbrev pub is_unexpired : ℕ → PendingCookie → Bool
is_unexpired now c = c.expires == 0 || ltb now c.expires

-- `snapshot` of a jar, whose cookies are listed in the snapshot's order: the expired ones are dropped.
unfoldable pub snapshot : ℕ → List PendingCookie → List PendingCookie
snapshot now [] = []
snapshot now (c ∷ cs) = let rest = snapshot now cs in if is_unexpired now c then c ∷ rest else rest

-- `restoreOAuthCookies`: each cookie goes through `SetCookies` of a new jar. Those of a valid record have
-- no MaxAge; those of a snapshot have a key each, were accepted by a jar before, and are at most as many
-- as a jar takes, so that only a cookie that has expired is left out.
unfoldable pub restore_oauth_cookies : ℕ → List PendingCookie → List PendingCookie
restore_oauth_cookies now [] = []
restore_oauth_cookies now (c ∷ cs) =
    let rest = restore_oauth_cookies now cs in if is_unexpired now c then c ∷ rest else rest

pub record OauthPendingRecord : Type 0 where
  pub version : ℕ
  pub state : String
  pub mode : String
  pub region : String
  pub created : ℕ
  pub expires : ℕ
  pub cookies : List PendingCookie
  pub token : Option TokenData
  pub token_at : ℕ
  pub result : Option LoginAuth
  pub saved : Bool

-- `loginCtx`; `stored` says that it has a store.
pub record LoginCtx : Type 0 where
  pub expires : ℕ
  pub profile : OauthProfile
  pub created : ℕ
  pub token : Option TokenData
  pub token_at : ℕ
  pub result : Option LoginAuth
  pub saved : Bool
  pub cookies : List PendingCookie
  pub stored : Bool

-- The bytes of a rune in UTF-8.
abbrev rune_length : ℕ → ℕ
rune_length c = if ltb c 0x80 then 1 else if ltb c 0x800 then 2 else if ltb c 0x10000 then 3 else 4

unfoldable pub byte_length : List ℕ → ℕ
byte_length [] = 0
byte_length (c ∷ cs) = rune_length c + byte_length cs

unfoldable pub is_plain : List ℕ → Bool
is_plain [] = true
is_plain (c ∷ cs) = if ltb c 0x21 || c == 0x7f then false else is_plain cs

-- `validOAuthState`.
unfoldable pub valid_oauth_state : String → Bool
unfolding byte_length is_plain
valid_oauth_state state =
    if byte_length (codes state) == 0
      || ltb 2048 (byte_length (codes state))
      || not (trim_space state == state)
    then false
    else is_plain (codes state)

abbrev pub is_zero : ℤ → Bool
is_zero (pos n) = n == 0
is_zero _ = false

-- `oauthProfileForModeRegion` on the modes and regions of valid records.
abbrev pub profile_for_mode_region : String → String → OauthProfile
profile_for_mode_region mode region =
    if mode == "workbuddy"
    then (if region == "global" then workbuddy_global else workbuddy_cn)
    else cli

-- `addresses` are the profile's three endpoints, and `cookie_valid` is net/http's `Cookie.Valid`.
abbrev pub addresses : OauthProfile → List String
addresses cli =
    "https://copilot.tencent.com/v2/plugin/auth/state"
    ∷ "https://copilot.tencent.com/v2/plugin/auth/token"
    ∷ "https://copilot.tencent.com/v2/plugin/login/account" ∷ []
addresses workbuddy_cn =
    "https://copilot.tencent.com/v2/plugin/auth/state"
    ∷ "https://copilot.tencent.com/v2/plugin/auth/token"
    ∷ "https://copilot.tencent.com/v2/plugin/login/account" ∷ []
addresses workbuddy_global =
    "https://www.workbuddy.ai/v2/plugin/auth/state"
    ∷ "https://www.workbuddy.ai/v2/plugin/auth/token"
    ∷ "https://www.workbuddy.ai/v2/plugin/login/account" ∷ []

abbrev pub is_valid_cookie : (String → Bool) → OauthProfile → PendingCookie → Bool
is_valid_cookie cookie_valid profile c =
    any (λ a. c.url == a) (addresses profile) && cookie_valid c.attributes && is_zero c.max_age

unfoldable pub all_valid : (String → Bool) → OauthProfile → List PendingCookie → Bool
all_valid cookie_valid profile [] = true
all_valid cookie_valid profile (c ∷ cs) =
    let rest = all_valid cookie_valid profile cs in
    if is_valid_cookie cookie_valid profile c then rest else false

-- `validOAuthPendingCookies`.
unfoldable pub valid_oauth_pending_cookies :
    (String → Bool) → List PendingCookie → OauthProfile → Bool
unfolding all_valid
valid_oauth_pending_cookies cookie_valid cookies profile =
    if ltb 128 (length cookies) then false else all_valid cookie_valid profile cookies

unfoldable pub is_known_realm : OauthPendingRecord → Bool
is_known_realm r =
    (r.mode == "cli" || r.mode == "workbuddy")
    && (r.region == "cn" || r.region == "global")
    && not (r.mode == "cli" && not (r.region == "cn"))

unfoldable pub is_known_time : ℕ → OauthPendingRecord → Bool
is_known_time now r =
    not (r.created == 0)
    && leb r.created (now + minute)
    && ltb r.created r.expires
    && leb r.expires (r.created + (login_ttl + oauth_result_ttl))

unfoldable pub is_known_token : ℕ → OauthPendingRecord → Option TokenData → Bool
is_known_token now r (some t) =
    not (is_empty t.access_token)
    && leb r.created r.token_at
    && leb r.token_at (now + minute)
    && leb r.expires (r.token_at + oauth_result_ttl)
is_known_token now r none =
    not (is_some r.result)
    && not r.saved
    && r.token_at == 0
    && leb r.expires (r.created + login_ttl)

abbrev token_text : Option TokenData → String
token_text none = ""
token_text (some t) = t.access_token

unfoldable pub is_known_result : OauthPendingRecord → Option LoginAuth → Bool
is_known_result r none = not r.saved
is_known_result r (some a) =
    a.access_token == token_text r.token && not (is_empty (trim_space a.account.uid))

-- `validOAuthPendingRecord`.
unfoldable pub valid_oauth_pending_record : (String → Bool) → ℕ → OauthPendingRecord → Bool
unfolding is_known_realm is_known_time is_known_token is_known_result valid_oauth_state
    valid_oauth_pending_cookies
valid_oauth_pending_record cookie_valid now r =
    r.version == 1
    && valid_oauth_state r.state
    && is_known_realm r
    && is_known_time now r
    && is_known_token now r r.token
    && is_known_result r r.result
    && valid_oauth_pending_cookies cookie_valid r.cookies (profile_for_mode_region r.mode r.region)

-- `oauthRecord`.
unfoldable pub oauth_record : ℕ → String → LoginCtx → OauthPendingRecord
unfolding snapshot
oauth_record now state lc = record {
  version = 1;
  state = state;
  mode = mode_of lc.profile;
  region = region_of lc.profile;
  created = lc.created;
  expires = lc.expires;
  cookies = snapshot now lc.cookies;
  token = lc.token;
  token_at = lc.token_at;
  result = lc.result;
  saved = lc.saved;
}

-- The login that `lookupOAuthPending` makes of a record.
unfoldable pub restore : ℕ → OauthPendingRecord → LoginCtx
unfolding restore_oauth_cookies
restore now rec = record {
  expires = rec.expires;
  profile = profile_for_mode_region rec.mode rec.region;
  created = rec.created;
  token = rec.token;
  token_at = rec.token_at;
  result = rec.result;
  saved = rec.saved;
  cookies = restore_oauth_cookies now rec.cookies;
  stored = true;
}
