-- ===== src/Login/Tests.antt =====
-- The theorems on logins at a concrete login.
use workbuddy_cpa_plugin.Base.{
  ◌+◌, ◌≡◌, ◌≤◌, refl, Bool, true, false, List, [], ◌∷◌, none, some, String, arith, length,
}
use workbuddy_cpa_plugin.Base.Int.{pos}
use workbuddy_cpa_plugin.Base.Lists.{any}
use workbuddy_cpa_plugin.Base.Text.{trim_space}
use workbuddy_cpa_plugin.Base.Maps.{lookup}
use workbuddy_cpa_plugin.Login.{
  LoginCtx, cli, valid_oauth_state, valid_oauth_pending_record, oauth_record, restore, snapshot,
  all_valid, valid_oauth_pending_cookies,
}
use workbuddy_cpa_plugin.Login.Poll.{World, Flow, in_states, token, account, poll_oauth_pending}
use workbuddy_cpa_plugin.Login.Kept.{IsLogin, restore-oauth_record}
use workbuddy_cpa_plugin.Login.Checked.{poll_oauth_pending-IsLogin}
use workbuddy_cpa_plugin.Login.Once.{polls, polls_once, total, tokens, accounts, saves}
use workbuddy_cpa_plugin.Login.Register.{
  OauthPending, register_oauth_pending, lookup_oauth_pending, remove_oauth_pending,
  register_oauth_pending-lookup, oauth_pending_max_files,
}

abbrev any_cookie : String → Bool
any_cookie c = true

abbrev started : LoginCtx
started = record {
  expires = 1_800_000_000_007;
  profile = cli;
  created = 7;
  token = none;
  token_at = 0;
  result = none;
  saved = false;
  cookies =
      record {
        url = "https://copilot.tencent.com/v2/plugin/auth/token";
        attributes = "s=1";
        max_age = pos 0;
        expires = 50;
      }
      ∷ [];
  stored = true;
}

started-IsLogin : IsLogin any_cookie 8 started
unfolding valid_oauth_pending_cookies all_valid any
started-IsLogin = record {
  started = omega arith;
  past = omega arith;
  lasts = omega arith;
  cookies_valid = refl;
  timed = (refl, refl, refl, omega arith);
  resulted = refl;
}

valid_abc : valid_oauth_state "abc" ≡ true
unfolding valid_oauth_state trim_space
valid_abc = refl

abbrev flow : Flow
flow = record { lc = started; disk = none; place = in_states; used = [] }

abbrev world : World
world = record {
  now = 8;
  arrival = 9;
  token_cookies = [];
  account_cookies = [];
  routed = true;
  token_reply =
      token (record { access_token = "t"; refresh_token = "r"; expires_in = pos 60; domain = "d" });
  account_reply = account (record { uid = "u"; enterprise_id = ""; nickname = "n" });
  before_account = true;
  after_account = true;
  after_result = true;
  encodes = true;
  saves = true;
  after_save = true;
}

abbrev pending : OauthPending
pending = record { init_error = false; has_store = true; recent = []; states = []; files = [] }

restore-oauth_record_example :
    (valid_oauth_pending_record any_cookie 90 (oauth_record 8 "abc" started) ≡ true)
    × (restore 90 (oauth_record 8 "abc" started)
        ≡ record started { cookies = snapshot 90 started.cookies })
restore-oauth_record_example =
    restore-oauth_record any_cookie "abc" 8 90 started valid_abc refl started-IsLogin (omega arith)

poll_oauth_pending-IsLogin_example :
    IsLogin any_cookie 9 (poll_oauth_pending any_cookie "abc" world true flow).0.lc
    × (valid_oauth_pending_record any_cookie 9
          (oauth_record 9 "abc" (poll_oauth_pending any_cookie "abc" world true flow).0.lc)
        ≡ true)
unfolding valid_oauth_pending_cookies
poll_oauth_pending-IsLogin_example =
    poll_oauth_pending-IsLogin any_cookie "abc" world true flow valid_abc (omega arith) (refl, refl)
      started-IsLogin

abbrev twice : List (World × Bool)
twice = (world, true) ∷ (world, true) ∷ []

polls_once_example :
    (total tokens (polls any_cookie "abc" twice flow).used ≤ 1)
    × (total accounts (polls any_cookie "abc" twice flow).used ≤ 1)
    × (total saves (polls any_cookie "abc" twice flow).used ≤ 1)
unfolding total
polls_once_example =
    polls_once any_cookie "abc" twice flow
      (record { once_token = refl; once_account = refl; once_saved = refl })

register_oauth_pending-lookup_example :
    ((lookup_oauth_pending 9 "abc"
        (register_oauth_pending any_cookie true 8 "abc" started pending).0).1
      ≡ some started)
    × ((lookup_oauth_pending 9 "abc" (
          remove_oauth_pending "abc" started
            (register_oauth_pending any_cookie true 8 "abc" started pending).0)).1
        ≡ none)
    × (length (register_oauth_pending any_cookie true 8 "abc" started pending).0.recent
          + length (register_oauth_pending any_cookie true 8 "abc" started pending).0.states
        ≤ oauth_pending_max_files)
unfolding register_oauth_pending valid_oauth_pending_record oauth_record lookup trim_space any
register_oauth_pending-lookup_example =
    register_oauth_pending-lookup any_cookie true 8 9 "abc" started pending refl tt tt tt
