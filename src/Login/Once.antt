-- ===== src/Login/Once.antt =====
-- A login's token, its account and the save of its credential are each consumed at most once, however
-- often the login is polled.
use workbuddy_cpa_plugin.Base.{
  ℕ, ◌+◌, ◌≤◌, ◌≡◌, inl, inr, refl, sym, ap, subst, Bool, true, false, not, ◌||◌, List, [], ◌∷◌,
  Option, none, some, String, if◌then◌else◌, is_some, leb, ◌∙◌, arith, Bool-cases, Option-cases,
}
use workbuddy_cpa_plugin.Base.Text.{is_empty}
use workbuddy_cpa_plugin.Login.{TokenData, LoginCtx, PendingCookie, valid_oauth_state}
use workbuddy_cpa_plugin.Login.Poll.{
  World, Flow, Outcome, Use, token_used, account_used, saved_used, TokenReply, AccountReply,
  no_request, token_error, no_token, token, no_client, account_error, unparsed, account, persist,
  ask_token, take_account, ask_account, need_token, finish_login, save, poll_oauth_pending,
  build_login_stored_auth, and_then, checkpoint, answer, is_asked, reaches, receive, Place,
  in_recent, fails, account_missing, request_failed, not_routed,
}

abbrev pub tokens : Use → ℕ
tokens token_used = 1
tokens _ = 0

abbrev pub accounts : Use → ℕ
accounts account_used = 1
accounts _ = 0

abbrev pub saves : Use → ℕ
saves saved_used = 1
saves _ = 0

unfoldable pub total : (Use → ℕ) → List Use → ℕ
total size [] = 0
total size (u ∷ us) = size u + total size us

abbrev pub bit : Bool → ℕ
bit true = 1
bit false = 0

-- What has been used up is what the login holds.
pub record IsOnce (f : Flow) : Type 0 where
  pub once_token : total tokens f.used ≡ bit (is_some f.lc.token)
  pub once_account : total accounts f.used ≡ bit (is_some f.lc.result)
  pub once_saved : total saves f.used ≡ bit f.lc.saved

module _ (cookie_valid : String → Bool) (state : String) where
  persist_same :
      (writes : Bool) (now : ℕ) (f : Flow)
      → ((persist cookie_valid state writes now f).0.lc ≡ f.lc)
        × ((persist cookie_valid state writes now f).0.used ≡ f.used)
  unfolding persist
  persist_same writes now f = ground arith

  persist-IsOnce :
      (writes : Bool) (now : ℕ) (f : Flow)
      → IsOnce f
      → IsOnce (persist cookie_valid state writes now f).0
  persist-IsOnce writes now f h =
      let p = persist_same writes now f in
      record {
        once_token = rw (p.0, p.1) h.once_token;
        once_account = rw (p.0, p.1) h.once_account;
        once_saved = rw (p.0, p.1) h.once_saved;
      }

  and_then-IsOnce :
      (s : Flow × Option Outcome) (next : Flow → Flow × Option Outcome)
      → IsOnce s.0
      → ((f : Flow) → IsOnce f → IsOnce (next f).0)
      → IsOnce (and_then cookie_valid state s next).0
  and_then-IsOnce (f, none) next h k = k f h
  and_then-IsOnce (f, some o) next h k = h

  moved : (s s' : Flow × Option Outcome) → s ≡ s' → IsOnce s'.0 → IsOnce s.0
  moved s s' e h = subst (λ (s : Flow × Option Outcome). IsOnce s.0) (sym e) h

  kept_place : (f : Flow) (p : Place) → IsOnce f → IsOnce (record f { place = p })
  kept_place f p h = record {
    once_token = h.once_token;
    once_account = h.once_account;
    once_saved = h.once_saved;
  }

  received-IsOnce :
      (f : Flow) (cookies : List PendingCookie)
      → IsOnce f
      → IsOnce (receive cookie_valid state cookies f)
  received-IsOnce f cookies h = record {
    once_token = h.once_token;
    once_account = h.once_account;
    once_saved = h.once_saved;
  }

  same-IsOnce :
      (s : Flow × Option Outcome) (lc : LoginCtx) (next : Flow → Flow × Option Outcome)
      → s.0.lc ≡ lc
      → IsOnce s.0
      → ((f : Flow) → f.lc ≡ lc → IsOnce f → IsOnce (next f).0)
      → IsOnce (and_then cookie_valid state s next).0
  same-IsOnce (f, none) lc next e h k = k f e h
  same-IsOnce (f, some o) lc next e h k = h

  ask_token-IsOnce :
      (w : World) (reply : TokenReply) (f : Flow)
      → f.lc.token ≡ none
      → IsOnce f
      → IsOnce (ask_token cookie_valid state w reply f).0
  unfolding ask_token total
  ask_token-IsOnce w no_request f e h = h
  ask_token-IsOnce w (token_error status) f e h = persist-IsOnce w.before_account w.now f h
  ask_token-IsOnce w no_token f e h = persist-IsOnce w.before_account w.now f h
  ask_token-IsOnce w (token t) f e h = elim (Bool-cases (is_empty t.access_token)) [
    | inl blank ↦ rw blank (persist-IsOnce w.before_account w.now f h)
    | inr full ↦
        let none_yet : total tokens f.used ≡ 0 = (rw e at h.once_token) in
        rw full (record {
          once_token = rw none_yet refl;
          once_account = omega (arith, h.once_account);
          once_saved = omega (arith, h.once_saved);
        })
  ]

  take_account-IsOnce :
      (w : World) (t : TokenData) (reply : AccountReply) (f : Flow)
      → f.lc.result ≡ none
      → IsOnce f
      → IsOnce (take_account cookie_valid state w t reply f).0
  unfolding take_account total
  take_account-IsOnce w t no_client f e h = h
  take_account-IsOnce w t no_request f e h = h
  take_account-IsOnce w t (account_error status) f e h =
      persist-IsOnce w.after_account w.arrival f h
  take_account-IsOnce w t unparsed f e h = h
  take_account-IsOnce w t (account a) f e h =
      elim (Option-cases (build_login_stored_auth t f.lc.token_at a)) [
        | inl q ↦
            moved (take_account cookie_valid state w t (account a) f)
              (f, some (fails account_missing)) (ground (arith, q)) h
        | inr (r, q) ↦
            let none_yet : total accounts f.used ≡ 0 = (rw e at h.once_account) in
            moved (take_account cookie_valid state w t (account a) f)
              (
                record f { lc = record f.lc { result = some r }; used = account_used ∷ f.used },
                none,
              )
              (ground (arith, q))
              (record {
                once_token = omega (arith, h.once_token);
                once_account = rw none_yet refl;
                once_saved = omega (arith, h.once_saved);
              })
      ]

  replied-IsOnce :
      (w : World) (t : TokenData) (g : Flow)
      → g.lc.result ≡ none
      → IsOnce g
      → IsOnce
          (if reaches w.account_reply
            then take_account cookie_valid state w t w.account_reply
                (receive cookie_valid state w.account_cookies g)
            else take_account cookie_valid state w t w.account_reply g).0
  replied-IsOnce w t g e h = elim (Bool-cases (reaches w.account_reply)) [
    | inl sent ↦ rw sent (
        take_account-IsOnce w t w.account_reply (receive cookie_valid state w.account_cookies g) e
          (received-IsOnce g w.account_cookies h))
    | inr refused ↦ rw refused (take_account-IsOnce w t w.account_reply g e h)
  ]

  ask_account-IsOnce :
      (w : World) (t : TokenData) (f : Flow)
      → IsOnce f
      → IsOnce (ask_account cookie_valid state w t f).0
  unfolding ask_account
  ask_account-IsOnce w t f h = elim (Option-cases f.lc.result) [
    | inr (r, q) ↦ moved (ask_account cookie_valid state w t f) (f, none) (rw q refl) h
    | inl q ↦
        let take : Flow → Flow × Option Outcome = λ g.
          if reaches w.account_reply
          then take_account cookie_valid state w t w.account_reply
              (receive cookie_valid state w.account_cookies g)
          else take_account cookie_valid state w t w.account_reply g in
        moved (ask_account cookie_valid state w t f)
          (and_then cookie_valid state
            (checkpoint cookie_valid state w.before_account w.arrival none f) take)
          (rw q refl)
          (same-IsOnce (checkpoint cookie_valid state w.before_account w.arrival none f) f.lc take
            (persist_same w.before_account w.arrival f).0
            (persist-IsOnce w.before_account w.arrival f h)
            (λ g same hg. replied-IsOnce w t g (ap (λ (lc : LoginCtx). lc.result) same ∙ q) hg))
  ]

  save-IsOnce :
      (w : World) (panel : Bool) (f : Flow)
      → IsOnce f
      → IsOnce (save cookie_valid state w panel f).0
  unfolding save total
  save-IsOnce w panel f h = elim (Bool-cases (not panel || f.lc.saved)) [
    | inl done ↦ rw done h
    | inr now ↦ elim (Bool-cases (not w.encodes)) [
      | inl e ↦ rw (now, e) h
      | inr e ↦ elim (Bool-cases (not w.saves)) [
        | inl s ↦ rw (now, e, s) h
        | inr s ↦
            let unsaved : f.lc.saved ≡ false = ground (arith, now) in
            let none_yet : total saves f.used ≡ 0 = (rw unsaved at h.once_saved) in
            rw (now, e, s)
              (persist-IsOnce w.after_save w.arrival
                (record f { lc = record f.lc { saved = true }; used = saved_used ∷ f.used })
                (record {
                  once_token = omega (arith, h.once_token);
                  once_account = omega (arith, h.once_account);
                  once_saved = rw none_yet refl;
                }))
      ]
    ]
  ]

  need_token-IsOnce :
      (w : World) (f : Flow) → IsOnce f → IsOnce (need_token cookie_valid state w f).0
  unfolding need_token
  need_token-IsOnce w f h = elim (Option-cases f.lc.token) [
    | inr (t, q) ↦ moved (need_token cookie_valid state w f) (f, none) (rw q refl) h
    | inl q ↦ elim (Bool-cases w.routed) [
      | inr stuck ↦
          moved (need_token cookie_valid state w f)
            (record f { place = in_recent }, some (fails not_routed)) (rw (q, stuck) refl)
            (kept_place f in_recent h)
      | inl free ↦ elim (Bool-cases (is_asked w.token_reply)) [
        | inl sent ↦
            let g = receive cookie_valid state w.token_cookies f in
            moved (need_token cookie_valid state w f)
              (ask_token cookie_valid state w w.token_reply g) (rw (q, free, sent) refl)
              (ask_token-IsOnce w w.token_reply g q (received-IsOnce f w.token_cookies h))
        | inr unsent ↦
            moved (need_token cookie_valid state w f) (f, some (fails request_failed))
              (rw (q, free, unsent) refl) h
      ]
    ]
  ]

  finish_login-IsOnce :
      (w : World) (panel : Bool) (f : Flow)
      → IsOnce f
      → IsOnce (finish_login cookie_valid state w panel f).0
  unfolding finish_login
  finish_login-IsOnce w panel f h = elim (Option-cases f.lc.token) [
    | inl q ↦
        moved (finish_login cookie_valid state w panel f) (f, some (fails request_failed))
          (rw q refl) h
    | inr (t, q) ↦
        moved (finish_login cookie_valid state w panel f)
          (and_then cookie_valid state (ask_account cookie_valid state w t f) (λ g.
            and_then cookie_valid state
              (checkpoint cookie_valid state w.after_result w.arrival none g)
              (λ k. save cookie_valid state w panel k)))
          (rw q refl)
          (and_then-IsOnce (ask_account cookie_valid state w t f) _ (ask_account-IsOnce w t f h)
            (λ g hg.
              and_then-IsOnce (checkpoint cookie_valid state w.after_result w.arrival none g) _
                (persist-IsOnce w.after_result w.arrival g hg) (λ k hk. save-IsOnce w panel k hk)))
  ]

  answer_same : (f : Flow) → (answer cookie_valid state (f, none)).0 ≡ f
  answer_same f = ground arith

  answer-IsOnce : (s : Flow × Option Outcome) → IsOnce s.0 → IsOnce (answer cookie_valid state s).0
  answer-IsOnce (f, some o) h = h
  answer-IsOnce (f, none) h = subst IsOnce (sym (answer_same f)) h

  poll-IsOnce :
      (w : World) (panel : Bool) (f : Flow)
      → IsOnce f
      → IsOnce (poll_oauth_pending cookie_valid state w panel f).0
  unfolding poll_oauth_pending
  poll-IsOnce w panel f h =
      let s =
        and_then cookie_valid state (need_token cookie_valid state w f)
          (finish_login cookie_valid state w panel) in
      let going : IsOnce (answer cookie_valid state s).0 = answer-IsOnce s (
        and_then-IsOnce (need_token cookie_valid state w f) _ (need_token-IsOnce w f h)
          (λ g hg. finish_login-IsOnce w panel g hg)) in
      elim (Bool-cases (not (valid_oauth_state state))) [
        | inl bad ↦ rw bad h
        | inr good ↦ elim (Bool-cases (leb f.lc.expires w.now)) [
          | inl over ↦
              rw (good, over)
                (record {
                  once_token = h.once_token;
                  once_account = h.once_account;
                  once_saved = h.once_saved;
                })
          | inr open_yet ↦ rw (good, open_yet) going
        ]
      ]

  -- A login that is polled again and again, by the panel or by the host.
  unfoldable pub polls : List (World × Bool) → Flow → Flow
  polls [] f = f
  polls ((w, panel) ∷ ws) f = polls ws (poll_oauth_pending cookie_valid state w panel f).0

  polls-IsOnce : (ws : List (World × Bool)) (f : Flow) → IsOnce f → IsOnce (polls ws f)
  unfolding polls
  polls-IsOnce [] f h = h
  polls-IsOnce ((w, panel) ∷ ws) f h =
      polls-IsOnce ws (poll_oauth_pending cookie_valid state w panel f).0 (poll-IsOnce w panel f h)

  bit_le : (b : Bool) → bit b ≤ 1
  bit_le true = omega arith
  bit_le false = omega arith

  -- However often a login is polled, by the panel or by the host, whatever the replies are and whatever
  -- writes fail, its token is obtained from upstream at most once, its account at most once, and the host
  -- acknowledges the save of its credential at most once. What has been used up at the start must be what
  -- the login holds then, as for a new login.
  pub polls_once :
      (ws : List (World × Bool)) (f : Flow)
      → IsOnce f
      → (total tokens (polls ws f).used ≤ 1)
        × (total accounts (polls ws f).used ≤ 1)
        × (total saves (polls ws f).used ≤ 1)
  polls_once ws f h =
      let k = polls-IsOnce ws f h in
      (rw k.once_token (bit_le _), rw k.once_account (bit_le _), rw k.once_saved (bit_le _))
