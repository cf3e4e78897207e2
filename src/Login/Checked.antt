-- ===== src/Login/Checked.antt =====
-- A poll keeps the times, the token and the result of a login together, so that its checkpoints are valid.
use workbuddy_cpa_plugin.Base.{
  ℕ, ◌≤◌, ◌≡◌, ◌⊎◌, inl, inr, refl, sym, ap, subst, ◌∙◌, Bool, true, false, not, ◌||◌, List, ◌∷◌,
  Option, none, some, String, leb, nat_eq, string_eq, if◌then◌else◌, is_some, arith, Bool-cases,
  Option-cases,
}
use workbuddy_cpa_plugin.Base.Text.{is_empty, trim_space}
use workbuddy_cpa_plugin.Login.{
  TokenData, AccountData, LoginAuth, OauthProfile, LoginCtx, PendingCookie, valid_oauth_state,
  valid_oauth_pending_record, valid_oauth_pending_cookies, oauth_record,
}
use workbuddy_cpa_plugin.Login.Poll.{
  World, Flow, Outcome, TokenReply, AccountReply, no_request, token_error, no_token, token,
  no_client, account_error, unparsed, account, persist, ask_token, take_account, ask_account,
  need_token, finish_login, and_then, checkpoint, receive, account_missing, account_used, fails,
  request_failed, not_routed, in_recent, saved_used, answer, save, poll_oauth_pending,
  build_login_stored_auth, is_asked, reaches,
}
use workbuddy_cpa_plugin.Login.Kept.{
  Timed, IsTimed, IsResult, IsLogin, IsLogin-later, valid_oauth_pending_record-IsLogin,
}

module _ (cookie_valid : String → Bool) (state : String) where
  -- The cookies after the requests are valid.
  abbrev pub IsServed : World → LoginCtx → Type 0
  IsServed w lc =
      (valid_oauth_pending_cookies cookie_valid w.token_cookies lc.profile ≡ true)
      × (valid_oauth_pending_cookies cookie_valid w.account_cookies lc.profile ≡ true)

  persist_lc :
      (writes : Bool) (now : ℕ) (f : Flow) → (persist cookie_valid state writes now f).0.lc ≡ f.lc
  unfolding persist
  persist_lc writes now f = ground arith

  received :
      (now : ℕ) (lc : LoginCtx) (cookies : List PendingCookie)
      → valid_oauth_pending_cookies cookie_valid cookies lc.profile ≡ true
      → IsLogin cookie_valid now lc
      → IsLogin cookie_valid now (record lc { cookies = cookies })
  received now lc cookies valid h = record {
    started = h.started;
    past = h.past;
    lasts = h.lasts;
    cookies_valid = valid;
    timed = h.timed;
    resulted = h.resulted;
  }

  unsaved :
      (now : ℕ) (lc : LoginCtx) (t : Option TokenData)
      → t ≡ none
      → Timed now lc t
      → (lc.result ≡ none) × (lc.saved ≡ false)
  unsaved now lc none e h = (h.0, h.1)
  unsaved now lc (some t) e h = cc

  IsTimed-result :
      (now created expires token_at : ℕ) (old new : Option LoginAuth) (before after : Bool)
      (t : Option TokenData)
      → is_some t ≡ true
      → IsTimed now created expires token_at old before t
      → IsTimed now created expires token_at new after t
  IsTimed-result now created expires token_at old new before after none e h = cc
  IsTimed-result now created expires token_at old new before after (some t) e h = h

  -- The login of a flow, and what it has obtained.
  abbrev pub IsAt : ℕ → Bool → Bool → Flow → Type 0
  IsAt now t r f =
      IsLogin cookie_valid now f.lc
      × ((t ≡ false) ⊎ (is_some f.lc.token ≡ true))
      × ((r ≡ false) ⊎ (is_some f.lc.result ≡ true))

  -- A stage that goes on has obtained what it is for.
  abbrev IsStage : ℕ → Bool → Bool → Flow × Option Outcome → Type 0
  IsStage now t r (f, none) = IsAt now t r f
  IsStage now t r (f, some o) = IsLogin cookie_valid now f.lc

  and_then-IsStage :
      (now : ℕ) (t r t' r' : Bool) (s : Flow × Option Outcome) (next : Flow → Flow × Option Outcome)
      → IsStage now t r s
      → ((f : Flow) → IsAt now t r f → IsStage now t' r' (next f))
      → IsStage now t' r' (and_then cookie_valid state s next)
  and_then-IsStage now t r t' r' (f, none) next h k = k f h
  and_then-IsStage now t r t' r' (f, some o) next h k = h

  -- The same for a stage that leaves the login alone.
  same-IsStage :
      (now : ℕ) (t r : Bool) (s : Flow × Option Outcome) (lc : LoginCtx)
      (next : Flow → Flow × Option Outcome)
      → s.0.lc ≡ lc
      → IsLogin cookie_valid now lc
      → ((f : Flow) → f.lc ≡ lc → IsStage now t r (next f))
      → IsStage now t r (and_then cookie_valid state s next)
  same-IsStage now t r (f, none) lc next e h k = k f e
  same-IsStage now t r (f, some o) lc next e h k = subst (IsLogin cookie_valid now) (sym e) h

  stop-IsStage :
      (now at : ℕ) (writes : Bool) (t r : Bool) (o : Outcome) (f : Flow)
      → IsLogin cookie_valid now f.lc
      → IsStage now t r (checkpoint cookie_valid state writes at (some o) f)
  stop-IsStage now at writes t r o f h =
      elim (Bool-cases (persist cookie_valid state writes at f).1) [
        | inl kept ↦ rw (kept, persist_lc writes at f) h
        | inr lost ↦ rw (lost, persist_lc writes at f) h
      ]

  checkpoint-IsStage :
      (now at : ℕ) (writes : Bool) (t r : Bool) (f : Flow)
      → IsAt now t r f
      → IsStage now t r (checkpoint cookie_valid state writes at none f)
  checkpoint-IsStage now at writes t r f h =
      elim (Bool-cases (persist cookie_valid state writes at f).1) [
        | inl kept ↦ rw (kept, persist_lc writes at f) h
        | inr lost ↦ rw (lost, persist_lc writes at f) h.0
      ]

  ask_token-IsStage :
      (w : World) (reply : TokenReply) (f : Flow)
      → f.lc.token ≡ none
      → IsLogin cookie_valid w.arrival f.lc
      → IsStage w.arrival true false (ask_token cookie_valid state w reply f)
  unfolding ask_token
  ask_token-IsStage w no_request f e h = h
  ask_token-IsStage w (token_error status) f e h =
      stop-IsStage w.arrival w.now w.before_account true false _ f h
  ask_token-IsStage w no_token f e h =
      stop-IsStage w.arrival w.now w.before_account true false _ f h
  ask_token-IsStage w (token t) f e h = elim (Bool-cases (is_empty t.access_token)) [
    | inl blank ↦ rw blank (stop-IsStage w.arrival w.now w.before_account true false _ f h)
    | inr full ↦
        let u = unsaved w.arrival f.lc f.lc.token e h.timed in
        rw full (
          record {
            started = h.started;
            past = h.past;
            lasts = ground (arith, h.started, h.past);
            cookies_valid = h.cookies_valid;
            timed = (full, h.past, omega arith, ground arith, ground arith);
            resulted = rw u.0 u.1;
          },
          inr refl,
          inl refl,
        )
  ]

  staged :
      (now : ℕ) (t r : Bool) (s s' : Flow × Option Outcome)
      → s ≡ s'
      → IsStage now t r s'
      → IsStage now t r s
  staged now t r s s' e h = subst (IsStage now t r) (sym e) h

  built :
      (t : TokenData) (at : ℕ) (a : AccountData) (r : LoginAuth)
      → build_login_stored_auth t at a ≡ some r
      → (r.access_token ≡ t.access_token) × (is_empty (trim_space r.account.uid) ≡ false)
  unfolding build_login_stored_auth
  built t at a r e = ground arith

  token-some : (f : Flow) (t : TokenData) → f.lc.token ≡ some t → is_some f.lc.token ≡ true
  token-some f t e = rw e refl

  take_account-IsStage :
      (w : World) (t : TokenData) (reply : AccountReply) (f : Flow)
      → f.lc.token ≡ some t
      → IsLogin cookie_valid w.arrival f.lc
      → IsStage w.arrival true true (take_account cookie_valid state w t reply f)
  unfolding take_account
  take_account-IsStage w t no_client f e h = h
  take_account-IsStage w t no_request f e h = h
  take_account-IsStage w t (account_error status) f e h =
      stop-IsStage w.arrival w.arrival w.after_account true true _ f h
  take_account-IsStage w t unparsed f e h = h
  take_account-IsStage w t (account a) f e h =
      elim (Option-cases (build_login_stored_auth t f.lc.token_at a)) [
        | inl q ↦
            staged w.arrival true true (take_account cookie_valid state w t (account a) f)
              (f, some (fails account_missing)) (ground (arith, q)) h
        | inr (r, q) ↦
            let b = built t f.lc.token_at a r q in
            staged w.arrival true true (take_account cookie_valid state w t (account a) f)
              (
                record f { lc = record f.lc { result = some r }; used = account_used ∷ f.used },
                none,
              )
              (ground (arith, q))
              (
                record {
                  started = h.started;
                  past = h.past;
                  lasts = h.lasts;
                  cookies_valid = h.cookies_valid;
                  timed =
                      IsTimed-result w.arrival f.lc.created f.lc.expires f.lc.token_at f.lc.result
                        (some r) f.lc.saved f.lc.saved f.lc.token (token-some f t e) h.timed;
                  resulted = (rw e b.0, b.1);
                },
                inr (token-some f t e),
                inr refl,
              )
      ]

  replied :
      (w : World) (t : TokenData) (g : Flow)
      → g.lc.token ≡ some t
      → valid_oauth_pending_cookies cookie_valid w.account_cookies g.lc.profile ≡ true
      → IsLogin cookie_valid w.arrival g.lc
      → IsStage w.arrival true true (
          if reaches w.account_reply
          then take_account cookie_valid state w t w.account_reply
              (receive cookie_valid state w.account_cookies g)
          else take_account cookie_valid state w t w.account_reply g)
  replied w t g e valid h = elim (Bool-cases (reaches w.account_reply)) [
    | inl sent ↦ rw sent (
        take_account-IsStage w t w.account_reply (receive cookie_valid state w.account_cookies g) e
          (received w.arrival g.lc w.account_cookies valid h))
    | inr refused ↦ rw refused (take_account-IsStage w t w.account_reply g e h)
  ]

  ask_account-IsStage :
      (w : World) (t : TokenData) (f : Flow)
      → f.lc.token ≡ some t
      → valid_oauth_pending_cookies cookie_valid w.account_cookies f.lc.profile ≡ true
      → IsLogin cookie_valid w.arrival f.lc
      → IsStage w.arrival true true (ask_account cookie_valid state w t f)
  unfolding ask_account
  ask_account-IsStage w t f e valid h = elim (Option-cases f.lc.result) [
    | inr (r, q) ↦
        staged w.arrival true true (ask_account cookie_valid state w t f) (f, none) (rw q refl)
          (h, inr (token-some f t e), inr (rw q refl))
    | inl q ↦
        let take : Flow → Flow × Option Outcome = λ g.
          if reaches w.account_reply
          then take_account cookie_valid state w t w.account_reply
              (receive cookie_valid state w.account_cookies g)
          else take_account cookie_valid state w t w.account_reply g in
        staged w.arrival true true (ask_account cookie_valid state w t f)
          (and_then cookie_valid state
            (checkpoint cookie_valid state w.before_account w.arrival none f) take)
          (rw q refl)
          (same-IsStage w.arrival true true
            (checkpoint cookie_valid state w.before_account w.arrival none f) f.lc take
            (persist_lc w.before_account w.arrival f) h
            (λ g same.
              replied w t g (ap (λ (lc : LoginCtx). lc.token) same ∙ e)
                (subst
                  (λ (lc : LoginCtx).
                    valid_oauth_pending_cookies cookie_valid w.account_cookies lc.profile ≡ true)
                  (sym same) valid)
                (subst (IsLogin cookie_valid w.arrival) (sym same) h)))
  ]

  IsResult-saved :
      (t : Option TokenData) (before after : Bool) (r : Option LoginAuth)
      → is_some r ≡ true
      → IsResult t before r
      → IsResult t after r
  IsResult-saved t before after none e h = cc
  IsResult-saved t before after (some r) e h = h

  is_set : (b : Bool) → (true ≡ false) ⊎ (b ≡ true) → b ≡ true
  is_set b h = ground (arith, h)

  saved-IsLogin :
      (now : ℕ) (f : Flow)
      → IsAt now true true f
      → IsLogin cookie_valid now (record f.lc { saved = true })
  saved-IsLogin now f h = record {
    started = h.0.started;
    past = h.0.past;
    lasts = h.0.lasts;
    cookies_valid = h.0.cookies_valid;
    timed =
        IsTimed-result now f.lc.created f.lc.expires f.lc.token_at f.lc.result f.lc.result
          f.lc.saved true f.lc.token (is_set (is_some f.lc.token) h.1) h.0.timed;
    resulted =
        IsResult-saved f.lc.token f.lc.saved true f.lc.result (is_set (is_some f.lc.result) h.2)
          h.0.resulted;
  }

  save-IsStage :
      (w : World) (panel : Bool) (f : Flow)
      → IsAt w.arrival true true f
      → IsStage w.arrival true true (save cookie_valid state w panel f)
  unfolding save
  save-IsStage w panel f h = elim (Bool-cases (not panel || f.lc.saved)) [
    | inl done ↦ rw done h
    | inr now ↦ elim (Bool-cases (not w.encodes)) [
      | inl e ↦ rw (now, e) h.0
      | inr e ↦ elim (Bool-cases (not w.saves)) [
        | inl s ↦ rw (now, e, s) h.0
        | inr s ↦
            rw (now, e, s)
              (checkpoint-IsStage w.arrival w.arrival w.after_save true true
                (record f { lc = record f.lc { saved = true }; used = saved_used ∷ f.used })
                (saved-IsLogin w.arrival f h, h.1, h.2))
      ]
    ]
  ]

  finish_login-IsStage :
      (w : World) (panel : Bool) (f : Flow)
      → valid_oauth_pending_cookies cookie_valid w.account_cookies f.lc.profile ≡ true
      → IsLogin cookie_valid w.arrival f.lc
      → IsStage w.arrival true true (finish_login cookie_valid state w panel f)
  unfolding finish_login
  finish_login-IsStage w panel f valid h = elim (Option-cases f.lc.token) [
    | inl q ↦
        staged w.arrival true true (finish_login cookie_valid state w panel f)
          (f, some (fails request_failed)) (rw q refl) h
    | inr (t, q) ↦
        staged w.arrival true true (finish_login cookie_valid state w panel f)
          (and_then cookie_valid state (ask_account cookie_valid state w t f) (λ g.
            and_then cookie_valid state
              (checkpoint cookie_valid state w.after_result w.arrival none g)
              (λ k. save cookie_valid state w panel k)))
          (rw q refl)
          (and_then-IsStage w.arrival true true true true (ask_account cookie_valid state w t f) _
            (ask_account-IsStage w t f q valid h)
            (λ g hg.
              same-IsStage w.arrival true true
                (checkpoint cookie_valid state w.after_result w.arrival none g) g.lc
                (λ k. save cookie_valid state w panel k) (persist_lc w.after_result w.arrival g)
                hg.0
                (λ k same. save-IsStage w panel k (
                  subst
                    (λ (lc : LoginCtx).
                      IsLogin cookie_valid w.arrival lc
                      × ((true ≡ false) ⊎ (is_some lc.token ≡ true))
                      × ((true ≡ false) ⊎ (is_some lc.result ≡ true)))
                    (sym same) hg))))
  ]

  stage-IsLogin :
      (now : ℕ) (t r : Bool) (s : Flow × Option Outcome)
      → IsStage now t r s
      → IsLogin cookie_valid now s.0.lc
  stage-IsLogin now t r (f, none) h = h.0
  stage-IsLogin now t r (f, some o) h = h

  answer_lc : (s : Flow × Option Outcome) → (answer cookie_valid state s).0.lc ≡ s.0.lc
  answer_lc (f, some o) = refl
  answer_lc (f, none) = elim (Option-cases f.lc.result) [
    | inl e ↦ rw e refl
    | inr (r, e) ↦ rw e refl
  ]

  need_token-IsStage :
      (w : World) (f : Flow)
      → valid_oauth_pending_cookies cookie_valid w.token_cookies f.lc.profile ≡ true
      → IsLogin cookie_valid w.arrival f.lc
      → IsStage w.arrival true false (need_token cookie_valid state w f)
  unfolding need_token
  need_token-IsStage w f valid h = elim (Option-cases f.lc.token) [
    | inr (t, q) ↦
        staged w.arrival true false (need_token cookie_valid state w f) (f, none) (rw q refl)
          (h, inr (token-some f t q), inl refl)
    | inl q ↦ elim (Bool-cases w.routed) [
      | inr stuck ↦
          staged w.arrival true false (need_token cookie_valid state w f)
            (record f { place = in_recent }, some (fails not_routed)) (rw (q, stuck) refl) h
      | inl free ↦ elim (Bool-cases (is_asked w.token_reply)) [
        | inl sent ↦
            let g = receive cookie_valid state w.token_cookies f in
            staged w.arrival true false (need_token cookie_valid state w f)
              (ask_token cookie_valid state w w.token_reply g) (rw (q, free, sent) refl)
              (ask_token-IsStage w w.token_reply g q
                (received w.arrival f.lc w.token_cookies valid h))
        | inr unsent ↦
            staged w.arrival true false (need_token cookie_valid state w f)
              (f, some (fails request_failed)) (rw (q, free, unsent) refl) h
      ]
    ]
  ]

  ask_token_profile :
      (w : World) (reply : TokenReply) (f : Flow)
      → (ask_token cookie_valid state w reply f).0.lc.profile ≡ f.lc.profile
  unfolding ask_token
  ask_token_profile w no_request f = refl
  ask_token_profile w (token_error status) f = rw (persist_lc w.before_account w.now f) refl
  ask_token_profile w no_token f = rw (persist_lc w.before_account w.now f) refl
  ask_token_profile w (token t) f = elim (Bool-cases (is_empty t.access_token)) [
    | inl blank ↦ rw (blank, persist_lc w.before_account w.now f) refl
    | inr full ↦ rw full refl
  ]

  need_token_profile :
      (w : World) (f : Flow) → (need_token cookie_valid state w f).0.lc.profile ≡ f.lc.profile
  unfolding need_token
  need_token_profile w f =
      ground
        (arith, ask_token_profile w w.token_reply (receive cookie_valid state w.token_cookies f))

  go_on-IsLogin :
      (w : World) (panel : Bool) (p : OauthProfile) (s : Flow × Option Outcome)
      → valid_oauth_pending_cookies cookie_valid w.account_cookies p ≡ true
      → s.0.lc.profile ≡ p
      → IsStage w.arrival true false s
      → IsLogin cookie_valid w.arrival
          (and_then cookie_valid state s (finish_login cookie_valid state w panel)).0.lc
  go_on-IsLogin w panel p (f, some o) valid e h = h
  go_on-IsLogin w panel p (f, none) valid e h =
      stage-IsLogin w.arrival true true (finish_login cookie_valid state w panel f)
        (finish_login-IsStage w panel f (rw e valid) h.0)

  -- A login whose times, token and result belong together is such a login after a poll too, whatever the
  -- replies are and whatever succeeds, given that the state is valid, that time does not run back and that the jar's cookies after
  -- the requests are ones that may be stored; and the record that a checkpoint would write of it passes
  -- the validation of records.
  pub poll_oauth_pending-IsLogin :
      (w : World) (panel : Bool) (f : Flow)
      → valid_oauth_state state ≡ true
      → w.now ≤ w.arrival
      → IsServed w f.lc
      → IsLogin cookie_valid w.now f.lc
      → IsLogin cookie_valid w.arrival (poll_oauth_pending cookie_valid state w panel f).0.lc
        × (valid_oauth_pending_record cookie_valid w.arrival
              (oauth_record w.arrival state (poll_oauth_pending cookie_valid state w panel f).0.lc)
            ≡ true)
  unfolding poll_oauth_pending
  poll_oauth_pending-IsLogin w panel f valid le served h =
      let l = IsLogin-later cookie_valid state w.now w.arrival f.lc le h in
      let s =
        and_then cookie_valid state (need_token cookie_valid state w f)
          (finish_login cookie_valid state w panel) in
      let k : IsLogin cookie_valid w.arrival (answer cookie_valid state s).0.lc = rw (answer_lc s) (
        go_on-IsLogin w panel f.lc.profile (need_token cookie_valid state w f) served.1
          (need_token_profile w f) (need_token-IsStage w f served.0 l)) in
      let kept : IsLogin cookie_valid w.arrival
          (poll_oauth_pending cookie_valid state w panel f).0.lc =
        elim (Bool-cases (leb f.lc.expires w.now)) [
          | inl over ↦ rw (valid, over) l
          | inr open_yet ↦ rw (valid, open_yet) k
        ] in
      (kept, valid_oauth_pending_record-IsLogin cookie_valid state w.arrival w.arrival _ valid kept)
