-- ===== src/Login/Kept.antt =====
-- What a poll keeps on disk is a valid record, from which the login is restored.
use workbuddy_cpa_plugin.Base.{
  ℕ, ◌+◌, ◌≤◌, ◌<◌, ◌≡◌, refl, sym, ap, Bool, true, false, Option, none, some, String, nat_eq,
  string_eq, arith, List, [], ◌∷◌, length, Bool-cases, inl, inr,
}
use workbuddy_cpa_plugin.Base.Text.{is_empty, trim_space}
use workbuddy_cpa_plugin.Login.{
  TokenData, LoginAuth, LoginCtx, OauthProfile, cli, workbuddy_cn, workbuddy_global, mode_of,
  region_of, login_ttl, oauth_result_ttl, valid_oauth_state, valid_oauth_pending_record,
  valid_oauth_pending_cookies, all_valid, is_valid_cookie, PendingCookie, snapshot, is_unexpired,
  restore_oauth_cookies, oauth_record, restore, profile_for_mode_region, token_text, is_known_realm,
  is_known_time, is_known_token, is_known_result,
}

-- A login without a token has no result; one with a token has the stamps of its arrival.
abbrev pub IsTimed : ℕ → ℕ → ℕ → ℕ → Option LoginAuth → Bool → Option TokenData → Type 0
IsTimed now created expires token_at result saved none =
    (result ≡ none) × (saved ≡ false) × (token_at ≡ 0) × (expires ≤ created + login_ttl)
IsTimed now created expires token_at result saved (some t) =
    (is_empty t.access_token ≡ false)
    × (created ≤ token_at)
    × (token_at ≤ now)
    × (expires ≤ token_at + oauth_result_ttl)
    × (expires ≤ created + (login_ttl + oauth_result_ttl))

-- The result is for the token, and a login is saved only with a result.
abbrev pub IsResult : Option TokenData → Bool → Option LoginAuth → Type 0
IsResult token saved none = saved ≡ false
IsResult token saved (some a) =
    (a.access_token ≡ token_text token) × (is_empty (trim_space a.account.uid) ≡ false)

abbrev pub Timed : ℕ → LoginCtx → Option TokenData → Type 0
Timed now lc = IsTimed now lc.created lc.expires lc.token_at lc.result lc.saved

pub record IsLogin (cookie_valid : String → Bool) (now : ℕ) (lc : LoginCtx) : Type 0 where
  pub started : 0 < lc.created
  pub past : lc.created ≤ now
  pub lasts : lc.created < lc.expires
  pub cookies_valid : valid_oauth_pending_cookies cookie_valid lc.cookies lc.profile ≡ true
  pub timed : Timed now lc lc.token
  pub resulted : IsResult lc.token lc.saved lc.result

profile_for_mode_region-mode_of :
    (p : OauthProfile) → profile_for_mode_region (mode_of p) (region_of p) ≡ p
profile_for_mode_region-mode_of cli = refl
profile_for_mode_region-mode_of workbuddy_cn = refl
profile_for_mode_region-mode_of workbuddy_global = refl

module _ (cookie_valid : String → Bool) (state : String) where
  expires_bound :
      (now : ℕ) (lc : LoginCtx) (t : Option TokenData)
      → Timed now lc t
      → lc.expires ≤ lc.created + (login_ttl + oauth_result_ttl)
  expires_bound now lc none h = ground (arith, h)
  expires_bound now lc (some t) h = ground (arith, h)

  realm_known :
      (at : ℕ) (lc : LoginCtx) (p : OauthProfile)
      → lc.profile ≡ p
      → is_known_realm (oauth_record at state lc) ≡ true
  unfolding is_known_realm oauth_record
  realm_known at lc cli e = rw e refl
  realm_known at lc workbuddy_cn e = rw e refl
  realm_known at lc workbuddy_global e = rw e refl

  token_known :
      (at now : ℕ) (lc : LoginCtx) (t : Option TokenData)
      → Timed now lc t
      → is_known_token now (oauth_record at state lc) t ≡ true
  unfolding is_known_token oauth_record
  token_known at now lc none h = ground (arith, h)
  token_known at now lc (some t) h = ground (arith, h)

  result_known :
      (at : ℕ) (lc : LoginCtx) (a : Option LoginAuth)
      → IsResult lc.token lc.saved a
      → is_known_result (oauth_record at state lc) a ≡ true
  unfolding is_known_result oauth_record
  result_known at lc none h = ground (arith, h)
  result_known at lc (some a) h =
      ground (arith, string_eq.beq_iff a.access_token (token_text lc.token), h)

  time_known :
      (at now : ℕ) (lc : LoginCtx)
      → IsLogin cookie_valid now lc
      → is_known_time now (oauth_record at state lc) ≡ true
  unfolding is_known_time oauth_record
  time_known at now lc h =
      ground (arith, h.started, h.past, h.lasts, expires_bound now lc lc.token h.timed)

  all_valid-snapshot :
      (at : ℕ) (p : OauthProfile) (cs : List PendingCookie)
      → all_valid cookie_valid p cs ≡ true
      → all_valid cookie_valid p (snapshot at cs) ≡ true
  unfolding all_valid snapshot
  all_valid-snapshot at p [] h = refl
  all_valid-snapshot at p (c ∷ cs) h = elim (Bool-cases (is_valid_cookie cookie_valid p c)) [
    | inl valid ↦
        let rest = all_valid-snapshot at p cs (rw valid at h) in
        elim (Bool-cases (is_unexpired at c)) [
          | inl fresh ↦ rw (fresh, valid) rest
          | inr expired ↦ rw expired rest
        ]
    | inr invalid ↦ cc
  ]

  length-snapshot : (at : ℕ) (cs : List PendingCookie) → length (snapshot at cs) ≤ length cs
  unfolding snapshot
  length-snapshot at [] = omega arith
  length-snapshot at (c ∷ cs) = ground (arith, length-snapshot at cs)

  valid-snapshot :
      (at : ℕ) (p : OauthProfile) (cs : List PendingCookie)
      → valid_oauth_pending_cookies cookie_valid cs p ≡ true
      → valid_oauth_pending_cookies cookie_valid (snapshot at cs) p ≡ true
  unfolding valid_oauth_pending_cookies
  valid-snapshot at p cs h = ground (arith, length-snapshot at cs, all_valid-snapshot at p cs)

  cookies_known :
      (at now : ℕ) (lc : LoginCtx)
      → IsLogin cookie_valid now lc
      → valid_oauth_pending_cookies cookie_valid
          (snapshot at lc.cookies)
          (profile_for_mode_region (mode_of lc.profile) (region_of lc.profile))
        ≡ true
  cookies_known at now lc h =
      rw (profile_for_mode_region-mode_of lc.profile)
        (valid-snapshot at lc.profile lc.cookies h.cookies_valid)

  pub valid_oauth_pending_record-IsLogin :
      (at now : ℕ) (lc : LoginCtx)
      → valid_oauth_state state ≡ true
      → IsLogin cookie_valid now lc
      → valid_oauth_pending_record cookie_valid now (oauth_record at state lc) ≡ true
  unfolding valid_oauth_pending_record oauth_record
  valid_oauth_pending_record-IsLogin at now lc valid h =
      let realm = realm_known at lc lc.profile refl in
      let time : is_known_time now (oauth_record at state lc) ≡ true = time_known at now lc h in
      let token = token_known at now lc lc.token h.timed in
      let result = result_known at lc lc.result h.resulted in
      let cookies = cookies_known at now lc h in
      ground (arith, realm, time, token, result, cookies, valid)

  Timed-later :
      (now later : ℕ) (lc : LoginCtx) (t : Option TokenData)
      → now ≤ later
      → Timed now lc t
      → Timed later lc t
  Timed-later now later lc none le h = h
  Timed-later now later lc (some t) le h = (h.0, h.1, omega (arith, h.2), h.3, h.4)

  pub IsLogin-later :
      (now later : ℕ) (lc : LoginCtx)
      → now ≤ later
      → IsLogin cookie_valid now lc
      → IsLogin cookie_valid later lc
  IsLogin-later now later lc le h = record {
    started = h.started;
    past = omega (arith, h.past);
    lasts = h.lasts;
    cookies_valid = h.cookies_valid;
    timed = Timed-later now later lc lc.token le h.timed;
    resulted = h.resulted;
  }

  -- What has not expired later had not expired before.
  restore_oauth_cookies-snapshot :
      (now later : ℕ) (cs : List PendingCookie)
      → now ≤ later
      → restore_oauth_cookies later (snapshot now cs) ≡ snapshot later cs
  unfolding restore_oauth_cookies snapshot
  restore_oauth_cookies-snapshot now later [] le = refl
  restore_oauth_cookies-snapshot now later (c ∷ cs) le = elim (Bool-cases (is_unexpired later c)) [
    | inl fresh ↦
        let before : is_unexpired now c ≡ true = ground (arith, fresh, le) in
        rw (fresh, before, fresh)
          (ap (λ ds. c ∷ ds) (restore_oauth_cookies-snapshot now later cs le))
    | inr expired ↦ elim (Bool-cases (is_unexpired now c)) [
      | inl before ↦ rw (expired, before, expired) (restore_oauth_cookies-snapshot now later cs le)
      | inr gone ↦ rw (expired, gone) (restore_oauth_cookies-snapshot now later cs le)
    ]
  ]

  pub restore-oauth_record :
      (now later : ℕ) (lc : LoginCtx)
      → valid_oauth_state state ≡ true
      → lc.stored ≡ true
      → IsLogin cookie_valid now lc
      → now ≤ later
      → (valid_oauth_pending_record cookie_valid later (oauth_record now state lc) ≡ true)
        × (restore later (oauth_record now state lc)
            ≡ record lc { cookies = snapshot later lc.cookies })
  unfolding oauth_record restore
  restore-oauth_record now later lc valid stored h le = (
    valid_oauth_pending_record-IsLogin now later lc valid (IsLogin-later now later lc le h),
    rw
        (
          profile_for_mode_region-mode_of lc.profile,
          restore_oauth_cookies-snapshot now later lc.cookies le,
        )
        (ap (λ b. record lc { cookies = snapshot later lc.cookies; stored = b }) (sym stored)),
  )
