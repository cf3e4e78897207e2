-- ===== src/Checkin/Claims.antt =====
-- What an attempt asks of the upstream, and what it concludes, against every upstream.
use workbuddy_cpa_plugin.Base.{
  ◌≡◌, refl, ◌⊎◌, inl, inr, Bool, true, false, List, [], ◌∷◌, none, some, arith, if_elim, is_some,
  not, string_eq, nat_eq, ◌||◌,
}
use workbuddy_cpa_plugin.Accounts.{CheckinSummary}
use workbuddy_cpa_plugin.Checkin.Attempt.{
  StatusReply, status_error, status_ok, ClaimReply, Protocol, Upstream, Event, asked, sent, run,
  confirmed_checkin_attempt, first_status, claimed, verify, unconfirmed, checkin_error_uncertain,
  is_definite, ask_status, done,
}

-- The claims among the calls.
abbrev pub claims : List Event → List ClaimReply
claims [] = []
claims (asked r ∷ es) = claims es
claims (sent c ∷ es) = c ∷ claims es

-- Whether the last status that was read says that the day is checked in.
abbrev pub says_checked_in : StatusReply → Bool
says_checked_in (status_ok (some ci)) = ci.today_checked_in
says_checked_in _ = false

abbrev pub last_says : Bool → List Event → Bool
last_says b [] = b
last_says b (asked r ∷ es) = last_says (says_checked_in r) es
last_says b (sent c ∷ es) = last_says b es

-- The calls of an attempt: one status; or a status of a running activity that is not checked in,
-- one claim, and at most one more status, and this not when only a confirmation is wanted.
abbrev pub IsCallOrder : Bool → List Event → Type 0
IsCallOrder confirm_only es =
    ((r : StatusReply) × (es ≡ asked r ∷ []))
    ⊎ ((ci : CheckinSummary) × (c : ClaimReply) × (rest : List Event) × (es
          ≡ asked (status_ok (some ci)) ∷ sent c ∷ rest)
        × ((rest ≡ []) ⊎ ((r : StatusReply) × (rest ≡ asked r ∷ [])))
        × (confirm_only ≡ false)
        × (ci.today_checked_in ≡ false)
        × (ci.active ≡ true))

-- After this reply a claim has been taken, or the code cannot know.
abbrev pub may_count : ClaimReply → Bool
may_count c = not (is_some c.error) || checkin_error_uncertain c.error

module _ {ℓ} {S : Type ℓ} (up : Upstream S) where
  claimed-calls :
      (ci : CheckinSummary) (c : ClaimReply) (s : S)
      → let rest = (run up (claimed ci c) s).2 in
        (rest ≡ []) ⊎ ((r : StatusReply) × (rest ≡ asked r ∷ []))
  unfolding run claimed
  claimed-calls ci c s =
      if_elim
        (λ (p : Protocol).
          ((run up p s).2 ≡ []) ⊎ ((r : StatusReply) × ((run up p s).2 ≡ asked r ∷ [])))
        (is_definite c.error) _ (ask_status (λ reply. done (verify ci c reply))) (λ _. inl refl)
        λ _. inr ((up.status s).0, refl)

  first-IsCallOrder :
      (b : Bool) (r : StatusReply) (s : S)
      → IsCallOrder b (asked r ∷ (run up (first_status b r) s).2)
  unfolding run first_status claimed
  first-IsCallOrder b (status_error e) s = inl (status_error e, refl)
  first-IsCallOrder b (status_ok none) s = inl (status_ok none, refl)
  first-IsCallOrder b (status_ok (some ci)) s =
      if_elim Good ci.today_checked_in _ _ (λ _. inl (reply, refl))
        λ fresh.
          if_elim Good b _ _ (λ _. inl (reply, refl))
            λ may_claim.
              if_elim Good (not ci.active) _ _ (λ _. inl (reply, refl))
                λ active. inr (
                  ci,
                  c,
                  (run up (claimed ci c) (up.claim s).1).2,
                  refl,
                  claimed-calls ci c (up.claim s).1,
                  may_claim,
                  fresh,
                  ground (arith, active),
                )
    where
      reply : StatusReply
      reply = status_ok (some ci)

      c : ClaimReply
      c = (up.claim s).0

      Good : Protocol → Type 0
      Good p = IsCallOrder b (asked reply ∷ (run up p s).2)

  -- At most one claim is sent, only after a status that shows a running activity not yet checked in,
  -- and none when only a confirmation is wanted.
  pub attempt-IsCallOrder :
      (confirm_only : Bool) (s : S)
      → IsCallOrder confirm_only (run up (confirmed_checkin_attempt confirm_only) s).2
  unfolding run confirmed_checkin_attempt
  attempt-IsCallOrder confirm_only s =
      first-IsCallOrder confirm_only (up.status s).0 (up.status s).1

  first-confirmed :
      (b : Bool) (r : StatusReply) (s : S)
      → (run up (first_status b r) s).0.confirmed
        ≡ last_says (says_checked_in r) (run up (first_status b r) s).2
  unfolding run first_status claimed verify unconfirmed
  first-confirmed b (status_error e) s = refl
  first-confirmed b (status_ok none) s = refl
  first-confirmed b (status_ok (some ci)) s = ground arith

  -- An attempt is confirmed exactly if the last status that it read says so.
  pub attempt-confirmed :
      (confirm_only : Bool) (s : S)
      → let (r, _, es) = run up (confirmed_checkin_attempt confirm_only) s in
        r.confirmed ≡ last_says false es
  unfolding run confirmed_checkin_attempt
  attempt-confirmed confirm_only s = first-confirmed confirm_only (up.status s).0 (up.status s).1

  claimed-retry :
      (ci : CheckinSummary) (c : ClaimReply) (s : S)
      → may_count c ≡ true
      → let r = (run up (claimed ci c) s).0 in
        (r.confirmed ≡ true) ⊎ (r.confirm_only ≡ true) ⊎ (r.retryable ≡ false)
  unfolding run claimed verify unconfirmed
  claimed-retry ci c s h = ground arith

  claims-claimed :
      (ci : CheckinSummary) (c : ClaimReply) (s : S) → claims (run up (claimed ci c) s).2 ≡ []
  unfolding run claimed
  claims-claimed ci c s = ground arith

  first-retry :
      (b : Bool) (r : StatusReply) (s : S) (c : ClaimReply)
      → claims (run up (first_status b r) s).2 ≡ c ∷ []
      → may_count c ≡ true
      → let r = (run up (first_status b r) s).0 in
        (r.confirmed ≡ true) ⊎ (r.confirm_only ≡ true) ⊎ (r.retryable ≡ false)
  unfolding run first_status
  first-retry b (status_error e) s c one h = ground arith
  first-retry b (status_ok none) s c one h = ground arith
  first-retry b (status_ok (some ci)) s c one h = ground (
    arith,
    claims-claimed ci (up.claim s).0 (up.claim s).1,
    claimed-retry ci (up.claim s).0 (up.claim s).1,
  )

  -- After a claim that was answered without an error, or that may have reached the upstream, the
  -- attempt is confirmed, or asks for no retry, or asks for one that only reads the status.
  pub attempt-retry :
      (confirm_only : Bool) (s : S) (c : ClaimReply)
      → claims (run up (confirmed_checkin_attempt confirm_only) s).2 ≡ c ∷ []
      → may_count c ≡ true
      → let r = (run up (confirmed_checkin_attempt confirm_only) s).0 in
        (r.confirmed ≡ true) ⊎ (r.confirm_only ≡ true) ⊎ (r.retryable ≡ false)
  unfolding run confirmed_checkin_attempt
  attempt-retry confirm_only s c one h =
      first-retry confirm_only (up.status s).0 (up.status s).1 c one h
