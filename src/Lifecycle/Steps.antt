-- ===== src/Lifecycle/Steps.antt =====
-- `disableAuth`, `reenableAuth`, `syncAuthNote` and `reconcileOneAccount` of workbuddy/lifecycle.go.
use workbuddy_cpa_plugin.Base.{
  ℕ, Bool, true, false, not, ◌&&◌, ◌||◌, List, [], ◌∷◌, Option, none, some, String, string_eq, ◌==◌,
  if◌then◌else◌,
}
use workbuddy_cpa_plugin.Base.Text.{is_empty}
use workbuddy_cpa_plugin.Accounts.{CreditsSummary, is_credits_exhausted}
use workbuddy_cpa_plugin.Policy.{
  LifecycleAction, nothing, disable, delete, reenable, lifecycle_action_for, should_reenable_cn,
}
use workbuddy_cpa_plugin.Json.{Json, string, Fields}
use workbuddy_cpa_plugin.Lifecycle.{
  StoredDocument, build_auth_file_json_from, parse_disabled, disabled_reason, raw_note,
  LifecycleStateEntry, lifecycle_state_unchanged,
}

-- An account: its file, the remembered state of `lifecycleState`, and whether `accountCache` has dropped it.
pub record Account : Type 0 where
  pub file : Option Fields
  pub remembered : Option LifecycleStateEntry
  pub dropped : Bool

-- What an operation meets: the time, whether the file can be read, and whether it can be written.
pub record Turn : Type 0 where
  pub now : ℕ
  pub reads : Bool
  pub writes : Bool

pub data Credits : Type 0 where
  unavailable : Credits
  known : CreditsSummary → Credits

module _ (display_note : Option CreditsSummary → Bool → String → String)
    (credit_segment : String → String) (with_reason : String → String → String)
    (sa : StoredDocument) where
  -- The physical file that the host returns.
  abbrev physical : Turn → Account → Option Fields
  physical t s = if t.reads then s.file else none

  -- The end of each operation: the file is written and the state remembered.
  unfoldable pub save :
      Turn → Bool → String → List (String × Option Json) → Fields → Account → Account
  save t disabled note extra base s =
      if t.writes
      then record s {
        file = some (build_auth_file_json_from sa disabled note extra base);
        remembered = some (record { disabled = disabled; note = note; at = t.now });
      }
      else s

  abbrev drop_if : Bool → Account → Account
  drop_if b s = if b then record s { dropped = true } else s

  abbrev reason_extra : String → List (String × Option Json)
  reason_extra code = if is_empty code then [] else ("disabled_reason", some (string code)) ∷ []

  -- `disableAuth`; `with_reason` adds the human reason to the note where it fits.
  unfoldable pub disable_auth : Turn → Option CreditsSummary → String → String → Account → Account
  unfolding save
  disable_auth t cr reason code s =
      let note = with_reason (display_note cr true "") reason in
      if lifecycle_state_unchanged t.now true note s.remembered then s else elim (physical t s) [
        | none ↦ s
        | some phys ↦
            if parse_disabled phys
              && (not (disabled_reason phys == code)
                  || disabled_reason phys == "manual"
                  || is_empty (disabled_reason phys))
            then s
            else drop_if t.writes (save t true note (reason_extra code) phys s)
      ]

  -- `reenableAuth`; `reason` and `prev_note` are from the caller's earlier read.
  unfoldable pub reenable_auth : Turn → Option CreditsSummary → String → String → Account → Account
  unfolding save
  reenable_auth t cr reason prev_note s =
      if not (should_reenable_cn true cr reason prev_note)
      then s
      else if lifecycle_state_unchanged t.now false (display_note cr false "") s.remembered
      then s
      else elim (physical t s) [
        | none ↦ s
        | some phys ↦
            if not
              (should_reenable_cn (parse_disabled phys) cr (disabled_reason phys) (raw_note phys))
            then s
            else drop_if t.writes
                (save t false (display_note cr false "") (("disabled_reason", none) ∷ []) phys s)
      ]

  abbrev segment_of : Option Fields → String
  segment_of none = ""
  segment_of (some phys) = credit_segment (raw_note phys)

  -- `syncAuthNote`; `disabled` is from the caller's earlier read.
  unfoldable pub sync_auth_note : Turn → Option CreditsSummary → Bool → Account → Account
  unfolding save
  sync_auth_note t cr disabled s =
      if lifecycle_state_unchanged t.now disabled
        (display_note cr disabled (segment_of (physical t s))) s.remembered
      then s
      else elim (physical t s) [
        | none ↦ s
        | some phys ↦
            let note = display_note cr (parse_disabled phys) (credit_segment (raw_note phys)) in
            if lifecycle_state_unchanged t.now (parse_disabled phys) note s.remembered
            then s
            else save t (parse_disabled phys) note [] phys s
      ]

  -- `reconcileOneAccount` with `lifecycleAuto` on: `seen` is the file as it was when the reconcile began,
  -- which may have changed since, and `again` are the credits of the second fetch before a delete.
  unfoldable pub reconcile_one_account :
      Turn → String → Fields → Credits → Credits → Account → Account × LifecycleAction
  reconcile_one_account t region seen unavailable again s = (s, nothing)
  reconcile_one_account t region seen (known cr) again s =
      if region == "cn" && parse_disabled seen
      then if should_reenable_cn true (some cr) (disabled_reason seen) (raw_note seen)
        then (reenable_auth t (some cr) (disabled_reason seen) (raw_note seen) s, reenable)
        else (sync_auth_note t (some cr) true s, nothing)
      else elim (lifecycle_action_for region (some cr)) [
        | delete ↦ elim again [
          | unavailable ↦ (s, nothing)
          | known cr2 ↦
              if is_credits_exhausted (some cr2)
              then (record s { file = none; remembered = none; dropped = true }, delete)
              else (s, nothing)
        ]
        | disable ↦ (disable_auth t (some cr) "耗尽" "exhausted" s, disable)
        | reenable ↦ (sync_auth_note t (some cr) false s, nothing)
        | nothing ↦ (sync_auth_note t (some cr) false s, nothing)
      ]
