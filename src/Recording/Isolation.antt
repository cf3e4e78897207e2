-- ===== src/Recording/Isolation.antt =====
-- From an upstream error to the executor's guard: what a recorded failure blocks, and what it does
-- not.
use workbuddy_cpa_plugin.Base.{
  ℕ, ◌<◌, ◌≡◌, ap, ◌∙◌, ◌≢◌, ◌⊎◌, inl, inr, true, false, Option, some, arith, length, Option-cases,
  ◌==◌, is_some, String, not, string_eq, nat_eq,
}
use workbuddy_cpa_plugin.Base.Text.{trim_space, is_empty}
use workbuddy_cpa_plugin.Json.{Json}
use workbuddy_cpa_plugin.Cooldown.{
  Table, ModelCooldownKey, ChatFailure, is_unset, shared_credits, mark_quota_freeze,
  quota_freeze_for, hold_key, cooldown_sweep_locked, model_cooldown_max_entries, pair_key, key_eq,
}
use workbuddy_cpa_plugin.Cooldown.Entries.{IsTable}
use workbuddy_cpa_plugin.Cooldown.Blocking.{mark_quota_freeze-quota_freeze_for}
use workbuddy_cpa_plugin.Cooldown.Invariant.{mark_quota_freeze-IsTable}
use workbuddy_cpa_plugin.Cooldown.Marking.{held-mark_quota_freeze_other}
use workbuddy_cpa_plugin.Cooldown.View.{quota_freeze_for-held}
use workbuddy_cpa_plugin.Chat.{chat_error_fields}
use workbuddy_cpa_plugin.Chat.Classify.{classify_chat_failure}
use workbuddy_cpa_plugin.Chat.Scope.{classify_fields-hold_key}
use workbuddy_cpa_plugin.Recording.{
  Readers, hold_end, record_upstream_failure, guard_executor_quota,
}

hold_key-pair :
    (auth_id model : String) (f f' : ChatFailure) (key : ModelCooldownKey)
    → f.reason ≢ shared_credits
    → hold_key auth_id model f ≡ some (key, f')
    → (key ≡ pair_key (trim_space auth_id) (trim_space model))
      × (is_empty (trim_space model) ≡ false)
unfolding hold_key
hold_key-pair auth_id model f f' key own asked = ground arith

is_empty_blank : (m : String) → m ≡ "" → is_empty m ≡ true
is_empty_blank m e = ap is_empty e

pair_key-apart :
    (a m b n : String)
    → is_empty m ≡ false
    → ((b ≢ a) ⊎ (n ≢ m))
    → ((pair_key a m == pair_key b "") ≡ false) × ((pair_key a m == pair_key b n) ≡ false)
pair_key-apart a m b n full apart =
    ground (
      arith,
      string_eq.beq_iff a b,
      string_eq.beq_iff m "",
      string_eq.beq_iff m n,
      is_empty_blank m,
    )

-- A mark for one pair leaves the answer for any other pair, if the table has room.
mark-answer_other :
    (now : ℕ) (auth_id model : String) (f : ChatFailure) (until : ℕ) (recovery : String) (t : Table)
    (other_id other : String)
    → IsTable now t
    → length (cooldown_sweep_locked now t) < model_cooldown_max_entries
    → f.reason ≢ shared_credits
    → ((trim_space other_id ≢ trim_space auth_id) ⊎ (trim_space other ≢ trim_space model))
    → (quota_freeze_for now other_id other
        (mark_quota_freeze now auth_id model f until recovery t)).1
      ≡ (quota_freeze_for now other_id other t).1
mark-answer_other now auth_id model f until recovery t other_id other w room own apart =
    elim (Option-cases (hold_key auth_id model f)) [
      | inl ignored ↦ unfold mark_quota_freeze in rw (ignored, mark_quota_freeze)
      | inr ((key, f'), asked) ↦
          let after = mark_quota_freeze-IsTable now auth_id model f until recovery t w in
          let (same, full) = hold_key-pair auth_id model f f' key own asked in
          let (one, two) =
            pair_key-apart (trim_space auth_id) (trim_space model) (trim_space other_id)
              (trim_space other) full apart in
          let unmoved = λ (j : ModelCooldownKey) (differ : (key == j) ≡ false).
            held-mark_quota_freeze_other now t j w.distinct room auth_id model f f' until recovery
              key asked differ in
          rw (
            quota_freeze_for-held now other_id other _ after.distinct,
            quota_freeze_for-held now other_id other t w.distinct,
            unmoved (pair_key (trim_space other_id) "") (rw same one),
            unmoved (pair_key (trim_space other_id) (trim_space other)) (rw same two),
          )
    ]

module _ (unicode : ℕ → ℕ) (decode : String → Option Json) (r : Readers) where
  -- Recording an error with a reason is marking its failure.
  recorded :
      (now later : ℕ) (auth_id model : String) (status : ℕ) (body : String) (t : Table)
      → is_unset (classify_chat_failure unicode decode status body).reason ≡ false
      → record_upstream_failure unicode decode r now later auth_id model status body t ≡ (
          let f = classify_chat_failure unicode decode status body in
          let ends =
            hold_end unicode decode r now f.reason (chat_error_fields unicode decode body).text in
          mark_quota_freeze later auth_id model f ends.0 ends.1 t)
  unfolding record_upstream_failure
  recorded now later auth_id model status body t set = rw (set, record_upstream_failure)

  is_held :
      (status : ℕ) (auth_id model body : String)
      → is_empty (trim_space auth_id) ≡ false
      → is_empty (trim_space model) ≡ false
      → is_unset (classify_chat_failure unicode decode status body).reason ≡ false
      → is_some (hold_key auth_id model (classify_chat_failure unicode decode status body)) ≡ true
  unfolding classify_chat_failure
  is_held status auth_id model body a m set =
      classify_fields-hold_key status (chat_error_fields unicode decode body) auth_id model a m
      ∙ ap not set

  -- Once an upstream error with a quota reason is recorded for an account and a model that are not
  -- blank, the guard refuses that pair, whatever table that satisfies the table's invariant it was
  -- recorded in. The clock is read when the hold's end is computed and again when the hold is made; the
  -- second reading is later by less than the hold lasts, and the guard asks at the second one.
  pub record_upstream_failure-guard :
      (now later : ℕ) (auth_id model : String) (status : ℕ) (body : String) (t : Table)
      → IsTable later t
      → later
        < (hold_end unicode decode r now
            (classify_chat_failure unicode decode status body).reason
            (chat_error_fields unicode decode body).text).0
      → is_empty (trim_space auth_id) ≡ false
      → is_empty (trim_space model) ≡ false
      → is_unset (classify_chat_failure unicode decode status body).reason ≡ false
      → (guard_executor_quota later auth_id model
          (record_upstream_failure unicode decode r now later auth_id model status body t)).1
        ≡ true
  unfolding guard_executor_quota
  record_upstream_failure-guard now later auth_id model status body t w lasts a m set =
      rw (recorded now later auth_id model status body t set) (
        mark_quota_freeze-quota_freeze_for later auth_id model _ _ _ t w
          (is_held status auth_id model body a m set) lasts)

  -- With room in the table at the clock's second reading, a recorded failure that is not for shared credits changes the guard's
  -- answer for no other pair: neither for another model of the account nor for another account.
  pub record_upstream_failure-guard_other :
      (now later : ℕ) (auth_id model : String) (status : ℕ) (body : String) (t : Table)
      (other_id other : String)
      → IsTable later t
      → length (cooldown_sweep_locked later t) < model_cooldown_max_entries
      → (classify_chat_failure unicode decode status body).reason ≢ shared_credits
      → ((trim_space other_id ≢ trim_space auth_id) ⊎ (trim_space other ≢ trim_space model))
      → (guard_executor_quota later other_id other
          (record_upstream_failure unicode decode r now later auth_id model status body t)).1
        ≡ (guard_executor_quota later other_id other t).1
  unfolding guard_executor_quota record_upstream_failure
  record_upstream_failure-guard_other now later auth_id model status body t other_id other w room
        own apart =
      let f = classify_chat_failure unicode decode status body in
      let ends =
        hold_end unicode decode r now f.reason (chat_error_fields unicode decode body).text in
      ground (
        arith,
        mark-answer_other later auth_id model f ends.0 ends.1 t other_id other w room own apart,
      )
