-- ===== src/Lifecycle/Provenance.antt =====
-- Who may undo a disabling: reconciles only bring back an account that was disabled for used-up credits.
use workbuddy_cpa_plugin.Base.{
  ◌≡◌, ◌⊎◌, inl, inr, refl, sym, ◌∙◌, Bool, true, false, ◌&&◌, List, [], ◌∷◌, Option, none, some,
  String, string_eq, ◌==◌, arith, Bool-cases, Option-cases,
}
use workbuddy_cpa_plugin.Accounts.{CreditsSummary}
use workbuddy_cpa_plugin.Policy.{should_reenable_cn, should_reenable_cn_iff}
use workbuddy_cpa_plugin.Json.{Fields}
use workbuddy_cpa_plugin.Lifecycle.{
  StoredDocument, build_auth_file_json_from, parse_disabled, disabled_reason, raw_note,
}
use workbuddy_cpa_plugin.Lifecycle.Steps.{
  Account, Turn, Credits, unavailable, known, save, reenable_auth, sync_auth_note,
  reconcile_one_account,
}
use workbuddy_cpa_plugin.Lifecycle.Inherited.{
  parse_disabled-build, disabled_reason-build, parse_disabled-clear, disabled_reason-clear,
}

-- Two files agree on whether the account is disabled, and why.
abbrev pub SameReason : Fields → Option Fields → Type 0
SameReason f none = ⊥
SameReason f (some g) =
    (parse_disabled g ≡ parse_disabled f) × (disabled_reason g ≡ disabled_reason f)

-- A file that was disabled for used-up credits has been brought back.
abbrev pub Revived : Fields → Option Fields → Type 0
Revived f none = ⊥
Revived f (some g) =
    (parse_disabled f ≡ true)
    × (disabled_reason f ≡ "exhausted")
    × (parse_disabled g ≡ false)
    × (disabled_reason g ≡ "")

-- The circumstances of a reconcile.
pub record Reconcile : Type 0 where
  pub turn : Turn
  pub region : String
  pub seen : Fields
  pub credits : Credits
  pub again : Credits

-- The outcomes of two reconciles, one after the other.
outcome_after :
    (f g : Fields) (o : Option Fields)
    → SameReason f (some g) ⊎ Revived f (some g)
    → SameReason g o ⊎ Revived g o
    → SameReason f o ⊎ Revived f o
outcome_after f g none a (inl b) = elim b [ ]
outcome_after f g none a (inr b) = elim b [ ]
outcome_after f g (some h) (inl a) (inl b) = inl (b.0 ∙ a.0, b.1 ∙ a.1)
outcome_after f g (some h) (inl a) (inr b) = inr (sym a.0 ∙ b.0, sym a.1 ∙ b.1, b.2, b.3)
outcome_after f g (some h) (inr a) (inl b) = inr (a.0, a.1, b.0 ∙ a.2, b.1 ∙ a.3)
outcome_after f g (some h) (inr a) (inr b) = ground (arith, a.2, b.0)

gone_file :
    (f : Fields) (o : Option Fields)
    → SameReason f none ⊎ Revived f none
    → SameReason f o ⊎ Revived f o
gone_file f o (inl a) = elim a [ ]
gone_file f o (inr a) = elim a [ ]

module _ (display_note : Option CreditsSummary → Bool → String → String)
    (credit_segment : String → String) (with_reason : String → String → String)
    (sa : StoredDocument) where
  sync_auth_note_file :
      (t : Turn) (cr : Option CreditsSummary) (disabled : Bool) (f : Fields) (s : Account)
      → s.file ≡ some f
      → ((sync_auth_note display_note credit_segment with_reason sa t cr disabled s).file ≡ some f)
        ⊎ ((sync_auth_note display_note credit_segment with_reason sa t cr disabled s).file
            ≡ some (
                build_auth_file_json_from sa
                  (parse_disabled f)
                  (display_note cr (parse_disabled f) (credit_segment (raw_note f)))
                  []
                  f))
  unfolding sync_auth_note save
  sync_auth_note_file t cr disabled f s e = ground (arith, e)

  reenable_auth_file :
      (t : Turn) (cr : Option CreditsSummary) (reason prev_note : String) (f : Fields) (s : Account)
      → s.file ≡ some f
      → ((reenable_auth display_note credit_segment with_reason sa t cr reason prev_note s).file
          ≡ some f)
        ⊎ (((reenable_auth display_note credit_segment with_reason sa t cr reason prev_note s).file
              ≡ some (
                  build_auth_file_json_from sa false
                    (display_note cr false "")
                    (("disabled_reason", none) ∷ [])
                    f))
            × (should_reenable_cn (parse_disabled f) cr (disabled_reason f) (raw_note f) ≡ true))
  unfolding reenable_auth save
  reenable_auth_file t cr reason prev_note f s e = ground (arith, e)

  sync-SameReason :
      (t : Turn) (cr : Option CreditsSummary) (disabled : Bool) (f : Fields) (s : Account)
      → s.file ≡ some f
      → SameReason f
          (sync_auth_note display_note credit_segment with_reason sa t cr disabled s).file
  sync-SameReason t cr disabled f s e = elim (sync_auth_note_file t cr disabled f s e) [
    | inl same ↦ rw same (refl, refl)
    | inr written ↦
        let note = display_note cr (parse_disabled f) (credit_segment (raw_note f)) in
        rw written (
          parse_disabled-build sa (parse_disabled f) note f,
          disabled_reason-build sa (parse_disabled f) note f,
        )
  ]

  reenable-Revived :
      (t : Turn) (cr : Option CreditsSummary) (reason prev_note : String) (f : Fields) (s : Account)
      → s.file ≡ some f
      → SameReason f
          (reenable_auth display_note credit_segment with_reason sa t cr reason prev_note s).file
        ⊎ Revived f
            (reenable_auth display_note credit_segment with_reason sa t cr reason prev_note s).file
  reenable-Revived t cr reason prev_note f s e =
      elim (reenable_auth_file t cr reason prev_note f s e) [
        | inl same ↦ inl (rw same (refl, refl))
        | inr back ↦
            let why =
              (should_reenable_cn_iff (parse_disabled f) cr (disabled_reason f) (raw_note f) "").0.0
                back.1 in
            inr (
              rw back.0 (
                why.0,
                why.1,
                parse_disabled-clear sa false (display_note cr false "") f,
                disabled_reason-clear sa false (display_note cr false "") f,
              ))
      ]

  reconcile-Revived :
      (t : Turn) (region : String) (seen : Fields) (cr again : Credits) (f : Fields) (s : Account)
      → s.file ≡ some f
      → SameReason f
          (reconcile_one_account display_note credit_segment with_reason sa t region seen cr again
            s).0.file
        ⊎ Revived f
            (reconcile_one_account display_note credit_segment with_reason sa t region seen cr again
              s).0.file
  unfolding reconcile_one_account
  reconcile-Revived t region seen unavailable again f s e = inl (rw e (refl, refl))
  reconcile-Revived t region seen (known cr) again f s e =
      elim (Bool-cases (region == "cn" && parse_disabled seen)) [
        | inl parked ↦
            elim (Bool-cases
              (should_reenable_cn true (some cr) (disabled_reason seen) (raw_note seen))) [
                | inl back ↦
                    rw (parked, back)
                      (reenable-Revived t (some cr) (disabled_reason seen) (raw_note seen) f s e)
                | inr stays ↦ rw (parked, stays) (inl (sync-SameReason t (some cr) true f s e))
              ]
        | inr active ↦
            rw (active, (should_reenable_cn_iff true (some cr) "" "" region).1)
              (inl (sync-SameReason t (some cr) false f s e))
      ]

  unfoldable pub reconciles : List Reconcile → Account → Account
  reconciles [] s = s
  reconciles (r ∷ rs) s =
      reconciles rs
        (reconcile_one_account display_note credit_segment with_reason sa r.turn r.region r.seen
          r.credits r.again s).0

  -- However often an account is reconciled - with whatever credits, with a file that was read earlier and
  -- may have changed since, with reads and writes that succeed or fail - its file says the same about
  -- being disabled and about the reason as at the start, or it was disabled for used-up credits and has
  -- been brought back with the reason cleared. So a manual disabling, a dead session and an unknown
  -- reason are never undone, and no account is disabled or deleted.
  pub reconciles_provenance :
      (rs : List Reconcile) (f : Fields) (s : Account)
      → s.file ≡ some f
      → SameReason f (reconciles rs s).file ⊎ Revived f (reconciles rs s).file
  unfolding reconciles
  reconciles_provenance [] f s e = inl (rw e (refl, refl))
  reconciles_provenance (r ∷ rs) f s e =
      let one = reconcile-Revived r.turn r.region r.seen r.credits r.again f s e in
      let t =
        (reconcile_one_account display_note credit_segment with_reason sa r.turn r.region r.seen
          r.credits r.again s).0 in
      elim (Option-cases t.file) [
        | inl gone ↦ gone_file f (reconciles rs t).file (rw gone at one)
        | inr (g, q) ↦
            outcome_after f g (reconciles rs t).file (rw q at one) (reconciles_provenance rs g t q)
      ]
