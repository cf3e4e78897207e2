-- ===== src/Lifecycle/Keepalive.antt =====
-- The daily refresh of tokens, workbuddy/keepalive.go: `refreshOneAuth`, `persistAuthTokens` and
-- `markSessionDead`, with `buildRefreshedAuthJSON` of workbuddy/authfile.go. `encode_auth` and
-- `encode_account` are the encodings of encoding/json.
use workbuddy_cpa_plugin.Base.{
  ℕ, ◌≡◌, ◌⊎◌, inl, inr, sym, ◌∙◌, ap, Bool, true, false, ◌||◌, List, Option, none, some, String,
  string_eq, if◌then◌else◌, arith,
}
use workbuddy_cpa_plugin.Base.Int.{ℤ, is_pos}
use workbuddy_cpa_plugin.Base.Text.{codes, contains, trim_space, is_empty}
use workbuddy_cpa_plugin.Accounts.{CreditsSummary}
use workbuddy_cpa_plugin.Json.{Json, bool, string, Fields, put}
use workbuddy_cpa_plugin.Payload.Tools.{get-put}
use workbuddy_cpa_plugin.Lifecycle.{
  StoredDocument, parse_disabled, disabled_reason, as_bool, as_text,
}
use workbuddy_cpa_plugin.Lifecycle.Steps.{Account}
use workbuddy_cpa_plugin.Lifecycle.Provenance.{
  Reconcile, reconciles, reconciles_provenance, SameReason, Revived,
}

-- `isSessionDeadError`.
unfoldable pub is_session_dead_error : List ℕ → Bool
is_session_dead_error msg =
    contains msg (codes "Offline user session not found") || contains msg (codes "12153")

-- The tokens of a `storedAuth`, and those of a reply.
pub record StoredTokens : Type 0 where
  pub access_token : String
  pub refresh_token : String
  pub expires_at : ℤ
  pub domain : String

pub record RefreshedTokens : Type 0 where
  pub access_token : String
  pub refresh_token : String
  pub expires_in : ℤ
  pub domain : String

-- `refreshCall`: an error with the body and the error's text, data that are no tokens, or tokens.
pub data RefreshReply : Type 0 where
  rejected : List ℕ → List ℕ → RefreshReply
  unparsed : RefreshReply
  refreshed : RefreshedTokens → RefreshReply

pub data RefreshStatus : Type 0 where
  error_status skipped session_dead failed refreshed_status : RefreshStatus

-- The tokens after a refresh; `expiry` is `expiryFromExpiresIn` at the time of the reply.
abbrev pub expiry_or_old : ℤ → ℤ → ℤ → ℤ
expiry_or_old expires_in later old = if is_pos expires_in then later else old

unfoldable pub with_refreshed : RefreshedTokens → ℤ → StoredTokens → StoredTokens
with_refreshed tok later sa = record {
  access_token = tok.access_token;
  refresh_token = if is_empty tok.refresh_token then sa.refresh_token else tok.refresh_token;
  expires_at = expiry_or_old tok.expires_in later sa.expires_at;
  domain = if is_empty tok.domain then sa.domain else tok.domain;
}

-- `buildRefreshedAuthJSON`.
unfoldable pub build_refreshed_auth_json : Json → Json → Fields → Fields
build_refreshed_auth_json auth account doc = put "account" account (put "auth" auth doc)

-- The document that `markSessionDead` saves for an account that is not disabled.
unfoldable pub mark_session_dead_document : Fields → Fields
mark_session_dead_document doc =
    put "disabled_reason" (string "session_dead") (
      put "note" (string "Session dead (12153): re-login required")
        (put "disabled" (bool true) doc))

-- `markSessionDead`; `saves` says whether the host saves it. The flag of the host's entry is the file's.
unfoldable pub mark_session_dead : Bool → Account → Account × Bool
mark_session_dead saves s = elim s.file [
  | none ↦ (s, false)
  | some doc ↦
      if parse_disabled doc
      then (s, true)
      else if saves
      then (record s { file = some (mark_session_dead_document doc) }, true)
      else (s, false)
]

-- `refreshOneAuth`: the account and the status.
unfoldable pub refresh_one_auth :
    (StoredTokens → Json)
    → Json
    → Option StoredTokens
    → RefreshReply
    → ℤ
    → Bool
    → Account
    → Account × RefreshStatus
unfolding mark_session_dead is_session_dead_error with_refreshed build_refreshed_auth_json
refresh_one_auth encode_auth account none reply later saves s = (s, error_status)
refresh_one_auth encode_auth account (some sa) reply later saves s =
    if is_empty (trim_space sa.refresh_token) then (s, skipped) else elim reply [
      | rejected body message ↦
          if is_session_dead_error body || is_session_dead_error message
          then ((mark_session_dead saves s).0, session_dead)
          else (s, failed)
      | unparsed ↦ (s, failed)
      | refreshed tok ↦ if is_empty tok.access_token then (s, failed) else elim s.file [
        | none ↦ (s, error_status)
        | some doc ↦
            if saves
            then (
              record s {
                file = some (
                    build_refreshed_auth_json (encode_auth (with_refreshed tok later sa)) account
                      doc);
              },
              refreshed_status,
            )
            else (s, error_status)
      ]
    ]

-- A file that is disabled because its session is dead.
abbrev pub IsParked : Option Fields → Type 0
IsParked none = ⊥
IsParked (some g) = (parse_disabled g ≡ true) × (disabled_reason g ≡ "session_dead")

mark_session_dead_document-IsParked :
    (doc : Fields) → IsParked (some (mark_session_dead_document doc))
unfolding mark_session_dead_document parse_disabled disabled_reason trim_space
mark_session_dead_document-IsParked doc =
    let noted =
      put "note" (string "Session dead (12153): re-login required")
        (put "disabled" (bool true) doc) in
    (
      ap as_bool (
          get-put "disabled_reason" "disabled" (string "session_dead") noted
          ∙ get-put "note" "disabled" (string "Session dead (12153): re-login required")
              (put "disabled" (bool true) doc)
          ∙ get-put "disabled" "disabled" (bool true) doc),
      ap (λ (o : Option Json). trim_space (as_text o))
          (get-put "disabled_reason" "disabled_reason" (string "session_dead") noted),
    )

stays-IsParked :
    (f : Fields) (o : Option Fields) → IsParked (some f) → SameReason f o ⊎ Revived f o → IsParked o
stays-IsParked f none p (inl a) = elim a [ ]
stays-IsParked f none p (inr a) = elim a [ ]
stays-IsParked f (some g) p (inl a) = (a.0 ∙ p.0, a.1 ∙ p.1)
stays-IsParked f (some g) p (inr a) =
    let clash : false ≡ true = (string_eq.beq_iff "exhausted" "session_dead").1 (sym a.1 ∙ p.1) in
    ground (arith, clash)

module _ (display_note : Option CreditsSummary → Bool → String → String)
    (credit_segment : String → String) (with_reason : String → String → String)
    (sa : StoredDocument) where
  -- An account that is not disabled and whose refresh upstream answers with a dead session is disabled
  -- with that reason, if the host saves it; and no reconciles that follow, whatever they meet, bring it
  -- back.
  pub mark_session_dead-IsParked :
      (encode_auth : StoredTokens → Json) (account : Json) (tokens : StoredTokens)
      (body message : List ℕ) (later : ℤ) (rs : List Reconcile) (f : Fields) (s : Account)
      → s.file ≡ some f
      → parse_disabled f ≡ false
      → is_empty (trim_space tokens.refresh_token) ≡ false
      → is_session_dead_error body || is_session_dead_error message ≡ true
      → IsParked
          (reconciles display_note credit_segment with_reason sa rs
            (refresh_one_auth encode_auth account
              (some tokens)
              (rejected body message)
              later
              true
              s).0).file
  unfolding refresh_one_auth mark_session_dead
  mark_session_dead-IsParked encode_auth account tokens body message later rs f s e active
        some_token dead =
      let t =
        (refresh_one_auth encode_auth account (some tokens) (rejected body message) later true
          s).0 in
      let marked : t.file ≡ some (mark_session_dead_document f) =
        ground (arith, e, active, some_token, dead) in
      stays-IsParked (mark_session_dead_document f) _ (mark_session_dead_document-IsParked f) (
        reconciles_provenance display_note credit_segment with_reason sa rs
          (mark_session_dead_document f) t marked)
