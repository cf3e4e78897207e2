-- ===== src/Login/Register.antt =====
-- The pending logins of workbuddy/oauth_pending.go: `registerOAuthPending`, `lookupOAuthPending`,
-- `retainOAuthResult`, `removeOAuthPending` and `pruneOAuthPending`, with their bound.
use workbuddy_cpa_plugin.Base.{
  ℕ, ◌+◌, ◌≤◌, ◌≡◌, refl, ◌∙◌, Bool, true, false, not, ◌&&◌, ◌||◌, List, Option, none, some, String,
  leb, string_eq, ◌==◌, if◌then◌else◌, is_some, length, arith,
}
use workbuddy_cpa_plugin.Base.Maps.{
  lookup, insert, delete, Distinct, length-insert, Distinct-insert, lookup-insert, lookup-delete,
}
use workbuddy_cpa_plugin.Login.{
  LoginCtx, OauthPendingRecord, oauth_record, restore, valid_oauth_pending_record,
}

-- `oauthPendingMaxFiles`.
abbrev pub oauth_pending_max_files : ℕ
oauth_pending_max_files = 128

pub data RegisterError : Type 0 where
  init_failed too_many duplicate storage : RegisterError

-- `oauthPending` and `loginStates`; `files` are the valid records on disk.
pub record OauthPending : Type 0 where
  pub init_error : Bool
  pub has_store : Bool
  pub recent : List (String × LoginCtx)
  pub states : List (String × LoginCtx)
  pub files : List (String × OauthPendingRecord)

-- Whether the write of a record succeeds: the record must be valid, and a new one needs room.
abbrev can_write :
    (String → Bool)
    → Bool
    → ℕ
    → String
    → OauthPendingRecord
    → List (String × OauthPendingRecord)
    → Bool
can_write cookie_valid disk now state rec files =
    disk
    && valid_oauth_pending_record cookie_valid now rec
    && not (not (is_some (lookup state files)) && leb oauth_pending_max_files (length files))

-- `registerOAuthPending`; `disk` says whether the disk's operations succeed.
unfoldable pub register_oauth_pending :
    (String → Bool)
    → Bool
    → ℕ
    → String
    → LoginCtx
    → OauthPending
    → OauthPending × Option RegisterError
register_oauth_pending cookie_valid disk now state lc s =
    if s.init_error
    then (s, some init_failed)
    else if leb oauth_pending_max_files (length s.recent + length s.states)
    then (s, some too_many)
    else if is_some (lookup state s.states) || is_some (lookup state s.recent)
    then (s, some duplicate)
    else let bound = record lc { stored = s.has_store } in
      if not s.has_store
      then (record s { states = insert state bound s.states }, none)
      else if is_some (lookup state s.files)
      then (s, some duplicate)
      else if can_write cookie_valid disk now state (oauth_record now state bound) s.files
      then (
        record s {
          states = insert state bound s.states;
          files = insert state (oauth_record now state bound) s.files;
        },
        none,
      )
      else (s, some storage)

-- `lookupOAuthPending`.
unfoldable pub lookup_oauth_pending : ℕ → String → OauthPending → OauthPending × Option LoginCtx
lookup_oauth_pending now state s =
    if s.init_error then (s, none) else elim (lookup state s.recent) [
      | some lc ↦ (s, some lc)
      | none ↦ elim (lookup state s.states) [
        | some lc ↦ (s, some lc)
        | none ↦ if not s.has_store then (s, none) else elim (lookup state s.files) [
          | none ↦ (s, none)
          | some rec ↦
              if leb rec.expires now
              then (record s { files = delete state s.files }, none)
              else if is_some rec.token
              then (
                record s { recent = insert state (restore now rec) s.recent },
                some (restore now rec),
              )
              else (
                record s { states = insert state (restore now rec) s.states },
                some (restore now rec),
              )
        ]
      ]
    ]

-- `retainOAuthResult`.
unfoldable pub retain_oauth_result : String → LoginCtx → OauthPending → OauthPending
retain_oauth_result state lc s = record s {
  recent = insert state lc s.recent;
  states = delete state s.states;
}

-- `removeOAuthPending` for a login that the maps hold.
unfoldable pub remove_oauth_pending : String → LoginCtx → OauthPending → OauthPending
remove_oauth_pending state lc s = record s {
  states = delete state s.states;
  recent = delete state s.recent;
  files = if lc.stored then delete state s.files else s.files;
}

test_same : (k : String) → (k == k) ≡ true
test_same k = (string_eq.beq_iff k k).1 refl

lookup-inserted {ℓ} :
    {V : Type ℓ} (k : String) (v : V) (m : List (String × V)) → lookup k (insert k v m) ≡ some v
lookup-inserted k v m = lookup-insert k k v m ∙ rw (test_same k) refl

lookup-deleted {ℓ} :
    {V : Type ℓ} (k : String) (m : List (String × V)) → Distinct m → lookup k (delete k m) ≡ none
lookup-deleted k m d = lookup-delete k k m d ∙ rw (test_same k) refl

module _ (cookie_valid : String → Bool) (disk : Bool) (now later : ℕ) (state : String)
    (lc : LoginCtx) (s : OauthPending) where
  -- What a registration that succeeds leaves.
  abbrev bound : LoginCtx
  bound = record lc { stored = s.has_store }

  abbrev registered : OauthPending
  registered = record s {
    states = insert state bound s.states;
    files = if s.has_store then insert state (oauth_record now state bound) s.files else s.files;
  }

  register_oauth_pending_ok :
      (register_oauth_pending cookie_valid disk now state lc s).1 ≡ none
      → ((register_oauth_pending cookie_valid disk now state lc s).0 ≡ registered)
        × (s.init_error ≡ false)
        × (is_some (lookup state s.recent) ≡ false)
        × (length s.recent + length s.states ≤ 127)
        × (is_some (lookup state s.states) ≡ false)
  unfolding register_oauth_pending
  register_oauth_pending_ok ok = ground arith

  lookup-registered :
      is_some (lookup state s.recent) ≡ false
      → s.init_error ≡ false
      → (lookup_oauth_pending later state registered).1 ≡ some bound
  unfolding lookup_oauth_pending
  lookup-registered fresh ready = ground (arith, lookup-inserted state bound s.states)

  lookup-removed :
      Distinct s.recent
      → Distinct s.states
      → Distinct s.files
      → (lookup_oauth_pending later state (remove_oauth_pending state bound registered)).1 ≡ none
  unfolding lookup_oauth_pending remove_oauth_pending
  lookup-removed r t f = ground (
    arith,
    lookup-deleted state s.recent r,
    lookup-deleted state (insert state bound s.states) (Distinct-insert state bound s.states t),
    lookup-deleted state (insert state (oauth_record now state bound) s.files)
        (Distinct-insert state (oauth_record now state bound) s.files f),
  )

  -- A login that has just been registered is the one that is looked up; after it has been removed it is
  -- not found, on disk either; and no more than 128 logins are then pending. The maps must have no key
  -- twice.
  pub register_oauth_pending-lookup :
      (register_oauth_pending cookie_valid disk now state lc s).1 ≡ none
      → Distinct s.recent
      → Distinct s.states
      → Distinct s.files
      → ((lookup_oauth_pending later state
            (register_oauth_pending cookie_valid disk now state lc s).0).1
          ≡ some bound)
        × ((lookup_oauth_pending later state (
              remove_oauth_pending state bound
                (register_oauth_pending cookie_valid disk now state lc s).0)).1
            ≡ none)
        × (length (register_oauth_pending cookie_valid disk now state lc s).0.recent
              + length (register_oauth_pending cookie_valid disk now state lc s).0.states
            ≤ oauth_pending_max_files)
  register_oauth_pending-lookup ok r t f =
      let e = register_oauth_pending_ok ok in
      rw e.0 (
        lookup-registered e.2 e.1,
        lookup-removed r t f,
        ground (arith, e.3, e.4, length-insert state bound s.states),
      )
