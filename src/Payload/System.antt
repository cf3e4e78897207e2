-- ===== src/Payload/System.antt =====
-- What the insertion of a system message leaves.
use workbuddy_cpa_plugin.Base.{ℕ, ◌≡◌, Bool, true, false, some, String, arith, inl, inr, Bool-cases}
use workbuddy_cpa_plugin.Json.{Json, array, Items, cons, Fields, get, put}
use workbuddy_cpa_plugin.Accounts.{StoredAuth, is_global_domain}
use workbuddy_cpa_plugin.Payload.{has_system, system_message, ensure_system_message_in_place}
use workbuddy_cpa_plugin.Payload.Tools.{get-put}

has_system-again :
    (equal_fold : String → String → Bool) (ms : Items)
    → equal_fold "system" "system" ≡ true
    → has_system equal_fold (cons system_message ms) ≡ true
unfolding has_system get
has_system-again equal_fold ms same = ground (arith, same)

module _ (unicode : ℕ → ℕ) (equal_fold : String → String → Bool) (sa : StoredAuth)
    (global : is_global_domain unicode sa.domain ≡ true) where
  kept :
      (obj : Fields) (m : Json) (ms : Items)
      → get "messages" obj ≡ some (array (cons m ms))
      → has_system equal_fold (cons m ms) ≡ true
      → ensure_system_message_in_place unicode equal_fold (some sa) obj ≡ (obj, false)
  unfolding ensure_system_message_in_place
  kept obj m ms there found = ground (arith, global, there, found)

  added :
      (obj : Fields) (m : Json) (ms : Items)
      → get "messages" obj ≡ some (array (cons m ms))
      → has_system equal_fold (cons m ms) ≡ false
      → ensure_system_message_in_place unicode equal_fold (some sa) obj
        ≡ (put "messages" (array (cons system_message (cons m ms))) obj, true)
  unfolding ensure_system_message_in_place
  added obj m ms there missing = ground (arith, global, there, missing)

  -- With an account of the global site and a list of messages that is not empty, the request has a
  -- system message afterwards, and a second pass leaves it as it is. What is relied on is that
  -- `strings.EqualFold` finds "system" equal to itself.
  pub ensure_system_message_in_place-has_system :
      (obj : Fields) (m : Json) (ms : Items)
      → equal_fold "system" "system" ≡ true
      → get "messages" obj ≡ some (array (cons m ms))
      → let out = (ensure_system_message_in_place unicode equal_fold (some sa) obj).0 in
        ((ns : Items) × (get "messages" out ≡ some (array ns)) × (has_system equal_fold ns ≡ true))
        × (ensure_system_message_in_place unicode equal_fold (some sa) out ≡ (out, false))
  ensure_system_message_in_place-has_system obj m ms same there =
      elim (Bool-cases (has_system equal_fold (cons m ms))) [
        | inl found ↦
            rw (kept obj m ms there found) ((cons m ms, there, found), kept obj m ms there found)
        | inr missing ↦
            let new = put "messages" (array (cons system_message (cons m ms))) obj in
            let placed =
              get-put "messages" "messages" (array (cons system_message (cons m ms))) obj in
            let present = has_system-again equal_fold (cons m ms) same in
            rw (added obj m ms there missing) (
              (cons system_message (cons m ms), placed, present),
              kept new system_message (cons m ms) placed present,
            )
      ]
