-- ===== src/Chat/Frames.antt =====
-- `chatStreamFrameError` of workbuddy/chat_error.go: error envelopes on a stream whose HTTP status is a
-- success.
use workbuddy_cpa_plugin.Base.{
  ℕ, zero, ◌≡◌, refl, ◌⊎◌, inl, inr, Bool, true, false, ◌&&◌, ◌||◌, not, Option, none, some, String,
  arith, if◌then◌else◌, ◌==◌, string_eq, is_some, Bool-cases,
}
use workbuddy_cpa_plugin.Base.Int.{ℤ, pos}
use workbuddy_cpa_plugin.Base.Text.{codes, parse_int64, is_empty}
use workbuddy_cpa_plugin.Json.{Json, null, bool, number, string, array, object, Fields, get}
use workbuddy_cpa_plugin.Cooldown.{is_unset}
use workbuddy_cpa_plugin.Chat.{chat_error_fields}
use workbuddy_cpa_plugin.Chat.Classify.{
  UpstreamStatusError, classify_chat_failure, chat_upstream_error, surface,
}

-- No error, one that `chatUpstreamError` words, or a frame cut short.
pub data FrameError : Type 0 where
  ignored cut_short : FrameError
  worded : UpstreamStatusError → FrameError

abbrev pub is_error_value : Option Json → Bool
is_error_value none = false
is_error_value (some null) = false
is_error_value (some (string s)) = not (is_empty s)
is_error_value _ = true

abbrev is_nonzero : Option ℤ → Bool
is_nonzero (some (pos zero)) = false
is_nonzero (some _) = true
is_nonzero none = false

abbrev is_error_type : Option Json → Bool
is_error_type (some (string s)) = s == "error"
is_error_type _ = false

module _ (unicode : ℕ → ℕ) (decode : String → Option Json)
    (truncate_redacted : String → String) where
  abbrev is_rejected : String → Bool
  is_rejected content =
      let f = classify_chat_failure unicode decode 200 content in
      not (is_unset f.reason) || f.credential_invalid

  -- `hasError` in the end, for an object without choices.
  abbrev pub has_error : String → Fields → Bool
  has_error content obj =
      let code = (chat_error_fields unicode decode content).code in
      is_error_value (get "error" obj)
      || is_nonzero (parse_int64 (codes code))
      || is_error_type (get "type" obj)
      || (is_empty code
          && (is_some (get "msg" obj) || is_some (get "message" obj))
          && is_rejected content)

  abbrev frame_error : String → Fields → FrameError
  frame_error content obj =
      if is_some (get "choices" obj) || not (has_error content obj)
      then ignored
      else if is_rejected content
      then worded (chat_upstream_error unicode decode truncate_redacted 200 content)
      else cut_short

  abbrev frame_of : String → Option Json → FrameError
  frame_of content (some (object obj)) = frame_error content obj
  frame_of content _ = ignored

  -- `chatStreamFrameError`.
  unfoldable pub chat_stream_frame_error : String → FrameError
  chat_stream_frame_error content = frame_of content (decode content)

  -- How a frame is reported: not at all, or, for an object without choices, as cut short or with a
  -- worded error, which has the status 401 or none.
  abbrev pub IsReported : String → FrameError → Type 0
  IsReported content out =
      (out ≡ ignored)
      ⊎ ((obj : Fields) × (decode content ≡ some (object obj))
          × (get "choices" obj ≡ none)
          × ((out ≡ cut_short)
              ⊎ ((e : UpstreamStatusError) × (out ≡ worded e)
                  × ((e.status ≡ 0) ⊎ (e.status ≡ 401)))))

  worded_status :
      (content : String)
      → is_rejected content ≡ true
      → let e = chat_upstream_error unicode decode truncate_redacted 200 content in
        (e.status ≡ 0) ⊎ (e.status ≡ 401)
  unfolding chat_upstream_error surface
  worded_status content h = ground arith

  reported :
      (content : String) (obj : Fields)
      → decode content ≡ some (object obj)
      → IsReported content (frame_error content obj)
  reported content obj there =
      elim (Bool-cases (is_some (get "choices" obj) || not (has_error content obj))) [
        | inl quiet ↦ rw quiet (inl refl)
        | inr loud ↦
            let plain : get "choices" obj ≡ none = ground (arith, loud) in
            elim (Bool-cases (is_rejected content)) [
              | inl rejected ↦
                  rw (loud, rejected)
                    (inr (obj, there, plain, inr (_, refl, worded_status content rejected)))
              | inr other ↦ rw (loud, other) (inr (obj, there, plain, inl refl))
            ]
      ]

  frame_of-IsReported :
      (content : String) (d : Option Json)
      → decode content ≡ d
      → IsReported content (frame_of content d)
  frame_of-IsReported content none e = inl refl
  frame_of-IsReported content (some null) e = inl refl
  frame_of-IsReported content (some (bool b)) e = inl refl
  frame_of-IsReported content (some (number n)) e = inl refl
  frame_of-IsReported content (some (string s)) e = inl refl
  frame_of-IsReported content (some (array xs)) e = inl refl
  frame_of-IsReported content (some (object obj)) e = reported content obj e

  -- A frame of a stream is not taken for an error unless it is an object without choices; it is then
  -- reported as cut short, or with a worded error that carries the status 401 or none.
  pub chat_stream_frame_error-IsReported :
      (content : String) → IsReported content (chat_stream_frame_error content)
  unfolding chat_stream_frame_error
  chat_stream_frame_error-IsReported content = frame_of-IsReported content (decode content) refl
