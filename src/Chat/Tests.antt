-- ===== src/Chat/Tests.antt =====
-- The theorems on chat errors at concrete errors.
use workbuddy_cpa_plugin.Base.{ℕ, Option, some, String}
use workbuddy_cpa_plugin.Json.{Json, string, object, field, end}
use workbuddy_cpa_plugin.Chat.{chat_error_fields}
use workbuddy_cpa_plugin.Chat.Classify.{classify_chat_failure, chat_upstream_error}
use workbuddy_cpa_plugin.Chat.Frames.{
  IsReported, chat_stream_frame_error, chat_stream_frame_error-IsReported,
}
use workbuddy_cpa_plugin.Chat.Surface.{IsSurfaced, chat_upstream_error-IsSurfaced}

abbrev same_rune : ℕ → ℕ
same_rune c = c

-- A decoder that knows one body.
abbrev decode_denied : String → Option Json
decode_denied body = some (object (field "message" (string "access denied") end))

abbrev excerpt : String → String
excerpt body = body

chat_upstream_error-IsSurfaced_example :
    IsSurfaced 403
      (chat_error_fields same_rune decode_denied "{}")
      (classify_chat_failure same_rune decode_denied 403 "{}")
      (excerpt "{}")
      (chat_upstream_error same_rune decode_denied excerpt 403 "{}")
chat_upstream_error-IsSurfaced_example =
    chat_upstream_error-IsSurfaced same_rune decode_denied excerpt 403 "{}"

chat_stream_frame_error-IsReported_example :
    IsReported same_rune decode_denied excerpt "{}"
      (chat_stream_frame_error same_rune decode_denied excerpt "{}")
chat_stream_frame_error-IsReported_example =
    chat_stream_frame_error-IsReported same_rune decode_denied excerpt "{}"
