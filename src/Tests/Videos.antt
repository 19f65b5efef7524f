-- ===== src/Tests/Videos.antt =====
-- core/src/service/VideoService.cpp with a picture that is shown, and one that is not.
use aa_v.Base.{ℕ, true, false, Option, none, some, List, [], ◌∷◌, Bytes, if◌then◌else◌}
use aa_v.Services.Media.{serve_all}
use aa_v.Services.Video.{VideoDisplayType, VideoMessages, VideoService, create}
use aa_v.Services.Video.Inputs.{Input, respond}
use aa_v.Services.Video.Notices.{FocusAnswer, serve_all-FocusAnswer}

abbrev parse_mode : Bytes → Option ℕ
parse_mode [] = none
parse_mode (mode ∷ bytes) = some mode

abbrev pub messages : VideoMessages
messages = record {
  serialized_config = 1 ∷ [];
  parse_start = λ payload. some 7;
  serialize_ack = λ session_id. session_id ∷ [];
  parse_focus_request = parse_mode;
  serialize_focus = λ projected. if projected then 1 ∷ [] else 2 ∷ [];
}

abbrev dark : VideoService
dark =
    create
      (record {
        width = 800;
        height = 480;
        fps = 30;
        density = 160;
        display_type = VideoDisplayType.main;
        display_id = 0;
      })
      true

-- A stream with a configuration, a picture without focus and one with it; then the phone leaves.
abbrev inputs : List Input
inputs =
    Input.message 32769 []
    ∷ Input.message 1 (9 ∷ [])
    ∷ Input.message 0 (1 ∷ [])
    ∷ Input.focused true
    ∷ Input.message 0 (2 ∷ [])
    ∷ Input.message 32775 (2 ∷ [])
    ∷ Input.closed
    ∷ []

serve_all-FocusAnswer_example :
    FocusAnswer messages
      (true ∷ false ∷ [])
      (false ∷ [])
      (true ∷ false ∷ [])
      dark
      (serve_all (respond messages) inputs dark)
serve_all-FocusAnswer_example = serve_all-FocusAnswer messages inputs dark
