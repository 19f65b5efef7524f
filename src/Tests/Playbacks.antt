-- ===== src/Tests/Playbacks.antt =====
-- core/src/service/MediaPlaybackService.cpp with a song that goes on, and one that is paused.
use aa_v.Base.{ℕ, ◌≡◌, true, false, Option, none, some, List, [], ◌∷◌, Bytes}
use aa_v.Services.Media.{serve_all}
use aa_v.Services.Playback.{PlaybackStatus, PlaybackMessages, create}
use aa_v.Services.Playback.Heartbeat.{respond}
use aa_v.Services.Playback.Log.{serve_all-news}

abbrev status : ℕ → ℕ → PlaybackStatus
status state seconds = record {
  state = state;
  media_source = 1 ∷ [];
  playback_seconds = seconds;
  shuffle = false;
  repeat = false;
  repeat_one = false;
}

-- A status is its state and its position.
abbrev parse : Bytes → Option PlaybackStatus
parse (state ∷ seconds ∷ []) = some (status state seconds)
parse _ = none

abbrev pub messages : PlaybackMessages
messages = record { parse_status = parse; parse_metadata = λ payload. none }

abbrev inputs : List (ℕ × Bytes)
inputs =
    (32769, 2 ∷ 1 ∷ [])
    ∷ (32769, 2 ∷ 2 ∷ [])
    ∷ (32769, 3 ∷ 2 ∷ [])
    ∷ (32769, [])
    ∷ (32769, 3 ∷ 2 ∷ [])
    ∷ []

serve_all-news_example :
    let w = (serve_all (respond messages) inputs (create true true)).0 in
    (w.status_lines ≡ status 2 1 ∷ status 3 2 ∷ [])
    × (w.status_calls ≡ status 2 1 ∷ status 2 2 ∷ status 3 2 ∷ status 3 2 ∷ [])
    × (w.metadata_calls ≡ [])
serve_all-news_example = serve_all-news messages inputs
