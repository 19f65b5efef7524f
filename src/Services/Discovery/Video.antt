-- ===== src/Services/Discovery/Video.antt =====
-- What a display of core/src/service/VideoService.cpp is advertised as.
use aa_v.Base.{ℕ, ◌≤◌, ◌≡◌, ◌⊎◌, ◌↔◌, true, Option, none, arith}
use aa_v.Services.Video.{VideoDisplayType, VideoServiceConfig, is_main}
use aa_v.Services.Discovery.{VideoCodecResolution, ServiceConfiguration, fill_video}

abbrev pub resolution_width : VideoCodecResolution → ℕ
resolution_width VideoCodecResolution.video_800x480 = 800
resolution_width VideoCodecResolution.video_1280x720 = 1280
resolution_width VideoCodecResolution.video_1920x1080 = 1920
resolution_width VideoCodecResolution.video_2560x1440 = 2560

-- The parts of a display's description.
abbrev pub advertised_width : ServiceConfiguration → ℕ
advertised_width (ServiceConfiguration.video_sink r f d w h t i) = resolution_width r
advertised_width _ = 0

abbrev pub advertised_type : ServiceConfiguration → Option VideoDisplayType
advertised_type (ServiceConfiguration.video_sink r f d w h t i) = t
advertised_type _ = none

abbrev pub advertised_id : ServiceConfiguration → Option ℕ
advertised_id (ServiceConfiguration.video_sink r f d w h t i) = i
advertised_id _ = none

-- The picture that a display is advertised with is 800 wide or not wider than the display, and no
-- wider one of the four resolutions fits the display. A main display with id 0, and no other, is
-- advertised with neither a display type nor a display id.
pub fill_video-fits :
    (c : VideoServiceConfig)
    → ((advertised_width (fill_video c) ≡ 800) ⊎ (advertised_width (fill_video c) ≤ c.width))
      × ((r : VideoCodecResolution)
          → resolution_width r ≤ c.width
          → resolution_width r ≤ advertised_width (fill_video c))
      × (((advertised_type (fill_video c) ≡ none) × (advertised_id (fill_video c) ≡ none))
          ↔ ((is_main c.display_type ≡ true) × (c.display_id ≡ 0)))
unfolding fill_video
fill_video-fits c = (ground arith, λ r h. ground (arith, h), ground arith)
