-- ===== src/Services/Video/Inputs.antt =====
-- What reaches a service of core/src/service/VideoService.cpp, and its answers.
use aa_v.Base.{ℕ, Bool, List, [], Bytes}
use aa_v.Service.{Program}
use aa_v.Services.{Call, exec}
use aa_v.Services.Video.{
  VideoMessages, VideoService, on_channel_close, attach_sinks, detach_sinks, set_video_focus,
  set_native_window, on_video_message,
}

pub data Input : Type 0 where
  message : ℕ → Bytes → Input
  focused : Bool → Input
  window : ℕ → Input
  attached detached closed : Input

-- The service's answer to an input.
abbrev pub respond : VideoMessages → Input → VideoService → VideoService × List Call
respond messages (Input.message t payload) v = exec (on_video_message messages t payload) v
respond messages (Input.focused projected) v =
    exec (set_video_focus messages projected Program.done) v
respond messages (Input.window address) v = exec (set_native_window address) v
respond messages Input.attached v = exec attach_sinks v
respond messages Input.detached v = exec detach_sinks v
respond messages Input.closed v = (on_channel_close v, [])
