-- ===== src/Platform/Notices.antt =====
-- impl/android/aidl/AidlEngineController.cpp: the engine's callback, `IEngineCallback` of
-- core/include/aauto/engine/IEngineController.hpp, whose calls go on to the application over
-- binder.
use aa_v.Base.{
  ℕ, ◌^◌, ◌<◌, ◌≡◌, refl, ap, ◌∙◌, Bool, true, Option, none, some, List, [], ◌∷◌, ◌++◌, Bytes, ◌==◌,
  if◌then◌else◌,
}
use aa_v.Base.Assoc.{find}
use aa_v.Session.Handlers.{Command}
use aa_v.Engine.{Effect, SessionStatus, run_next}
use aa_v.Platform.{ℤ}
use aa_v.Platform.Controller.{AidlEngineController, to_int32, to_uint32, Request, request}
use aa_v.Platform.Sessions.{has_transport, to_uint32-to_int32}
use aa_v.Platform.Requests.{AsksFor, request_job-AsksFor, session_call-reaches}

-- The calls of `IEngineCallback`, each with the session's id first. A text is its bytes.
pub data Notification : Type 0 where
  session_state_changed : ℕ → SessionStatus → Notification
  session_error : ℕ → (value : ℤ) → (detail : Bytes) → Notification
  phone_identified : ℕ → (device_name instance_id : Bytes) → Notification
  video_delivered :
      ℕ → (channel : ℤ) → Bytes → (timestamp_us : ℤ) → (is_config : Bool) → Notification
  audio_delivered : ℕ → (stream_type : ℕ) → Bytes → (timestamp_us : ℤ) → Notification
  video_focus_changed : ℕ → (projected : Bool) → Notification
  playback_status :
      ℕ
      → (state : ℤ) → (media_source : Bytes) → (playback_seconds : ℕ)
      → (shuffle repeat repeat_one : Bool) → Notification
  playback_metadata :
      ℕ → (song artist album album_art playlist : Bytes) → (duration_seconds : ℕ) → Notification
  pairing_requested : ℕ → (phone_address : Bytes) → (method : ℤ) → Notification
  auth_data : ℕ → (text : Bytes) → (method : ℤ) → Notification

-- The calls of the application's `IAAEngineCallback`, with `int32_t`s and `String16`s, but for
-- onSessionConfig, whose calls the controller's `config_calls` hold.
pub data AppCall : Type 0 where
  session_state_changed : ℤ → (status : ℤ) → AppCall
  session_error : ℤ → (value : ℤ) → (detail : List ℕ) → AppCall
  phone_identified : ℤ → (device_name : List ℕ) → AppCall
  video_delivered : ℤ → (channel : ℤ) → Bytes → (timestamp_us : ℤ) → (is_config : Bool) → AppCall
  audio_delivered : ℤ → (stream_type : ℤ) → Bytes → (timestamp_us : ℤ) → AppCall
  video_focus_changed : ℤ → (projected : Bool) → AppCall
  playback_status :
      ℤ
      → (state : ℤ) → (media_source : List ℕ) → (playback_seconds : ℤ)
      → (shuffle repeat repeat_one : Bool) → AppCall
  playback_metadata :
      ℤ
      → (song artist album : List ℕ) → (album_art : Bytes) → (playlist : List ℕ)
      → (duration_seconds : ℤ) → AppCall
  pairing_requested : ℤ → (phone_address : List ℕ) → (method : ℤ) → AppCall
  auth_data : ℤ → (text : List ℕ) → (method : ℤ) → AppCall

abbrev pub status_number : SessionStatus → ℕ
status_number SessionStatus.connecting = 0
status_number SessionStatus.handshaking = 1
status_number SessionStatus.running = 2
status_number SessionStatus.disconnecting = 3
status_number SessionStatus.disconnected = 4
status_number SessionStatus.error = 5

-- What is read of the `c_str()` of a `std::string`: its bytes before the first 0.
unfoldable pub c_str : Bytes → Bytes
c_str [] = []
c_str (b ∷ bytes) = let rest = c_str bytes in if b == 0 then [] else b ∷ rest

-- `string16` is Android's `String16` of a zero-terminated UTF-8 text.
module _ (string16 : Bytes → List ℕ) where
  unfoldable pub app_call : Notification → AppCall
  unfolding to_int32 c_str
  app_call (Notification.session_state_changed id status) =
      AppCall.session_state_changed (to_int32 id) (to_int32 (status_number status))
  app_call (Notification.session_error id value detail) =
      AppCall.session_error (to_int32 id) value (string16 (c_str detail))
  app_call (Notification.phone_identified id device_name instance_id) =
      AppCall.phone_identified (to_int32 id) (string16 (c_str device_name))
  app_call (Notification.video_delivered id channel bytes timestamp_us is_config) =
      AppCall.video_delivered (to_int32 id) channel bytes timestamp_us is_config
  app_call (Notification.audio_delivered id stream_type bytes timestamp_us) =
      AppCall.audio_delivered (to_int32 id) (to_int32 stream_type) bytes timestamp_us
  app_call (Notification.video_focus_changed id projected) =
      AppCall.video_focus_changed (to_int32 id) projected
  app_call (Notification.playback_status id state source seconds shuffle repeat repeat_one) =
      AppCall.playback_status (to_int32 id) state (string16 (c_str source)) (to_int32 seconds)
        shuffle repeat repeat_one
  app_call (Notification.playback_metadata id song artist album album_art playlist seconds) =
      AppCall.playback_metadata (to_int32 id) (string16 (c_str song)) (string16 (c_str artist))
        (string16 (c_str album)) album_art (string16 (c_str playlist)) (to_int32 seconds)
  app_call (Notification.pairing_requested id phone_address method) =
      AppCall.pairing_requested (to_int32 id) (string16 (c_str phone_address)) method
  app_call (Notification.auth_data id text method) =
      AppCall.auth_data (to_int32 id) (string16 (c_str text)) method

  -- The application's calls by one call of the engine.
  unfoldable pub notify : Notification → AidlEngineController → List AppCall
  unfolding app_call
  notify n c = if c.has_callback then app_call n ∷ [] else []

-- `utf8` is Android's `String8` of a text; the result is what the sink, if one is set, gets.
unfoldable pub set_bluetooth_mac : (utf8 : List ℕ → Bytes) → Bool → List ℕ → Option Bytes
unfolding c_str
set_bluetooth_mac utf8 has_sink mac = if has_sink then some (c_str (utf8 mac)) else none

abbrev pub notified : Notification → ℕ
notified (Notification.session_state_changed id _) = id
notified (Notification.session_error id _ _) = id
notified (Notification.phone_identified id _ _) = id
notified (Notification.video_delivered id _ _ _ _) = id
notified (Notification.audio_delivered id _ _ _) = id
notified (Notification.video_focus_changed id _) = id
notified (Notification.playback_status id _ _ _ _ _ _) = id
notified (Notification.playback_metadata id _ _ _ _ _ _) = id
notified (Notification.pairing_requested id _ _) = id
notified (Notification.auth_data id _ _) = id

abbrev pub call_id : AppCall → ℤ
call_id (AppCall.session_state_changed id _) = id
call_id (AppCall.session_error id _ _) = id
call_id (AppCall.phone_identified id _) = id
call_id (AppCall.video_delivered id _ _ _ _) = id
call_id (AppCall.audio_delivered id _ _ _) = id
call_id (AppCall.video_focus_changed id _) = id
call_id (AppCall.playback_status id _ _ _ _ _ _) = id
call_id (AppCall.playback_metadata id _ _ _ _ _ _) = id
call_id (AppCall.pairing_requested id _ _) = id
call_id (AppCall.auth_data id _ _) = id

module _ (string16 : Bytes → List ℕ) where
  app_call-id : (n : Notification) → call_id (app_call string16 n) ≡ to_int32 (notified n)
  unfolding app_call
  app_call-id (Notification.session_state_changed _ _) = refl
  app_call-id (Notification.session_error _ _ _) = refl
  app_call-id (Notification.phone_identified _ _ _) = refl
  app_call-id (Notification.video_delivered _ _ _ _ _) = refl
  app_call-id (Notification.audio_delivered _ _ _ _) = refl
  app_call-id (Notification.video_focus_changed _ _) = refl
  app_call-id (Notification.playback_status _ _ _ _ _ _ _) = refl
  app_call-id (Notification.playback_metadata _ _ _ _ _ _ _) = refl
  app_call-id (Notification.pairing_requested _ _ _) = refl
  app_call-id (Notification.auth_data _ _ _) = refl

  -- Each call of the engine's callback, whatever it reports, gives a registered application one
  -- call, from which it can answer: on an idle engine, whose sessions have `uint32_t` ids, each of
  -- the nine requests that call a session, made with the `int` of that call, is the next call that
  -- the engine makes, of that name and with the same arguments, on the session that the callback
  -- was about, if that session is still there.
  pub notify-answered :
      (service_ids : ℕ → List ℕ) (n : Notification) (c : AidlEngineController) (make : ℤ → Request)
      (command : Command) (channels : List ℕ)
      → AsksFor make command
      → notified n < 2 ^ 32
      → c.has_callback ≡ true
      → c.engine.jobs ≡ []
      → find (notified n) c.engine.sessions ≡ some channels
      → (call : AppCall) × (notify string16 n c ≡ call ∷ [])
        × ((run_next has_transport service_ids (request (make (call_id call)) c).engine).effects
            ≡ c.engine.effects ++ Effect.session_command (notified n) command ∷ [])
  unfolding notify request
  notify-answered service_ids n c make command channels asks small registered idle there =
      let same : to_uint32 (call_id (app_call string16 n)) ≡ notified n =
        ap to_uint32 (app_call-id n) ∙ to_uint32-to_int32 (notified n) small in
      (
        app_call string16 n,
        rw registered refl,
        rw (request_job-AsksFor make command asks (call_id (app_call string16 n))) (
            rw same
              (session_call-reaches service_ids (notified n) command channels c.engine idle there)),
      )
