-- ===== src/Services/Sensor/Answers.antt =====
-- What core/src/service/SensorService.cpp sends.
use aa_v.Base.{
  ℕ, ◌≡◌, refl, ap, ◌∙◌, Option, none, some, List, [], ◌∷◌, ◌++◌, Bytes, ◌==◌, arith, if◌then◌else◌,
}
use aa_v.Protocol.{ControlMessageType, control_code}
use aa_v.Protocol.Channels.{SensorMessageType, sensor_code}
use aa_v.Services
use aa_v.Services.{Call, exec, handle}
use aa_v.Services.Media.{serve_all}
use aa_v.Services.Sensor.{
  SensorMessages, SensorService, sensor_driving_status_data, send_sensor, send_driving_status,
  on_channel_open, on_request, handlers, on_sensor_message,
}

module _ (messages : SensorMessages) where
  -- A message of the channel: its type and its payload.
  abbrev pub respond : ℕ × Bytes → SensorService → SensorService × List Call
  respond (t, payload) v = exec (on_sensor_message messages t payload) v

  -- The driving status, sent on a channel.
  abbrev pub driving_status : ℕ → List Call
  driving_status channel_id =
      Call.sent channel_id (sensor_code SensorMessageType.batch) messages.serialized_batch ∷ []

  abbrev pub answer_request : ℕ → Option ℕ → List Call
  answer_request channel_id none = []
  answer_request channel_id (some sensor_type) =
      Call.sent channel_id (sensor_code SensorMessageType.response) messages.serialized_response
      ∷ (if sensor_type == sensor_driving_status_data then driving_status channel_id else [])

  abbrev pub answer : ℕ → ℕ × Bytes → List Call
  answer channel_id (t, payload) =
      if t == control_code ControlMessageType.channel_open_request
      then Call.sent channel_id (control_code ControlMessageType.channel_open_response) (8 ∷ 0 ∷ [])
        ∷ driving_status channel_id
      else if t == sensor_code SensorMessageType.request
      then answer_request channel_id (messages.parse_request payload)
      else []

  abbrev pub answers : ℕ → List (ℕ × Bytes) → List Call
  answers channel_id [] = []
  answers channel_id (i ∷ is) = answer channel_id i ++ answers channel_id is

  request-answer :
      (parsed : Option ℕ) (v : SensorService)
      → exec (on_request messages parsed) v ≡ (v, answer_request v.channel_id parsed)
  unfolding on_request send_sensor send_driving_status exec
  request-answer none v = refl
  request-answer (some sensor_type) v = ground arith

  respond-answer : (i : ℕ × Bytes) (v : SensorService) → respond i v ≡ (v, answer v.channel_id i)
  unfolding on_sensor_message Services.on_message Services.send handlers handle on_channel_open
      send_driving_status send_sensor exec
  respond-answer (t, payload) v = ground (arith, request-answer (messages.parse_request payload) v)

  -- Whatever messages a sensor service gets, it sends on its channel, in the order of the messages:
  -- to a channel open request the response and then the driving status; to a sensor request that it
  -- can parse a success, followed by the driving status if that is the sensor asked for; and to any
  -- other message nothing.
  pub serve_all-answers :
      (is : List (ℕ × Bytes)) (v : SensorService)
      → serve_all respond is v ≡ (v, answers v.channel_id is)
  serve_all-answers [] v = refl
  serve_all-answers (i ∷ is) v =
      ap
        (λ (r : SensorService × List Call).
          let (u, more) = serve_all respond is r.0 in (u, r.1 ++ more))
        (respond-answer i v)
      ∙ ap (λ (r : SensorService × List Call). (r.0, answer v.channel_id i ++ r.1))
          (serve_all-answers is v)
