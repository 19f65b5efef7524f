-- ===== src/Services/Any.antt =====
-- The services in core/src/service behind core/include/aauto/service/IService.hpp: any of them, as
-- a session holds it.
pub mod Streams
use aa_v.Base.{ℕ, ◌≡◌, refl, Bool, Option, none, some, List, [], ◌∷◌, Bytes}
use aa_v.Service.{IService, Program, ServiceType}
use aa_v.Services
use aa_v.Services.{exec}
use aa_v.Services.Control as Control
use aa_v.Services.Control.{ControlMessages, ControlService}
use aa_v.Services.Video as Video
use aa_v.Services.Video.{VideoMessages, VideoService}
use aa_v.Services.Audio as Audio
use aa_v.Services.Audio.{AudioMessages, AudioService}
use aa_v.Services.Input as Input
use aa_v.Services.Input.{InputMessages, InputService}
use aa_v.Services.Sensor as Sensor
use aa_v.Services.Sensor.{SensorMessages, SensorService}
use aa_v.Services.Playback as Playback
use aa_v.Services.Playback.{PlaybackMessages, MediaPlaybackService}
use aa_v.Services.Phone as Phone
use aa_v.Services.Phone.{PhoneStatus, PhoneStatusService}
use aa_v.Services.Bluetooth as Bluetooth
use aa_v.Services.Bluetooth.{BluetoothMessages, BluetoothService}

-- `now_us` is what the input service reads from the steady clock; time passes between events. Of
-- the microphone service, which has no handler, there is only the channel.
pub data AnyService : Type 0 where
  control : ControlService → AnyService
  video : VideoService → AnyService
  audio : AudioService → AnyService
  input : (now_us : ℕ) → InputService → AnyService
  sensor : SensorService → AnyService
  microphone : (channel_id : ℕ) → AnyService
  phone : PhoneStatusService → AnyService
  playback : MediaPlaybackService → AnyService
  bluetooth : BluetoothService → AnyService

-- What generated code reads and writes for each of them.
pub record AnyMessages : Type 0 where
  pub control : ControlMessages
  pub video : VideoMessages
  pub audio : AudioMessages
  pub input : InputMessages
  pub sensor : SensorMessages
  pub phone : Bytes → Option PhoneStatus
  pub playback : PlaybackMessages
  pub bluetooth : BluetoothMessages

-- A method of one class as a method of any service.
module _ {A : Type 0} (of_class : A → AnyService) (in_class : AnyService → Option A) where
  unfoldable pub lift : Program A → Program AnyService
  lift Program.done = Program.done
  lift (Program.get k) =
      Program.get (λ v. elim (in_class v) [ none ↦ Program.done | some a ↦ lift (k a) ])
  lift (Program.put a rest) = Program.put (of_class a) (lift rest)
  lift (Program.send channel_id message_type payload rest) =
      Program.send channel_id message_type payload (lift rest)
  lift (Program.request_stop rest) = Program.request_stop (lift rest)

  -- Run on a service of its class, it does the same.
  pub exec-lift :
      (in_lem : (a : A) → in_class (of_class a) ≡ some a)
      → (program : Program A) (a : A)
      → exec (lift program) (of_class a) ≡ (of_class (exec program a).0, (exec program a).1)
  unfolding lift exec
  exec-lift in_lem Program.done a = refl
  exec-lift in_lem (Program.get k) a = rw (in_lem a, exec) (exec-lift in_lem (k a) a)
  exec-lift in_lem (Program.put b rest) a = exec-lift in_lem rest b
  exec-lift in_lem (Program.send channel_id message_type payload rest) a =
      rw (exec-lift in_lem rest a) refl
  exec-lift in_lem (Program.request_stop rest) a = rw (exec-lift in_lem rest a) refl

abbrev pub as_control : AnyService → Option ControlService
as_control (AnyService.control v) = some v
as_control _ = none

abbrev pub as_video : AnyService → Option VideoService
as_video (AnyService.video v) = some v
as_video _ = none

abbrev pub as_audio : AnyService → Option AudioService
as_audio (AnyService.audio v) = some v
as_audio _ = none

abbrev pub as_input : AnyService → Option InputService
as_input (AnyService.input now_us v) = some v
as_input _ = none

abbrev pub as_sensor : AnyService → Option SensorService
as_sensor (AnyService.sensor v) = some v
as_sensor _ = none

abbrev pub as_phone : AnyService → Option PhoneStatusService
as_phone (AnyService.phone v) = some v
as_phone _ = none

abbrev pub as_playback : AnyService → Option MediaPlaybackService
as_playback (AnyService.playback v) = some v
as_playback _ = none

abbrev pub as_bluetooth : AnyService → Option BluetoothService
as_bluetooth (AnyService.bluetooth v) = some v
as_bluetooth _ = none

-- `lift` for each class.
abbrev pub of_control : Program ControlService → Program AnyService
of_control = lift AnyService.control as_control

abbrev pub of_video : Program VideoService → Program AnyService
of_video = lift AnyService.video as_video

abbrev pub of_audio : Program AudioService → Program AnyService
of_audio = lift AnyService.audio as_audio

abbrev pub of_input : ℕ → Program InputService → Program AnyService
of_input now_us = lift (AnyService.input now_us) as_input

abbrev pub of_sensor : Program SensorService → Program AnyService
of_sensor = lift AnyService.sensor as_sensor

abbrev pub of_phone : Program PhoneStatusService → Program AnyService
of_phone = lift AnyService.phone as_phone

abbrev pub of_playback : Program MediaPlaybackService → Program AnyService
of_playback = lift AnyService.playback as_playback

abbrev pub of_bluetooth : Program BluetoothService → Program AnyService
of_bluetooth = lift AnyService.bluetooth as_bluetooth

-- The channel of a service that is its channel.
abbrev pub as_microphone : AnyService → Option ℕ
as_microphone (AnyService.microphone channel_id) = some channel_id
as_microphone _ = none

-- `on_channel_open` of ServiceBase, which the other classes override or keep.
abbrev pub on_microphone_message : ℕ → Bytes → Program ℕ
on_microphone_message message_type payload =
    Services.on_message (λ channel_id. channel_id)
      (λ channel_id. Program.put channel_id Program.done) (λ t. none) message_type payload

module _ (messages : AnyMessages) where
  unfoldable pub on_any_message : ℕ → Bytes → AnyService → Program AnyService
  unfolding lift
  on_any_message t payload (AnyService.control v) =
      of_control (Control.on_control_message messages.control t payload)
  on_any_message t payload (AnyService.video v) =
      of_video (Video.on_video_message messages.video t payload)
  on_any_message t payload (AnyService.audio v) =
      of_audio (Audio.on_audio_message messages.audio t payload)
  on_any_message t payload (AnyService.input now_us v) =
      of_input now_us (Input.on_input_message messages.input t payload)
  on_any_message t payload (AnyService.sensor v) =
      of_sensor (Sensor.on_sensor_message messages.sensor t payload)
  on_any_message t payload (AnyService.microphone channel_id) =
      lift AnyService.microphone as_microphone (on_microphone_message t payload)
  on_any_message t payload (AnyService.phone v) =
      of_phone (Phone.on_phone_message messages.phone t payload)
  on_any_message t payload (AnyService.playback v) =
      of_playback (Playback.on_playback_message messages.playback t payload)
  on_any_message t payload (AnyService.bluetooth v) =
      of_bluetooth (Bluetooth.on_bluetooth_message messages.bluetooth t payload)

  unfoldable pub send_any_touch : ℕ → ℕ → ℕ → AnyService → Program AnyService
  unfolding lift
  send_any_touch x y action (AnyService.input now_us v) =
      of_input now_us (Input.send_touch messages.input now_us x y action)
  send_any_touch x y action _ = Program.done

  unfoldable pub send_any_media_key : ℕ → AnyService → Program AnyService
  unfolding lift
  send_any_media_key keycode (AnyService.input now_us v) =
      of_input now_us (Input.send_media_key messages.input now_us keycode)
  send_any_media_key keycode _ = Program.done

abbrev pub any_type : AnyService → ServiceType
any_type (AnyService.control v) = ServiceType.control
any_type (AnyService.video v) = ServiceType.media_sink
any_type (AnyService.audio v) = ServiceType.media_sink
any_type (AnyService.input now_us v) = ServiceType.input_source
any_type (AnyService.sensor v) = ServiceType.sensor_source
any_type (AnyService.microphone channel_id) = ServiceType.media_source
any_type (AnyService.phone v) = ServiceType.phone_status
any_type (AnyService.playback v) = ServiceType.media_playback
any_type (AnyService.bluetooth v) = ServiceType.bluetooth_service

-- A class that overrides nothing sets its channel to 0.
unfoldable pub on_any_channel_close : AnyService → AnyService
on_any_channel_close (AnyService.control v) = AnyService.control (Control.on_channel_close v)
on_any_channel_close (AnyService.video v) = AnyService.video (Video.on_channel_close v)
on_any_channel_close (AnyService.audio v) = AnyService.audio (Audio.on_channel_close v)
on_any_channel_close (AnyService.input now_us v) =
    AnyService.input now_us (record v { channel_id = 0 })
on_any_channel_close (AnyService.sensor v) = AnyService.sensor (record v { channel_id = 0 })
on_any_channel_close (AnyService.microphone channel_id) = AnyService.microphone 0
on_any_channel_close (AnyService.phone v) = AnyService.phone (record v { channel_id = 0 })
on_any_channel_close (AnyService.playback v) = AnyService.playback (record v { channel_id = 0 })
on_any_channel_close (AnyService.bluetooth v) = AnyService.bluetooth (record v { channel_id = 0 })

abbrev pub attach_any : AnyService → Program AnyService
attach_any (AnyService.video v) = of_video Video.attach_sinks
attach_any (AnyService.audio v) = of_audio Audio.attach_sinks
attach_any _ = Program.done

abbrev pub detach_any : AnyService → Program AnyService
detach_any (AnyService.video v) = of_video Video.detach_sinks
detach_any (AnyService.audio v) = of_audio Audio.detach_sinks
detach_any _ = Program.done

-- A method that one class overrides is nothing for the others, since they are not of the class.
unfoldable pub any_service : AnyMessages → IService AnyService
any_service messages = record {
  on_message = λ t payload. Program.get (on_any_message messages t payload);
  on_channel_close = on_any_channel_close;
  on_session_stop = of_control (Control.on_session_stop messages.control);
  set_native_window = λ window. of_video (Video.set_native_window window);
  send_touch = λ x y action. Program.get (send_any_touch messages x y action);
  send_media_key = λ keycode. Program.get (send_any_media_key messages keycode);
  release_audio_focus = of_control (Control.release_audio_focus messages.control);
  gain_audio_focus = of_control (Control.gain_audio_focus messages.control);
  set_video_focus =
      λ projected. of_video (Video.set_video_focus messages.video projected Program.done);
  attach_sinks = Program.get attach_any;
  detach_sinks = Program.get detach_any;
  type = any_type;
  send_pairing_response = λ status already_paired.
      of_bluetooth (Bluetooth.send_pairing_response messages.bluetooth status already_paired);
  send_auth_result = λ status. of_bluetooth (Bluetooth.send_auth_result messages.bluetooth status);
}
