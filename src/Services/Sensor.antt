-- ===== src/Services/Sensor.antt =====
-- core/include/aauto/service/SensorService.hpp and core/src/service/SensorService.cpp: the sensors
-- that the phone asks for.
pub mod Answers
use aa_v.Base.{ℕ, Option, none, some, Bytes, ◌==◌, if◌then◌else◌}
use aa_v.Protocol.Channels.{SensorMessageType, sensor_code}
use aa_v.Service.{Program}
use aa_v.Services

-- What generated code reads and writes: a request is its sensor type, the response says success,
-- and the batch that driving is unrestricted.
pub record SensorMessages : Type 0 where
  pub parse_request : Bytes → Option ℕ
  pub serialized_response : Bytes
  pub serialized_batch : Bytes

pub record SensorService : Type 0 where
  pub channel_id : ℕ

-- The generated sensor type.
abbrev pub sensor_driving_status_data : ℕ
sensor_driving_status_data = 13

abbrev pub channel_of : SensorService → ℕ
channel_of v = v.channel_id

-- `send` with a message type of the channel, and what follows it.
unfoldable pub send_sensor :
    SensorMessageType → Bytes → Program SensorService → Program SensorService
send_sensor message_type payload rest =
    Program.get (λ v. Program.send (channel_of v) (sensor_code message_type) payload rest)

module _ (messages : SensorMessages) where
  unfoldable pub send_driving_status : Program SensorService
  unfolding send_sensor
  send_driving_status = send_sensor SensorMessageType.batch messages.serialized_batch Program.done

  unfoldable pub on_channel_open : ℕ → Program SensorService
  unfolding send_driving_status
  on_channel_open channel_id = Program.put (record { channel_id = channel_id }) send_driving_status

  unfoldable pub on_request : Option ℕ → Program SensorService
  unfolding send_sensor send_driving_status
  on_request none = Program.done
  on_request (some sensor_type) =
      send_sensor SensorMessageType.response messages.serialized_response
        (if sensor_type == sensor_driving_status_data then send_driving_status else Program.done)

  unfoldable pub handlers : ℕ → Option (Bytes → Program SensorService)
  unfolding on_request
  handlers t =
      if t == sensor_code SensorMessageType.request
      then some (λ payload. on_request (messages.parse_request payload))
      else none

  unfoldable pub on_sensor_message : ℕ → Bytes → Program SensorService
  unfolding on_channel_open handlers
  on_sensor_message message_type payload =
      Services.on_message channel_of on_channel_open handlers message_type payload
