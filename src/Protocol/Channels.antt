-- ===== src/Protocol/Channels.antt =====
-- The message types of single channels in core/include/aauto/utils/ProtocolConstants.hpp.
use aa_v.Base.{ℕ}

pub data InputMessageType : Type 0 where
  input_report key_binding_request key_binding_response input_feedback : InputMessageType

abbrev pub input_code : InputMessageType → ℕ
input_code InputMessageType.input_report = 32769
input_code InputMessageType.key_binding_request = 32770
input_code InputMessageType.key_binding_response = 32771
input_code InputMessageType.input_feedback = 32772

pub data SensorMessageType : Type 0 where
  request response batch error : SensorMessageType

abbrev pub sensor_code : SensorMessageType → ℕ
sensor_code SensorMessageType.request = 32769
sensor_code SensorMessageType.response = 32770
sensor_code SensorMessageType.batch = 32771
sensor_code SensorMessageType.error = 32772
