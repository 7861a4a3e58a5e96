-- ===== src/Protocol.antt =====
-- internal/overlay/protocol/frame.go: the constants, the frame and its payloads, the errors.
pub mod Crc
pub mod Io
pub mod Encode
pub mod Decode
pub mod RoundTrip
mod Examples
use cwnd_warm_up_proxy.Prelude.{ℕ, ◌^◌, ◌==◌, Bool, List, Option, not}
use cwnd_warm_up_proxy.Prelude.Int.{ℤ}
use Prim.Native.Nat.{bit_and}

abbrev pub version : ℕ
version = 1

abbrev pub header_size : ℕ
header_size = 24

abbrev pub max_payload_size : ℕ
max_payload_size = 2 ^ 20

abbrev pub max_sack_ranges : ℕ
max_sack_ranges = 4

-- FrameType and ControlType are bytes; any other value of the byte is possible too.
abbrev pub frame_data : ℕ
frame_data = 0x01

abbrev pub frame_ack : ℕ
frame_ack = 0x02

abbrev pub frame_control : ℕ
frame_control = 0x03

abbrev pub frame_heartbeat : ℕ
frame_heartbeat = 0x04

abbrev pub flag_end_of_stream : ℕ
flag_end_of_stream = 0x01

abbrev pub flag_checksum_present : ℕ
flag_checksum_present = 0x02

-- `flags & flag != 0`
abbrev pub has_flag : ℕ → ℕ → Bool
has_flag flags flag = not (bit_and flags flag == 0)

abbrev pub control_session_init : ℕ
control_session_init = 0x01

abbrev pub control_session_accept : ℕ
control_session_accept = 0x02

abbrev pub control_session_join : ℕ
control_session_join = 0x03

abbrev pub control_stream_open : ℕ
control_stream_open = 0x10

abbrev pub control_stream_accept : ℕ
control_stream_accept = 0x11

abbrev pub control_stream_close : ℕ
control_stream_close = 0x12

abbrev pub control_stream_reset : ℕ
control_stream_reset = 0x13

-- What encoding/json puts into an `any`: a float64 is its 64 bits, a text its bytes.
mutual
  pub data Value : Type 0 where
    null : Value
    bool : Bool → Value
    number : ℕ → Value
    text : List ℕ → Value
    array : Items → Value
    object : Fields → Value

  pub data Fields : Type 0 where
    field : List ℕ → Value → Fields → Fields
    end : Fields

  pub data Items : Type 0 where
    item : Value → Items → Items
    no_items : Items

pub record SackRange : Type 0 where
  pub start : ℕ
  pub end : ℕ

pub record AckPayload : Type 0 where
  pub ack_seq : ℕ
  pub credit : ℕ
  pub ranges : List SackRange

pub record ControlPayload : Type 0 where
  pub control_type : ℕ
  pub session_id : ℕ
  pub stream_id : ℕ
  pub window : ℕ
  pub metadata : Fields
  pub values : Fields  -- Data
  pub raw : List ℕ

pub record HeartbeatPayload : Type 0 where
  pub unix_nanos : ℤ

pub record Frame : Type 0 where
  pub version : ℕ
  pub frame_type : ℕ
  pub flags : ℕ
  pub session_id : ℕ
  pub stream_id : ℕ
  pub seq : ℕ
  pub payload : List ℕ
  pub checksum : ℕ
  pub is_duplicate : Bool
  pub wire_length : ℕ
  pub ack : Option AckPayload
  pub control : Option ControlPayload
  pub heartbeat : Option HeartbeatPayload

pub data Error : Type 0 where
  eof unexpected_eof short_write : Error
  unsupported_version : ℕ → Error
  payload_too_large invalid_frame_type payload_mismatch : Error
  checksum_mismatch : ℕ → ℕ → Error
  ack_length : ℕ → Error
  ack_count : ℕ → ℕ → Error
  sack_range : ℕ → ℕ → ℕ → Error
  heartbeat_length : ℕ → Error
  marshal_control decode_control : Error

-- encoding/json on a `ControlPayload`; `none` is an error.
pub record JsonCodec : Type 0 where
  pub marshal : ControlPayload → Option (List ℕ)
  pub unmarshal : List ℕ → Option ControlPayload
