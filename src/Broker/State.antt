-- ===== src/Broker/State.antt =====
-- The state behind src/database.c of mosquitto-1.4.2: the stored messages of the database and the
-- queue of a client, with the structures of src/mosquitto_broker.h. An object on the heap is named
-- by a number, its address.
use wirenboard.Common.{ℕ, Bool, Option, List, Bytes, ℤ}

-- `enum mosquitto_msg_state`
pub data MsgState : Type 0 where
  invalid publish_qos0 publish_qos1 wait_for_puback publish_qos2 wait_for_pubrec : MsgState
  resend_pubrel wait_for_pubrel resend_pubcomp wait_for_pubcomp send_pubrec queued : MsgState

-- `enum mosquitto_msg_direction`
pub data Direction : Type 0 where
  md_in md_out : Direction

-- `struct mosquitto_client_msg`, at an address; the list it stands in is its `next`.
pub record ClientMsg : Type 0 where
  pub address : ℕ
  pub store : Option ℕ
  pub mid : ℕ
  pub qos : ℕ
  pub retain : Bool
  pub timestamp : ℕ
  pub direction : Direction
  pub state : MsgState
  pub dup : Bool

-- `struct mosquitto_msg_store`; a destination is missing where `_mosquitto_strdup` failed.
pub record MsgStore : Type 0 where
  pub address : ℕ
  pub db_id : ℕ
  pub ref_count : ℤ
  pub source_id : Bytes
  pub source_mid : ℕ
  pub topic : Option Bytes
  pub payload : Bytes
  pub qos : ℕ
  pub retain : Bool
  pub dest_ids : List (Option Bytes)

-- The fields of `struct _mqtt3_bridge` that the queue looks at.
pub record Bridge : Type 0 where
  pub starts_lazy : Bool
  pub threshold : ℕ
  pub lazy_reconnect : Bool

-- The fields of `struct mosquitto` that the queue looks at; `connected` says that `sock` is a
-- socket.
pub record Context : Type 0 where
  pub id : Option Bytes
  pub connected : Bool
  pub bridge : Option Bridge
  pub is_dropping : Bool
  pub msgs : List ClientMsg
  pub last_msg : Option ℕ
  pub msg_count : ℤ
  pub msg_count12 : ℤ

-- The fields of `struct mosquitto_db` and of its configuration that the queue looks at, and the
-- counter `g_msgs_dropped`.
pub record Db : Type 0 where
  pub last_db_id : ℕ
  pub msg_store : List MsgStore
  pub msg_store_count : ℤ
  pub persistence_changes : ℤ
  pub allow_duplicate_messages : Bool
  pub queue_qos0_messages : Bool
  pub msgs_dropped : ℕ

-- `max_inflight` and `max_queued`, and the clock.
pub record Setting : Type 0 where
  pub max_inflight : ℕ
  pub max_queued : ℕ
  pub now : ℕ
