-- ===== src/Broker/Store.antt =====
-- `mqtt3_db_message_store`, `mosquitto__db_msg_store_add` and `mqtt3_db_message_store_find` of
-- src/database.c of mosquitto-1.4.2.
use wirenboard.Common.{
  ℕ, ◌+◌, ◌%◌, ◌^◌, Bool, true, false, not, ◌&&◌, if◌then◌else◌, ◌==◌, Option, none, some, List, [],
  ◌∷◌, Bytes, pos, inc,
}
use wirenboard.Broker.State.{md_in, ClientMsg, MsgStore, Db}
use wirenboard.Broker.Queue.{same_direction}
use wirenboard.Broker.Insert.{find_store}

-- Which allocations succeed: the address of the structure, and the copies of its parts.
pub record StoreMemory : Type 0 where
  pub store : Option ℕ
  pub source_id : Bool
  pub topic : Bool
  pub payload : Bool

unfoldable pub is_missing : {A : Type 0} → Option A → Bool
is_missing none = true
is_missing (some a) = false

unfoldable pub source_or_empty : Option Bytes → Bytes
source_or_empty none = []
source_or_empty (some s) = s

unfoldable pub is_empty_payload : Bytes → Bool
is_empty_payload [] = true
is_empty_payload (b ∷ bs) = false

-- The database behind the call, its return code, and `*stored` where it is written.
unfoldable pub message_store :
    StoreMemory
    → Db
    → (source : Option Bytes) → (source_mid : ℕ) → (topic : Option Bytes) → (qos : ℕ)
    → (payload : Bytes) → (retain : Bool) → (store_id : ℕ) → Db × ℕ × Option ℕ
unfolding is_missing source_or_empty is_empty_payload
message_store mem db source source_mid topic qos payload retain store_id = elim mem.store [
  | none ↦ (db, 1, none)
  | some a ↦
      if not mem.source_id
      then (db, 1, none)
      else if not (is_missing topic) && not mem.topic
      then (db, 1, none)
      else if not (is_empty_payload payload) && not mem.payload
      then (db, 1, none)
      else (let last = if store_id == 0 then (db.last_db_id + 1) % 2 ^ 64 else db.last_db_id in
          let s : MsgStore = record {
            address = a;
            db_id = if store_id == 0 then last else store_id;
            ref_count = pos 0;
            source_id = source_or_empty source;
            source_mid = source_mid;
            topic = topic;
            payload = payload;
            qos = qos;
            retain = retain;
            dest_ids = [];
          } in
          (
            record db {
              last_db_id = last;
              msg_store_count = inc db.msg_store_count;
              msg_store = s ∷ db.msg_store;
            },
            0,
            some a,
          ))
]

-- `mqtt3_db_message_store_find`: the stored message of an incoming message, by the message id of
-- its source; a message without a stored one is a pointer to nothing, the outer `none`.
unfoldable pub message_store_find : ℕ → List MsgStore → List ClientMsg → Option (Option ℕ)
message_store_find mid stores [] = some none
message_store_find mid stores (m ∷ ms) =
    let rest = message_store_find mid stores ms in
    elim m.store [
      | none ↦ none
      | some a ↦ (elim (find_store a stores) [
        | none ↦ none
        | some s ↦
            if s.source_mid == mid && same_direction m.direction md_in then some (some a) else rest
      ])
    ]
