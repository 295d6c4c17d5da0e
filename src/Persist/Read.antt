-- ===== src/Persist/Read.antt =====
-- What the functions `_db_..._chunk_restore` of src/persist.c of mosquitto-1.4.2 read, up to the
-- point where they change the database.
use wirenboard.Common.{ℕ, Bool, if◌then◌else◌, not, ◌==◌, Option, none, some, List, [], Bytes}
use wirenboard.Broker.Store.{StoreMemory}
use wirenboard.Subs.Tokens.{Heap}
use wirenboard.Persist.Input.{Reader, pure, ◌>>=◌, ◌>>◌, error_if, read, read_be, read_le, c_string}

-- Which allocations for a chunk succeed, and their addresses.
pub record ChunkMemory : Type 0 where
  pub load : Bool
  pub id_text : Bool
  pub source_id : Bool
  pub topic : Bool
  pub payload : Bool
  pub stored : StoreMemory
  pub message : Option ℕ
  pub context : Option ℕ
  pub context_id : Bool
  pub tokens : Heap
  pub nodes : List (Option ℕ)

pub record ClientChunk : Type 0 where
  pub id : Bytes
  pub last_mid : ℕ
  pub disconnect_t : ℕ

pub record MsgChunk : Type 0 where
  pub id : Bytes
  pub store_id : ℕ
  pub mid : ℕ
  pub qos : ℕ
  pub retain : ℕ
  pub direction : ℕ
  pub state : ℕ
  pub dup : ℕ

pub record StoreChunk : Type 0 where
  pub store_id : ℕ
  pub source_id : Option Bytes
  pub source_mid : ℕ
  pub topic : Bytes
  pub qos : ℕ
  pub retain : ℕ
  pub payload : Bytes

pub record SubChunk : Type 0 where
  pub id : Bytes
  pub topic : Bytes
  pub qos : ℕ

-- A client id, which is not empty.
unfoldable pub read_id : (memory : Bool) → Reader Bytes
read_id memory = do
  slen ← read_be 2
  error_if (slen == 0)
  error_if (not memory)
  id ← read slen
  pure (c_string id)

-- `_db_client_chunk_restore`; a file of version 2 has no time.
unfoldable pub read_client : (version : ℕ) → (now : ℕ) → ChunkMemory → Reader ClientChunk
read_client version now mem = do
  id ← read_id mem.id_text
  last_mid ← read_be 2
  t ← (if version == 2 then pure now else read_le 8)
  pure (record { id = id; last_mid = last_mid; disconnect_t = t })

-- `_db_client_msg_chunk_restore`
unfoldable pub read_client_msg : ChunkMemory → Reader MsgChunk
read_client_msg mem = do
  id ← read_id mem.id_text
  store_id ← read_le 8
  mid ← read_be 2
  qos ← read_be 1
  retain ← read_be 1
  direction ← read_be 1
  state ← read_be 1
  dup ← read_be 1
  pure (record {
    id = id;
    store_id = store_id;
    mid = mid;
    qos = qos;
    retain = retain;
    direction = direction;
    state = state;
    dup = dup;
  })

-- The text of `slen` bytes, NULL where it has none.
unfoldable pub read_source : (memory : Bool) → (slen : ℕ) → Reader (Option Bytes)
read_source memory slen =
    if slen == 0
    then pure none
    else (do error_if (not memory); s ← read slen; pure (some (c_string s)))

unfoldable pub read_payload : (memory : Bool) → (payloadlen : ℕ) → Reader Bytes
read_payload memory payloadlen =
    if payloadlen == 0 then pure [] else (do error_if (not memory); read payloadlen)

-- `_db_msg_store_chunk_restore`
unfoldable pub read_msg_store : ChunkMemory → Reader StoreChunk
read_msg_store mem = do
  error_if (not mem.load)
  store_id ← read_le 8
  slen ← read_be 2
  source ← read_source mem.source_id slen
  source_mid ← read_be 2
  mid ← read_be 2
  topic ← read_id mem.topic
  qos ← read_be 1
  retain ← read_be 1
  payloadlen ← read_be 4
  payload ← read_payload mem.payload payloadlen
  pure (record {
    store_id = store_id;
    source_id = source;
    source_mid = source_mid;
    topic = topic;
    qos = qos;
    retain = retain;
    payload = payload;
  })

-- A text of `_db_sub_chunk_restore`, which may be empty.
unfoldable pub read_text : (memory : Bool) → Reader Bytes
read_text memory = do slen ← read_be 2; error_if (not memory); s ← read slen; pure (c_string s)

-- `_db_sub_chunk_restore`
unfoldable pub read_sub : ChunkMemory → Reader SubChunk
read_sub mem = do
  id ← read_text mem.id_text
  topic ← read_text mem.topic
  qos ← read_be 1
  pure (record { id = id; topic = topic; qos = qos })
