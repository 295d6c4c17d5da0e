-- ===== src/Persist/Restore.antt =====
-- `mqtt3_db_restore` of src/persist.c of mosquitto-1.4.2: the loop over the chunks of the file.
use wirenboard.Common.{
  ℕ, zero, suc, if◌then◌else◌, not, ◌&&◌, ltb, ◌==◌, Option, none, some, [], Bytes, str_eq, length,
}
use wirenboard.Subs.Process.{Publication}
use wirenboard.Persist.Format.{Database, magic, mosq_db_version}
use wirenboard.Persist.Input.{
  Result, ok, error, fault, bind, Reader, pure, ◌>>=◌, ◌>>◌, error_if, read, read_be, read_le,
}
use wirenboard.Persist.Read.{ChunkMemory, read_client, read_client_msg, read_msg_store, read_sub}
use wirenboard.Persist.Apply.{
  client_restore, client_msg_restore, store_restore, retain_restore, sub_restore,
}
use wirenboard.Persist.Contexts.{Loading}

-- The clock, the memory for the chunks by their number, what a delivery would be given, and what is
-- left of the file behind `fseek` over a length, which the C library takes as a `long`: where that
-- has 32 bits, a length from 2 ^ 31 on goes back in the file.
pub record Start : Type 0 where
  pub now : ℕ
  pub seek : ℕ → Bytes → Bytes
  pub memory : ℕ → ChunkMemory
  pub publication : Publication

abbrev lift {ℓ} : {A : Type ℓ} → Result A → Reader A
lift r bs = bind r λ a. ok (a, bs)

unfoldable pub config_restore : Loading → Reader Loading
config_restore l = do
  shutdown ← read_be 1
  size ← read_be 1
  error_if (not (size == 8))
  last ← read_le 8
  pure (record l { world = record l.world { db = record l.world.db { last_db_id = last } } })

unfoldable pub msg_store_chunk_restore : ChunkMemory → Loading → Reader Loading
msg_store_chunk_restore mem l = do c ← read_msg_store mem; lift (store_restore mem c l)

unfoldable pub client_msg_chunk_restore : ChunkMemory → Loading → Reader Loading
client_msg_chunk_restore mem l = do m ← read_client_msg mem; lift (client_msg_restore mem m l)

unfoldable pub retain_chunk_restore : Publication → ChunkMemory → Loading → Reader Loading
retain_chunk_restore m mem l = do store_id ← read_le 8; lift (retain_restore m mem store_id l)

unfoldable pub sub_chunk_restore : ChunkMemory → Loading → Reader Loading
sub_chunk_restore mem l = do c ← read_sub mem; lift (sub_restore mem c l)

unfoldable pub client_chunk_restore :
    (version : ℕ) → (now : ℕ) → ChunkMemory → Loading → Reader Loading
client_chunk_restore version now mem l = do
  c ← read_client version now mem
  lift (client_restore mem c l)

-- The `switch` over the kind of a chunk
unfoldable pub chunk_restore :
    Start → (version : ℕ) → ChunkMemory → (chunk : ℕ) → (length : ℕ) → Loading → Reader Loading
chunk_restore st version mem chunk len l =
    if chunk == 1
    then config_restore l
    else if chunk == 2
    then msg_store_chunk_restore mem l
    else if chunk == 3
    then client_msg_chunk_restore mem l
    else if chunk == 4
    then retain_chunk_restore st.publication mem l
    else if chunk == 5
    then sub_chunk_restore mem l
    else if chunk == 6
    then client_chunk_restore version st.now mem l
    else (λ bs. ok (l, st.seek len bs))

-- A chunk behind its kind, the `i`-th of the file.
unfoldable pub chunk_step : Start → (version : ℕ) → (i : ℕ) → (chunk : ℕ) → Loading → Reader Loading
chunk_step st version i chunk l = do
  len ← read_be 4
  chunk_restore st version (st.memory i) chunk len l

-- The loop, which ends where no two bytes are left. Every chunk takes two bytes: the length of the
-- file is fuel enough where `fseek` does not go back.
unfoldable pub restore_loop :
    (fuel : ℕ) → Start → (version : ℕ) → (i : ℕ) → Loading → Bytes → Result Loading
restore_loop zero st version i l bs = fault
restore_loop (suc fuel) st version i l bs = elim (read_be 2 bs) [
  | error ↦ ok l
  | fault ↦ fault
  | ok (chunk, bs') ↦
      bind (chunk_step st version i chunk l bs')
        λ (l', rest). restore_loop fuel st version (suc i) l' rest
]

-- What stands before the chunks: the version of the file.
unfoldable pub read_header : Reader ℕ
read_header = do
  header ← read 15
  error_if (not (str_eq header magic))
  crc ← read_be 4
  version ← read_be 4
  error_if (ltb mosq_db_version version && not (version == 0) && not (version == 2))
  pure version

-- `mqtt3_db_restore`, with the file at `persistence_filepath` or its absence.
unfoldable pub restore : Start → (file : Option Bytes) → Database → Result Database
restore st none w = ok w
restore st (some file) w = bind (read_header file) λ (version, bs).
    bind (restore_loop (suc (length bs)) st version 0 (record { world = w; loads = [] }) bs)
      λ l. ok l.world
