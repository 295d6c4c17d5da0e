-- ===== src/Persist/Tests.antt =====
-- A database of mosquitto-1.4.2 that src/persist.c saves, and what its functions are given.
mod Cases
use mathlib.Core.List.{Memᴰ}
use mathlib.Core.List.Memᴰ.{head}
use wirenboard.Common.{
  ℕ, zero, suc, ◌+◌, ◌≡◌, refl, arith, Bool, true, false, Option, none, some, List, [], ◌∷◌, Bytes,
  codes, pos, length, drop, ◌++◌, replicate, All,
}
use wirenboard.Broker.State.{
  publish_qos1, wait_for_puback, md_out, ClientMsg, MsgStore, Context, Db, Setting,
}
use wirenboard.Broker.Insert.{find_store, link}
use wirenboard.Broker.Store.{message_store}
use wirenboard.Broker.Queue.{deref}
use wirenboard.Subs.Tokens.{tokenise, path_of, is_dollar}
use wirenboard.Subs.Search.{sub_search}
use wirenboard.Subs.Tree.{sub_add, Node, Hier, end, node}
use wirenboard.Subs.Paths.{leaves_at, below_first}
use wirenboard.Subs.Process.{Client, granted, Publication, refer, subs_process}
use wirenboard.Persist.Format.{ClientState, Database, session_at, id_at}
use wirenboard.Persist.Output.{Out, done, failed, fwrite, write_all}
use wirenboard.Persist.Write.{
  message_store_write, stored_id, client_messages_write, client_write, leaves_write, retained_write,
  go_on, subs_retain_write,
}
use wirenboard.Persist.Backup.{Files, Surroundings, stored_part, session_part, backup}
use wirenboard.Persist.Input.{Result, ok, error, bind, take_bytes, read, read_be, read_le}
use wirenboard.Persist.Read.{
  ChunkMemory, ClientChunk, MsgChunk, StoreChunk, SubChunk, read_id, read_client, read_client_msg,
  read_source, read_payload, read_msg_store, read_text, read_sub,
}
use wirenboard.Persist.Apply.{
  client_restore, restored_msg, add_msg, client_msg_restore, store_restore, retain_restore,
  sub_restore,
}
use wirenboard.Persist.Contexts.{find_load, has_id, find_session, set_session, find_or_add}
use wirenboard.Subs.Calls.{add_subscription, messages_queue}
use wirenboard.Persist.Restore.{
  Start, config_restore, msg_store_chunk_restore, client_chunk_restore, chunk_restore, chunk_step,
  restore_loop, read_header, restore,
}
use wirenboard.Persist.Items.{
  Item, config, stored, message, retained, subscribed, client, Fits, item_restore, replay,
}
use wirenboard.Persist.Contents.{
  store_items, msg_items, session_items, leaf_items, retained_items, tree_items, items,
}
use wirenboard.Persist.Reading.{HasTexts}
use wirenboard.Persist.RoundTrip.{IsReady, restore-backup}
use wirenboard.Persist.Failure.{backup-untouched}
use wirenboard.Persist.Filters.{saved_filter, first_token}
use wirenboard.Persist.Saved.{tree_items-saved_filter}

abbrev pub topic : Bytes
topic = codes "t"

abbrev pub client_c : Bytes
client_c = codes "c"

abbrev pub one_stored : MsgStore
one_stored = record {
  address = 10;
  db_id = 300;
  ref_count = pos 2;
  source_id = [];
  source_mid = 1;
  topic = some topic;
  payload = 7 ∷ 8 ∷ [];
  qos = 1;
  retain = true;
  dest_ids = [];
}

abbrev pub empty_db : Db
empty_db = record {
  last_db_id = 0;
  msg_store = [];
  msg_store_count = pos 0;
  persistence_changes = pos 0;
  allow_duplicate_messages = false;
  queue_qos0_messages = false;
  msgs_dropped = 0;
}

abbrev pub waiting : ClientMsg
waiting = record {
  address = 30;
  store = some 10;
  mid = 2;
  qos = 1;
  retain = false;
  timestamp = 0;
  direction = md_out;
  state = wait_for_puback;
  dup = true;
}

abbrev pub session : ClientState
session = record {
  client = record {
    address = 20;
    is_bridge = false;
    last_mid = 2;
    context = record {
      id = some client_c;
      connected = false;
      bridge = none;
      is_dropping = false;
      msgs = waiting ∷ [];
      last_msg = some 30;
      msg_count = pos 1;
      msg_count12 = pos 1;
    };
  };
  clean_session = false;
  disconnect_t = 5;
  is_mqtt31 = false;
  subs = some (some 3 ∷ []);
  sub_count = 1;
}

abbrev pub at_topic : Node
at_topic = record {
  address = 3;
  topic = topic;
  subs = record { context = 20; qos = 1 } ∷ [];
  retained = some 10;
}

abbrev pub bare : ℕ → Bytes → Node
bare a t = record { address = a; topic = t; subs = []; retained = none }

abbrev pub roots : Hier → Hier
roots below = node (bare 1 []) below end

abbrev pub world : Database
world = record {
  db = record empty_db { last_db_id = 300; msg_store = one_stored ∷ []; msg_store_count = pos 1 };
  sessions = session ∷ [];
  roots = roots (node (bare 2 []) (node at_topic end end) end);
  subscription_count = pos 1;
  retained_count = pos 1;
}

abbrev pub fresh : Database
fresh = record {
  db = empty_db;
  sessions = [];
  roots = roots end;
  subscription_count = pos 0;
  retained_count = pos 0;
}

abbrev pub world_items : List Item
world_items =
    config true 300
    ∷ stored (record {
      store_id = 300;
      source_id = none;
      source_mid = 1;
      topic = topic;
      qos = 1;
      retain = 1;
      payload = 7 ∷ 8 ∷ [];
    })
    ∷ client (record { id = client_c; last_mid = 2; disconnect_t = 5 })
    ∷ message (record {
      id = client_c;
      store_id = 300;
      mid = 2;
      qos = 1;
      retain = 0;
      direction = 1;
      state = 3;
      dup = 1;
    })
    ∷ subscribed (record { id = client_c; topic = topic; qos = 1 })
    ∷ retained 300
    ∷ []

abbrev pub chunk_memory : ℕ → ChunkMemory
chunk_memory i = record {
  load = true;
  id_text = true;
  source_id = true;
  topic = true;
  payload = true;
  stored = record { store = some (i + 100); source_id = true; topic = true; payload = true };
  message = some (i + 100);
  context = some (i + 100);
  context_id = true;
  tokens = true ∷ true ∷ true ∷ true ∷ [];
  nodes = some 50 ∷ some 51 ∷ some 52 ∷ some 53 ∷ some 54 ∷ some 55 ∷ [];
}

abbrev pub setting : Setting
setting = record { max_inflight = 5; max_queued = 5; now = 9 }

abbrev pub start : Start
start = record {
  now = 0;
  seek = λ len bs. drop len bs;
  memory = chunk_memory;
  publication = record {
    source_id = none;
    topic = [];
    qos = 0;
    retain = false;
    stored = 0;
    has_payload = false;
    upgrade_outgoing_qos = false;
    access = λ c t. granted;
    memory = λ c. record { message = none; array = false; copy = false };
    setting = setting;
  };
}

abbrev pub environment : List ℕ → Surroundings
environment results = record {
  has_path = true;
  has_memory = true;
  opens = true;
  renames = true;
  results = results;
  memory = λ a. true;
  now = 0;
}

abbrev pub no_files : Files
no_files = record { database = none; fresh = none }
