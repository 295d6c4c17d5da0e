-- ===== src/Persist/Tests/Cases.antt =====
-- The database file of src/persist.c of mosquitto-1.4.2 at a concrete database.
use wirenboard.Persist.Stores.{kept_of, replay-store_items}
use wirenboard.Persist.Counters.{add_msg-append}
use wirenboard.Broker.Queue.Counts.{IsCounted}
use wirenboard.Broker.State.{ClientMsg, Context, MsgStore}
use mathlib.Core.List.{Memᴰ}
use mathlib.Core.List.Memᴰ.{head}
use wirenboard.Common.{
  ℕ, ◌≡◌, refl, arith, true, none, some, List, [], ◌∷◌, Bytes, codes, pos, ◌++◌, replicate, All,
  map, ◌+◌,
}
use wirenboard.Broker.Insert.{find_store, link}
use wirenboard.Broker.Store.{message_store}
use wirenboard.Broker.Queue.{deref}
use wirenboard.Subs.Tokens.{tokenise, path_of, is_dollar}
use wirenboard.Subs.Search.{sub_search}
use wirenboard.Subs.Tree.{sub_add, Hier, end, node}
use wirenboard.Subs.Paths.{leaves_at, below_first}
use wirenboard.Subs.Process.{refer, subs_process}
use wirenboard.Persist.Format.{ClientState, Database, session_at, id_at}
use wirenboard.Persist.Output.{Out, fwrite, write_all}
use wirenboard.Persist.Write.{
  message_store_write, stored_id, client_write, leaves_write, retained_write, go_on,
  subs_retain_write,
}
use wirenboard.Persist.Backup.{Files, stored_part, session_part, backup}
use wirenboard.Persist.Input.{ok, error, bind, take_bytes, read, read_be, read_le}
use wirenboard.Persist.Read.{read_id, read_client, read_source, read_payload, read_msg_store}
use wirenboard.Persist.Apply.{
  client_restore, restored_msg, add_msg, client_msg_restore, store_restore, retain_restore,
  sub_restore,
}
use wirenboard.Persist.Contexts.{find_load, has_id, find_session, set_session, find_or_add, Loading}
use wirenboard.Subs.Calls.{add_subscription, messages_queue}
use wirenboard.Persist.Restore.{
  config_restore, msg_store_chunk_restore, client_chunk_restore, chunk_restore, chunk_step,
  restore_loop, read_header, restore,
}
use wirenboard.Persist.Items.{retained, subscribed, Fits, item_restore, replay, stored}
use wirenboard.Persist.Contents.{
  store_items, msg_items, session_items, leaf_items, retained_items, tree_items, items, store_chunk,
}
use wirenboard.Persist.RoundTrip.{restore-backup}
use wirenboard.Persist.Failure.{backup-untouched}
use wirenboard.Persist.Filters.{saved_filter, first_token}
use wirenboard.Persist.Saved.{tree_items-saved_filter}
use wirenboard.Persist.Tests.{
  topic, client_c, one_stored, empty_db, waiting, session, at_topic, bare, roots, world, fresh,
  world_items, start, environment, no_files,
}

items_of_world : items 0 world true ≡ some world_items
unfolding items store_items session_items msg_items stored_id find_store tree_items leaf_items
    session_at retained_items
items_of_world = refl

world_items-Fits : All Fits world_items
world_items-Fits = ground arith

restore-backup_example :
    (out : Files) × (backup (environment []) world true no_files ≡ some (0, out))
    × (restore start out.database fresh
        ≡ bind
            (replay start 0 world_items (record { world = fresh; loads = [] }))
            (λ l. ok l.world))
restore-backup_example =
    restore-backup (environment []) world true no_files world_items start fresh
      (refl, refl, refl, refl, refl, (λ a. refl)) items_of_world world_items-Fits
      (λ j. (refl, refl, refl, refl, refl))

-- What the broker has after a restart: the message, the session with its queue and its
-- subscription, and the retained message.
abbrev restarted_session : ClientState
restarted_session = record session {
  client = record session.client {
    address = 102;
    context = record session.client.context {
      msgs = record waiting { address = 103; store = some 101 } ∷ [];
      last_msg = some 103;
      msg_count = pos 0;
      msg_count12 = pos 0;
    };
  };
  subs = some (some 52 ∷ []);
}

abbrev restarted : Database
restarted = record {
  db = record empty_db {
    last_db_id = 300;
    persistence_changes = pos 1;
    msg_store = record one_stored { address = 101 } ∷ [];
    msg_store_count = pos 1;
  };
  sessions = restarted_session ∷ [];
  roots = roots (
      node (bare 50 [])
        (node
          (record {
            address = 52;
            topic = topic;
            subs = record { context = 102; qos = 1 } ∷ [];
            retained = some 101;
          })
          end end)
        end);
  subscription_count = pos 1;
  retained_count = pos 1;
}

replayed :
    bind (replay start 0 world_items (record { world = fresh; loads = [] })) (λ l. ok l.world)
    ≡ ok restarted
unfolding replay item_restore store_restore client_restore client_msg_restore sub_restore
    retain_restore find_load find_session has_id set_session find_or_add restored_msg add_msg link
    find_store message_store id_at session_at add_subscription messages_queue tokenise sub_add refer
    sub_search subs_process deref
replayed = refl

abbrev old_file : Files
old_file = record { database = some (1 ∷ 2 ∷ []); fresh = none }

disk_is_full :
    backup (environment (5 ∷ [])) world true old_file
    ≡ some (1, record old_file { fresh = some (0 ∷ 181 ∷ 0 ∷ 109 ∷ 111 ∷ []) })
unfolding backup stored_part write_all fwrite
disk_is_full = refl

backup-untouched_example :
    (record old_file { fresh = some (0 ∷ 181 ∷ 0 ∷ 109 ∷ 111 ∷ []) }).database ≡ old_file.database
backup-untouched_example =
    backup-untouched (environment (5 ∷ [])) world true old_file 0
      (record old_file { fresh = some (0 ∷ 181 ∷ 0 ∷ 109 ∷ 111 ∷ []) }) disk_is_full

abbrev disk : List ℕ
disk = replicate 23 99 ++ replicate 50 0

abbrev after_stores : Out
after_stores = record {
  file = (stored_part world true (record { file = []; results = disk })).out.file;
  results = replicate 3 99 ++ replicate 50 0;
}

abbrev after_clients : Out
after_clients = record {
  file = (client_write 0 world.db.msg_store world.sessions after_stores).out.file;
  results = replicate 49 0;
}

abbrev at_end : Out
at_end = record { file = after_clients.file; results = replicate 48 0 }

-- A backup that could not write the clients returns 0, and the file is in the place of the old one.
backup_succeeds :
    backup (environment disk) world true old_file
    ≡ some (0, record { database = some at_end.file; fresh = none })
unfolding backup session_part subs_retain_write go_on leaves_write retained_write session_at
    client_write stored_part write_all fwrite message_store_write
backup_succeeds = refl

-- The broker does not start with this file.
cut_short : restore start (some at_end.file) fresh ≡ error
unfolding restore read_header restore_loop chunk_step chunk_restore config_restore
    msg_store_chunk_restore client_chunk_restore read_client read_msg_store read_id read_source
    read_payload read_be read_le read take_bytes store_restore message_store find_store client_write
    stored_part write_all fwrite message_store_write
cut_short = refl

-- A filter with a slash at its start
abbrev slash_filter : Bytes
slash_filter = codes "/t"

abbrev slash_roots : Hier
slash_roots = roots (node (bare 2 []) (node (bare 4 []) (node at_topic end end) end) end)

slash_items :
    tree_items world.db.msg_store world.sessions [] slash_roots
    ≡ some (subscribed (record { id = client_c; topic = topic; qos = 1 }) ∷ retained 300 ∷ [])
unfolding tree_items leaf_items session_at retained_items find_store
slash_items = refl

session_is_found : session_at 20 world.sessions ≡ some session
unfolding session_at
session_is_found = refl

slash_leaf :
    Memᴰ
      (record { context = 20; qos = 1 })
      (below_first (leaves_at (path_of slash_filter)) (first_token slash_filter) slash_roots)
unfolding is_dollar
slash_leaf = head refl

tree_items-saved_filter_example :
    Memᴰ
      (subscribed (record { id = client_c; topic = saved_filter slash_filter; qos = 1 }))
      (subscribed (record { id = client_c; topic = topic; qos = 1 }) ∷ retained 300 ∷ [])
tree_items-saved_filter_example =
    tree_items-saved_filter world.db.msg_store world.sessions (record { context = 20; qos = 1 })
      session client_c session_is_found refl refl slash_roots slash_filter
      (subscribed (record { id = client_c; topic = topic; qos = 1 }) ∷ retained 300 ∷ []) slash_leaf
      slash_items

abbrev next_waiting : ClientMsg
next_waiting = record waiting { address = 31; mid = 3 }

add_msg-append_example :
    (c' : Context) × (add_msg next_waiting session.client.context ≡ ok c')
    × (c'.msgs ≡ waiting ∷ next_waiting ∷ [])
    × (c'.last_msg ≡ some 31)
    × (¬ IsCounted c')
add_msg-append_example =
    add_msg-append next_waiting session.client.context
      (record { all = refl; some12 = refl; last = refl }) (tt, tt)

-- A message of the broker's own topics, before another
abbrev sys_stored : MsgStore
sys_stored = record one_stored { address = 11; db_id = 301; topic = some (codes "$SYS/x") }

two_stores :
    store_items (sys_stored ∷ one_stored ∷ [])
    ≡ some (
        stored (store_chunk sys_stored (codes "$SYS/x"))
        ∷ stored (store_chunk one_stored topic)
        ∷ [])
unfolding store_items
two_stores = refl

replay-store_items_example :
    (l' : Loading) × (replay start 0
        (stored (store_chunk sys_stored (codes "$SYS/x"))
          ∷ stored (store_chunk one_stored topic)
          ∷ [])
        (record { world = fresh; loads = [] })
      ≡ ok l')
    × (map kept_of l'.world.db.msg_store ≡ kept_of one_stored ∷ kept_of sys_stored ∷ [])
replay-store_items_example =
    replay-store_items start 0 (sys_stored ∷ one_stored ∷ []) _
      (record { world = fresh; loads = [] }) (λ j. (j + 100, refl, refl, refl, refl))
      ((λ e. cc), ((λ e. cc), tt)) two_stores
