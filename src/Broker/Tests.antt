-- ===== src/Broker/Tests.antt =====
-- The queue of a client at concrete inputs.
use wirenboard.Broker.Timeout.{AllChecked, timeout_check, timeout_check-AllChecked}
use wirenboard.Common.{
  ℕ, ◌≡◌, ◌≢◌, refl, arith, inl, inr, true, false, Option, none, some, List, [], ◌∷◌, length, All,
  pos,
}
use wirenboard.Broker.State.{
  MsgState, wait_for_puback, publish_qos1, queued, Direction, md_in, md_out, ClientMsg, MsgStore,
  Context, Db, Setting,
}
use wirenboard.Broker.Queue.{message_delete}
use wirenboard.Broker.Queue.Counts.{IsCounted, message_delete-IsCounted}
use wirenboard.Broker.Insert.{Allocation, find_store, message_insert}
use wirenboard.Broker.Insert.Counts.{Distinct, Returns, message_insert-IsCounted}
use wirenboard.Broker.Insert.Limits.{InLimits, message_insert-InLimits}
use wirenboard.Broker.Write.{message_write, wrote, running}
use wirenboard.Broker.Write.Counts.{Ends, message_write-IsCounted, Bounded, message_write-running}
use wirenboard.Broker.Store.{StoreMemory, message_store}
use wirenboard.Broker.Reset.{reconnect_reset}
use wirenboard.Broker.Reset.Counts.{reconnect_reset-IsCounted, reconnect_reset_skips}

abbrev message : ℕ → ℕ → ℕ → Direction → MsgState → ClientMsg
message address mid qos direction state = record {
  address = address;
  store = some 500;
  mid = mid;
  qos = qos;
  retain = false;
  timestamp = 0;
  direction = direction;
  state = state;
  dup = false;
}

abbrev stored : MsgStore
stored = record {
  address = 500;
  db_id = 1;
  ref_count = pos 2;
  source_id = 115 ∷ [];
  source_mid = 1;
  topic = some (97 ∷ []);
  payload = [];
  qos = 1;
  retain = false;
  dest_ids = some (98 ∷ []) ∷ [];
}

abbrev db : Db
db = record {
  last_db_id = 1;
  msg_store = stored ∷ [];
  msg_store_count = pos 1;
  persistence_changes = pos 0;
  allow_duplicate_messages = false;
  queue_qos0_messages = false;
  msgs_dropped = 0;
}

abbrev one_at_a_time : Setting
one_at_a_time = record { max_inflight = 1; max_queued = 5; now = 9 }

abbrev first : ClientMsg
first = message 10 1 1 md_out wait_for_puback

abbrev second : ClientMsg
second = message 11 2 1 md_out queued

abbrev incoming : ClientMsg
incoming = message 12 3 1 md_in queued

abbrev client : List ClientMsg → Option ℕ → ℕ → Context
client msgs last n = record {
  id = some (99 ∷ []);
  connected = true;
  bridge = none;
  is_dropping = false;
  msgs = msgs;
  last_msg = last;
  msg_count = pos n;
  msg_count12 = pos n;
}

abbrev two : Context
two = client (first ∷ second ∷ []) (some 11) 2

two-IsCounted : IsCounted two
two-IsCounted = record { all = refl; some12 = refl; last = refl }

two-Distinct : Distinct two.msgs
two-Distinct = ((ground arith, tt), (tt, tt))

-- The acknowledged message goes, and the next one comes into the window.
message_delete_promotes :
    (message_delete one_at_a_time 1 md_out db two).1
    ≡ client (record second { state = publish_qos1; timestamp = 9 } ∷ []) (some 11) 1
unfolding message_delete
message_delete_promotes = refl

message_delete-IsCounted_example : IsCounted (message_delete one_at_a_time 1 md_out db two).1
message_delete-IsCounted_example =
    message_delete-IsCounted one_at_a_time 1 md_out db two two-IsCounted

abbrev memory : Allocation
memory = record { message = some 20; array = true; copy = true }

found : find_store 500 db.msg_store ≡ some stored
unfolding find_store
found = refl

ids : All (λ (i : Option (List ℕ)). i ≢ none) stored.dest_ids
ids = (λ e. cc, tt)

message_insert-IsCounted_example :
    Returns (message_insert one_at_a_time memory db two 4 md_out 1 false 500) IsCounted
message_insert-IsCounted_example =
    message_insert-IsCounted one_at_a_time memory db two 4 md_out 1 false 500 stored found ids
      (omega arith) two-IsCounted two-Distinct

message_insert-InLimits_example :
    Returns
      (message_insert one_at_a_time memory db two 4 md_out 1 false 500)
      (InLimits one_at_a_time)
message_insert-InLimits_example =
    message_insert-InLimits one_at_a_time memory db two 4 md_out 1 false 500 stored found ids
      (omega arith) (omega arith) (omega arith) two-IsCounted two-Distinct (omega arith)

reconnect_reset-IsCounted_example :
    IsCounted (reconnect_reset one_at_a_time db (client (first ∷ second ∷ []) none 7)).1
reconnect_reset-IsCounted_example =
    reconnect_reset-IsCounted one_at_a_time db (client (first ∷ second ∷ []) none 7)
      (λ e. absurd cc) (inl refl, (inl refl, tt))

abbrev skipping : Context
skipping = client (first ∷ incoming ∷ second ∷ []) (some 11) 3

reconnect_reset_skips_example :
    (length (reconnect_reset one_at_a_time db skipping).1.msgs ≡ 2)
    × ((reconnect_reset one_at_a_time db skipping).1.msg_count ≡ pos 1)
reconnect_reset_skips_example =
    reconnect_reset_skips one_at_a_time db skipping (first ∷ []) incoming second [] refl
      (inl refl, tt) refl (omega arith) tt

abbrev unlimited : Setting
unlimited = record { max_inflight = 0; max_queued = 5; now = 9 }

abbrev two_at_a_time : Setting
two_at_a_time = record { max_inflight = 2; max_queued = 5; now = 9 }

-- A queued incoming message of quality of service 1: the window is full behind two passes.
abbrev three : Context
three = client (incoming ∷ first ∷ second ∷ []) (some 11) 3

three-IsCounted : IsCounted three
three-IsCounted = record { all = refl; some12 = refl; last = refl }

three-Bounded : All (Bounded two_at_a_time) three.msgs
three-Bounded = (
  ((λ e. cc), inr (omega arith)),
  (((λ e. cc), inl (inl refl)), (((λ e. cc), inl (inl refl)), tt)),
)

message_write_counts_again :
    message_write (λ m. 0) two_at_a_time 4 db three false ≡ wrote db three 0
unfolding message_write wirenboard.Broker.Write.has_no_id
message_write_counts_again = refl

message_write-IsCounted_example :
    Ends (message_write (λ m. 0) two_at_a_time 8 db three false) IsCounted
message_write-IsCounted_example =
    message_write-IsCounted (λ m. 0) two_at_a_time 8 db three false (omega arith) three-IsCounted
      three-Bounded

message_write-running_example :
    message_write (λ m. 0) unlimited 99 db (client (incoming ∷ []) (some 12) 1) false ≡ running
message_write-running_example =
    message_write-running (λ m. 0) unlimited 99 db (client (incoming ∷ []) (some 12) 1) incoming []
      refl (λ e. cc) refl refl refl (omega arith) refl

abbrev store_memory : StoreMemory
store_memory = record { store = some 600; source_id = true; topic = true; payload = true }

-- A stored message is found at the address that the call gives.
message_store_found :
    (message_store store_memory db none 7 (some (97 ∷ [])) 2 (1 ∷ []) true 0).2 ≡ some 600
unfolding message_store
message_store_found = refl

-- A message that is not answered by 9
abbrev late : Context
late = client (record first { timestamp = 1; state = wait_for_puback } ∷ []) (some first.address) 1

timeout_check-AllChecked_example :
    AllChecked two_at_a_time 3 (late ∷ []) (timeout_check two_at_a_time 3 (late ∷ []))
timeout_check-AllChecked_example =
    timeout_check-AllChecked two_at_a_time 3 (late ∷ [])
      (record { all = refl; some12 = refl; last = refl }, tt)
