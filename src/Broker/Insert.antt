-- ===== src/Broker/Insert.antt =====
-- `mqtt3_db_message_insert` of src/database.c of mosquitto-1.4.2, as built without websockets.
pub mod Counts
pub mod Limits
use wirenboard.Common.{
  ℕ, zero, suc, ◌+◌, Bool, true, false, not, ◌&&◌, ◌||◌, if◌then◌else◌, ltb, ◌==◌, Option, none,
  some, List, [], ◌∷◌, ◌++◌, Bytes, str_eq, ℤ, pos, inc, below,
}
use wirenboard.Broker.State.{
  MsgState, invalid, queued, wait_for_pubrel, Direction, md_in, md_out, ClientMsg, MsgStore, Bridge,
  Context, Db, Setting,
}
use wirenboard.Broker.Queue.{is_queued, publish_state}

-- A call returns the state behind it and its number, or it is broken: a failed assertion, or a
-- pointer to nothing.
pub data Outcome : Type 0 where
  returned : Db → Context → ℕ → Outcome
  broken : Outcome

-- Which allocations succeed: the address of the message, the array of client ids, and the copy of
-- the id.
pub record Allocation : Type 0 where
  pub message : Option ℕ
  pub array : Bool
  pub copy : Bool

unfoldable pub find_store : ℕ → List MsgStore → Option MsgStore
find_store a [] = none
find_store a (s ∷ ss) = if s.address == a then some s else find_store a ss

pub set_store : MsgStore → List MsgStore → List MsgStore
set_store s [] = []
set_store s (x ∷ ss) = if x.address == s.address then s ∷ ss else x ∷ set_store s ss

-- The loop over `dest_ids`; `none` is a `strcmp` with NULL.
pub already_sent : Bytes → List (Option Bytes) → Option Bool
already_sent id [] = some false
already_sent id (none ∷ ids) = none
already_sent id (some d ∷ ids) = if str_eq d id then some true else already_sent id ids

pub is_out : Direction → Bool
is_out md_out = true
is_out md_in = false

-- Whether the client ids that have the message are kept and looked at.
pub tracks : Db → Direction → Bool → Bool
unfolding is_out
tracks db dir retain = not db.allow_duplicate_messages && (is_out dir && not retain)

pub is_lazy : Option Bridge → Bool
is_lazy none = false
is_lazy (some b) = b.starts_lazy

-- What the tests of the counters come to: a state and a number to return, a return at once, or a
-- message that is dropped. With no case for the quality of service the state stays
-- mosq_ms_invalid, which an `assert` refuses.
pub data Choice : Type 0 where
  enqueue : MsgState → ℕ → Choice
  refuse : ℕ → Choice
  drop_it unset : Choice

pub sent : Direction → ℕ → Choice
unfolding publish_state
sent md_out qos = if ltb 2 qos then unset else enqueue (publish_state qos invalid) 0
sent md_in qos = if qos == 2 then enqueue wait_for_pubrel 0 else refuse 1

pub choose : Setting → Db → Context → Direction → ℕ → Choice
unfolding is_lazy sent
choose st db context dir qos =
    if context.connected
    then (if qos == 0 || (st.max_inflight == 0 || below context.msg_count12 st.max_inflight)
        then sent dir qos
        else if st.max_queued == 0 || below context.msg_count12 (st.max_inflight + st.max_queued)
        then enqueue queued 2
        else drop_it)
    else if qos == 0 && (not db.queue_qos0_messages && not (is_lazy context.bridge))
    then refuse 2
    else if ltb 0 st.max_queued && not (below context.msg_count12 st.max_queued)
    then drop_it
    else enqueue queued 0

-- `context->last_msg->next = msg`, where `last_msg` is the address `a`: what came behind is lost,
-- and an address that is not in the queue is a pointer to a message that has been freed.
unfoldable pub link : ℕ → ClientMsg → List ClientMsg → Option (List ClientMsg)
link a m [] = none
link a m (x ∷ ms) =
    let rest = link a m ms in
    if x.address == a then some (x ∷ m ∷ []) else elim rest [ none ↦ none | some l ↦ some (x ∷ l) ]

pub linked : Context → ClientMsg → Option (List ClientMsg)
unfolding link
linked context m = elim context.last_msg [ none ↦ some (m ∷ []) | some a ↦ link a m context.msgs ]

-- The client with the queue `ms` that ends in the new message.
pub pushed : Context → ClientMsg → List ClientMsg → Context
pushed context m ms = record context {
  msgs = ms;
  last_msg = some m.address;
  msg_count = inc context.msg_count;
  msg_count12 = if ltb 0 m.qos then inc context.msg_count12 else context.msg_count12;
}

-- A lazy bridge connects when enough messages wait.
pub wake : Context → Option Bridge
wake context = elim context.bridge [
  | none ↦ none
  | some b ↦
      if b.starts_lazy && (not context.connected && not (below context.msg_count b.threshold))
      then some (record b { lazy_reconnect = true })
      else some b
]

-- The client id is added to those of the stored message; the result is NULL for a copy that failed.
pub record_id : Allocation → Bytes → MsgStore → MsgStore
record_id mem id s =
    if mem.array
    then record s { dest_ids = s.dest_ids ++ (if mem.copy then some id else none) ∷ [] }
    else s

abbrev pub new_message : Setting → ℕ → ℕ → Direction → ℕ → Bool → MsgStore → MsgState → ClientMsg
new_message st a mid dir qos retain s state = record {
  address = a;
  store = some s.address;
  mid = mid;
  qos = qos;
  retain = retain;
  timestamp = st.now;
  direction = dir;
  state = state;
  dup = false;
}

module _ (st : Setting) (mem : Allocation) (db : Db) (context : Context) where
  -- The end of the function, with the queue that the new message stands in.
  pub finish : Bytes → ClientMsg → MsgStore → List ClientMsg → ℕ → Outcome
  unfolding tracks record_id pushed wake
  finish id m s ms rc =
      let s' = record s { ref_count = inc s.ref_count } in
      let context' = pushed context m ms in
      let tracked = tracks db m.direction m.retain in
      let s'' = if tracked then record_id mem id s' else s' in
      let db' = record db { msg_store = set_store s'' db.msg_store } in
      if tracked && not (mem.array && mem.copy)
      then returned db' context' 1
      else returned db' (record context' { bridge = wake context' }) rc

  -- The message is made and put behind the last one.
  pub add : ℕ → ℕ → Direction → ℕ → Bool → Bytes → MsgStore → MsgState → ℕ → Outcome
  unfolding finish linked
  add a mid dir qos retain id s state rc =
      let m = new_message st a mid dir qos retain s state in
      elim (linked context m) [ none ↦ broken | some ms ↦ finish id m s ms rc ]

-- What follows the tests.
module _ (st : Setting) (mem : Allocation) (db : Db) (context : Context) (mid : ℕ) (dir : Direction)
    (qos : ℕ) (retain : Bool) (id : Bytes) (s : MsgStore) where
  pub act : Choice → Outcome
  unfolding is_queued add
  act unset = broken
  act (refuse rc) = returned db context rc
  act drop_it =
      returned (record db { msgs_dropped = db.msgs_dropped + 1 })
        (record context { is_dropping = true }) 2
  act (enqueue state rc) =
      let db' =
        if is_queued state
        then record db { persistence_changes = inc db.persistence_changes }
        else db in
      elim mem.message [
        | none ↦ returned db' context 1
        | some a ↦ add st mem db' context a mid dir qos retain id s state rc
      ]

-- `none` for the id is the client that is disconnected and not entirely freed.
unfoldable pub message_insert :
    Setting
    → Allocation
    → Db
    → Context
    → (mid : ℕ) → Direction
    → (qos : ℕ) → (retain : Bool) → (stored : ℕ) → Outcome
unfolding find_store set_store already_sent tracks choose act
message_insert st mem db context mid dir qos retain stored = elim (find_store stored db.msg_store) [
  | none ↦ broken
  | some s ↦ (elim context.id [
    | none ↦ returned db context 0
    | some id ↦ (elim (if tracks db dir retain then already_sent id s.dest_ids else some false) [
      | none ↦ broken
      | some true ↦ returned db context 0
      | some false ↦ act st mem db context mid dir qos retain id s (choose st db context dir qos)
    ])
  ])
]
