-- ===== src/Broker/Queue.antt =====
-- The queue of a client: `_message_remove`, `mqtt3_db_message_insert`, `mqtt3_db_message_update`,
-- `mqtt3_db_message_delete`, `mqtt3_db_messages_delete` and `mqtt3_db_message_reconnect_reset` of
-- src/database.c, as built without websockets.
pub mod Counts
use wirenboard.Common.{
  ℕ, zero, suc, ◌+◌, ◌-◌, Bool, true, false, not, ◌&&◌, ◌||◌, if◌then◌else◌, ltb, leb, ◌==◌, Option,
  none, some, List, [], ◌∷◌, ◌++◌, Bytes, str_eq, ℤ, pos, negsuc, inc, dec, below,
}
use wirenboard.Broker.State.{
  MsgState, invalid, publish_qos0, publish_qos1, wait_for_puback, publish_qos2, wait_for_pubrec,
  resend_pubrel, wait_for_pubrel, wait_for_pubcomp, queued, Direction, md_in, md_out, ClientMsg,
  MsgStore, Bridge, Context, Db, Setting,
}

pub same_direction : Direction → Direction → Bool
same_direction md_in md_in = true
same_direction md_out md_out = true
same_direction _ _ = false

unfoldable pub is_queued : MsgState → Bool
is_queued queued = true
is_queued _ = false

unfoldable pub is_zero : ℤ → Bool
is_zero (pos zero) = true
is_zero _ = false

-- `mosquitto__db_msg_store_deref`, on the list of stored messages and their number.
unfoldable pub store_deref : ℕ → List MsgStore → ℤ → record { list : List MsgStore; number : ℤ }
unfolding is_zero
store_deref a [] n = record { list = []; number = n }
store_deref a (s ∷ ss) n =
    let rest = store_deref a ss n in
    if s.address == a
    then (if is_zero (dec s.ref_count)
        then record { list = ss; number = dec n }
        else record { list = record s { ref_count = dec s.ref_count } ∷ ss; number = n })
    else record { list = s ∷ rest.list; number = rest.number }

unfoldable pub deref : Option ℕ → Db → Db
unfolding store_deref
deref none db = db
deref (some a) db =
    let r = store_deref a db.msg_store db.msg_store_count in
    record db { msg_store = r.list; msg_store_count = r.number }

abbrev pub last_address : List ClientMsg → Option ℕ
last_address [] = none
last_address (m ∷ []) = some m.address
last_address (m ∷ m' ∷ ms) = last_address (m' ∷ ms)

-- What `last_msg` is when the message between `before` and `rest` goes.
pub last_after : List ClientMsg → List ClientMsg → Option ℕ → Option ℕ
last_after [] [] old = none
last_after (m ∷ before) [] old = last_address (m ∷ before)
last_after before (r ∷ rest) old = old

-- `_message_remove`, of the message `m` that stands between `before` and `rest`.
unfoldable pub message_remove :
    Db → Context → List ClientMsg → ClientMsg → List ClientMsg → Db × Context
unfolding deref last_after
message_remove db context before m rest = (
  deref m.store db,
  record context {
    msgs = before ++ rest;
    last_msg = last_after before rest context.last_msg;
    msg_count = dec context.msg_count;
    msg_count12 = if ltb 0 m.qos then dec context.msg_count12 else context.msg_count12;
  },
)

-- The state in which a message of a quality of service is sent; `old` for another one.
unfoldable pub publish_state : ℕ → MsgState → MsgState
publish_state qos old =
    if qos == 0
    then publish_qos0
    else if qos == 1
    then publish_qos1
    else if qos == 2
    then publish_qos2
    else old

-- A queued message that comes into the window, in `mqtt3_db_message_delete`.
pub promoted : ClientMsg → MsgState
unfolding publish_state
promoted m = elim m.direction [
  | md_out ↦ publish_state m.qos m.state
  | md_in ↦ if m.qos == 2 then wait_for_pubrel else m.state
]

unfoldable pub promote : Setting → ℕ → ClientMsg → ClientMsg
unfolding promoted is_queued
promote st index m =
    if is_queued m.state && leb index st.max_inflight
    then record m { timestamp = st.now; state = promoted m }
    else m

pub is_for : ℕ → Direction → ClientMsg → Bool
unfolding same_direction
is_for mid dir m = m.mid == mid && same_direction m.direction dir

module _ (st : Setting) (mid : ℕ) (dir : Direction) where
  -- The loop of `mqtt3_db_message_delete`, at the messages behind `before`.
  pub delete_loop : Db → Context → List ClientMsg → List ClientMsg → ℕ → Bool → Db × Context
  delete_loop db context before [] index deleted = (db, record context { msgs = before })
  delete_loop db context before (m ∷ rest) index deleted =
      let m' = promote st (index + 1) m in
      elim (is_for mid dir m') [
        | true ↦
            let (db', context') = message_remove db context before m' rest in
            (elim (ltb st.max_inflight index) [
              | true ↦ (db', context')
              | false ↦ delete_loop db' context' before rest index true
            ])
        | false ↦ (elim (ltb st.max_inflight (index + 1) && deleted) [
          | true ↦ (db, record context { msgs = before ++ m' ∷ rest })
          | false ↦ delete_loop db context (before ++ m' ∷ []) rest (index + 1) deleted
        ])
      ]

  unfoldable pub message_delete : Db → Context → Db × Context
  unfolding delete_loop message_remove promote is_for
  message_delete db context = delete_loop db context [] context.msgs 0 false
