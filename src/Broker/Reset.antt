-- ===== src/Broker/Reset.antt =====
-- `mqtt3_db_message_reconnect_reset`, `mqtt3_db_message_update` and `mqtt3_db_messages_delete` of
-- src/database.c of mosquitto-1.4.2.
pub mod Counts
use wirenboard.Common.{
  ℕ, zero, suc, ◌+◌, Bool, true, false, not, ◌&&◌, ◌||◌, if◌then◌else◌, ltb, ◌==◌, Option, none,
  some, List, [], ◌∷◌, ◌++◌, ℤ, pos, inc,
}
use wirenboard.Broker.State.{
  MsgState, publish_qos2, resend_pubrel, wait_for_pubcomp, Direction, md_in, md_out, ClientMsg,
  Context, Db, Setting,
}
use wirenboard.Broker.Queue.{is_queued, publish_state, message_remove, is_for, deref}

pub waits_for_pubcomp : MsgState → Bool
waits_for_pubcomp wait_for_pubcomp = true
waits_for_pubcomp _ = false

-- The state from which an outgoing message that is not queued is sent again.
pub resent : ClientMsg → MsgState
unfolding publish_state waits_for_pubcomp
resent m =
    if m.qos == 2
    then (if waits_for_pubcomp m.state then resend_pubrel else publish_qos2)
    else publish_state m.qos m.state

pub counted : Context → ClientMsg → Context
counted context m = record context {
  last_msg = some m.address;
  msg_count = inc context.msg_count;
  msg_count12 = if ltb 0 m.qos then inc context.msg_count12 else context.msg_count12;
}

pub again : ClientMsg → ClientMsg
unfolding resent is_queued
again m = if is_queued m.state then m else record m { state = resent m }

-- The first loop of `mqtt3_db_message_reconnect_reset`, at the messages behind `before`. Behind a
-- removal `msg` is the next message already, so that `prev = msg; msg = msg->next` passes over it:
-- then `skip` is set.
pub reset_loop : Bool → Db → Context → List ClientMsg → List ClientMsg → Db × Context
reset_loop skip db context before [] = (db, record context { msgs = before })
reset_loop true db context before (m ∷ rest) = reset_loop false db context (before ++ m ∷ []) rest
reset_loop false db context before (m ∷ rest) =
    let context1 = counted context m in
    elim m.direction [
      | md_out ↦ reset_loop false db context1 (before ++ again m ∷ []) rest
      | md_in ↦ (elim (m.qos == 2) [
        | true ↦ reset_loop false db context1 (before ++ m ∷ []) rest
        | false ↦
            (let (db', context') = message_remove db context1 before m rest in
              reset_loop true db' context' before rest)
      ])
    ]

-- The second loop: queued messages come into the window.
pub window_loop : Setting → ℕ → List ClientMsg → List ClientMsg
unfolding is_queued publish_state
window_loop st count [] = []
window_loop st count (m ∷ ms) =
    let rest = window_loop st (count + 1) ms in
    if st.max_inflight == 0 || ltb count st.max_inflight
    then (if is_queued m.state then record m { state = publish_state m.qos m.state } else m) ∷ rest
    else m ∷ ms

unfoldable pub reconnect_reset : Setting → Db → Context → Db × Context
unfolding reset_loop window_loop counted again message_remove
reconnect_reset st db context =
    let start = record context { msg_count = pos 0; msg_count12 = pos 0 } in
    let (db', context') = reset_loop false db start [] context.msgs in
    (db', record context' { msgs = window_loop st 0 context'.msgs })

-- `mqtt3_db_message_update`: the queue, and whether the message was there.
unfoldable pub message_update :
    Setting → ℕ → Direction → MsgState → List ClientMsg → List ClientMsg × Bool
message_update st mid dir state [] = ([], false)
message_update st mid dir state (m ∷ ms) =
    let (ms', found) = message_update st mid dir state ms in
    if is_for mid dir m
    then (record m { state = state; timestamp = st.now } ∷ ms, true)
    else (m ∷ ms', found)

pub deref_all : Db → List ClientMsg → Db
deref_all db [] = db
deref_all db (m ∷ ms) = deref_all (deref m.store db) ms

-- `mqtt3_db_messages_delete`
unfoldable pub messages_delete : Db → Context → Db × Context
unfolding deref_all
messages_delete db context = (
  deref_all db context.msgs,
  record context { msgs = []; last_msg = none; msg_count = pos 0; msg_count12 = pos 0 },
)
