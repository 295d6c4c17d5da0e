-- ===== src/Broker/Write.antt =====
-- `mqtt3_db_message_write` of src/database.c of mosquitto-1.4.2, and the states that
-- `mqtt3_db_message_timeout_check` sets for one client. The functions that send a packet are an
-- argument, which gives their return code for a message.
pub mod Counts
use wirenboard.Common.{
  ℕ, zero, suc, ◌+◌, ◌-◌, Bool, true, false, not, ◌&&◌, ◌||◌, if◌then◌else◌, ltb, ◌==◌, Option,
  none, some, List, [], ◌∷◌, ◌++◌, Bytes,
}
use wirenboard.Broker.State.{
  MsgState, publish_qos0, publish_qos1, wait_for_puback, publish_qos2, wait_for_pubrec,
  resend_pubrel, wait_for_pubrel, resend_pubcomp, wait_for_pubcomp, send_pubrec, queued, Direction,
  md_in, md_out, ClientMsg, Context, Db, Setting,
}
use wirenboard.Broker.Queue.{is_queued, message_remove}

unfoldable pub has_no_id : Option Bytes → Bool
has_no_id none = true
has_no_id (some id) = false

-- What the `switch` does with a message: it is sent and removed, sent and kept in another state
-- (the flag says whether it becomes a duplicate with a new time), or left alone.
pub data Step : Type 0 where
  send_remove leave : Step
  send_keep : Bool → MsgState → Step

unfoldable pub step_of : MsgState → Step
step_of publish_qos0 = send_remove
step_of publish_qos1 = send_keep true wait_for_puback
step_of publish_qos2 = send_keep true wait_for_pubrec
step_of send_pubrec = send_keep false wait_for_pubrel
step_of resend_pubrel = send_keep false wait_for_pubcomp
step_of resend_pubcomp = send_keep false wait_for_pubrel
step_of _ = leave

-- The function returns, it reads the fields of a stored message that is missing, or it is still in
-- its loop behind the passes that it was given.
pub data Written : Type 0 where
  wrote : Db → Context → ℕ → Written
  crashes running : Written

pub is_in : Direction → Bool
is_in md_in = true
is_in md_out = false

abbrev pub kept : Setting → Bool → MsgState → ClientMsg → ClientMsg
kept st mark state m =
    if mark
    then record m { state = state; timestamp = st.now; dup = true }
    else record m { state = state }

-- A queued message that the window has room for: an incoming one, with `count` incoming messages
-- seen.
pub comes_in : Setting → ℕ → ClientMsg → Bool
unfolding is_in
comes_in st count m = is_in m.direction && (st.max_inflight == 0 || ltb count st.max_inflight)

-- What becomes of a queued message that comes in; the loop looks at it once more.
pub entered : ClientMsg → ClientMsg
entered m = if m.qos == 2 then record m { state = send_pubrec } else m

-- `msg_count` behind the test at the top of a pass
pub count_in : ℕ → ClientMsg → ℕ
unfolding is_in
count_in count m = if is_in m.direction then count + 1 else count

module _ (send : ClientMsg → ℕ) (st : Setting) where
  -- The loop at the messages behind `before`, with `msg_count` as it stands, for at most `passes`
  -- passes. A queued message that comes in is not passed over: it is counted again in the next pass.
  pub write_loop : (passes : ℕ) → Db → Context → List ClientMsg → List ClientMsg → ℕ → Written
  write_loop passes db context before [] count = wrote db (record context { msgs = before }) 0
  write_loop zero db context before (m ∷ rest) count = running
  write_loop (suc passes) db context before (m ∷ rest) count =
      let seen = count_in count m in
      let failed = wrote db (record context { msgs = before ++ m ∷ rest }) (send m) in
      elim (is_queued m.state) [
        | true ↦ (elim (comes_in st seen m) [
          | true ↦ write_loop passes db context before (entered m ∷ rest) seen
          | false ↦ write_loop passes db context (before ++ m ∷ []) rest seen
        ])
        | false ↦ (elim m.store [
          | none ↦ crashes
          | some address ↦ (elim (step_of m.state) [
            | leave ↦ write_loop passes db context (before ++ m ∷ []) rest seen
            | send_keep mark state ↦ (elim (send m == 0) [
              | true ↦ write_loop passes db context (before ++ kept st mark state m ∷ []) rest seen
              | false ↦ failed
            ])
            | send_remove ↦ (elim (send m == 0) [
              | true ↦
                  (let (db', context') = message_remove db context before m rest in
                    write_loop passes db' context' before rest seen)
              | false ↦ failed
            ])
          ])
        ])
      ]

  -- The function for a client that is there; `is_new` says that its handshake is not finished.
  unfoldable pub message_write : (passes : ℕ) → Db → Context → (is_new : Bool) → Written
  unfolding write_loop step_of entered count_in comes_in is_queued
  message_write passes db context is_new =
      if not context.connected || not is_new && has_no_id context.id
      then wrote db context 3
      else if is_new
      then wrote db context 0
      else write_loop passes db context [] context.msgs 0

-- `mqtt3_db_message_timeout_check`, for one message.
unfoldable pub retry_state : MsgState → Option MsgState
retry_state wait_for_puback = some publish_qos1
retry_state wait_for_pubrec = some publish_qos2
retry_state wait_for_pubrel = some send_pubrec
retry_state wait_for_pubcomp = some resend_pubrel
retry_state _ = none

unfoldable pub timeout_message : Setting → ℕ → ClientMsg → ClientMsg
unfolding retry_state is_queued
timeout_message st timeout m =
    if ltb m.timestamp (st.now - timeout) && not (is_queued m.state)
    then (elim (retry_state m.state) [
      | none ↦ m
      | some state ↦ record m { timestamp = st.now; state = state; dup = true }
    ])
    else m
