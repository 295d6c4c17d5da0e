-- ===== src/Broker/Timeout.antt =====
-- `mqtt3_db_message_timeout_check` of src/database.c of mosquitto-1.4.2, for all clients that have a
-- socket.
use wirenboard.Common.{
  ℕ, suc, ◌-◌, ◌≡◌, refl, sym, ap, arith, true, false, ◌&&◌, ltb, none, List, [], ◌∷◌, length, All,
  pos, Option, Option-cases, ◌∙◌, Bool, not, some, ◌⊎◌, inl, inr, Bool-cases,
}
use wirenboard.Broker.State.{
  MsgState, invalid, publish_qos0, publish_qos1, publish_qos2, resend_pubrel, resend_pubcomp,
  send_pubrec, queued, wait_for_puback, wait_for_pubrec, wait_for_pubrel, wait_for_pubcomp,
  ClientMsg, Context, Setting,
}
use wirenboard.Broker.Queue.{is_queued, last_address}
use wirenboard.Broker.Queue.Counts.{count12, IsCounted}
use wirenboard.Broker.Write.{send_keep, step_of, retry_state, timeout_message}

-- The loop over the messages of a client
unfoldable pub timeout_messages : Setting → (timeout : ℕ) → List ClientMsg → List ClientMsg
timeout_messages st timeout [] = []
timeout_messages st timeout (m ∷ ms) = timeout_message st timeout m ∷ timeout_messages st timeout ms

-- The loop over the clients in `contexts_by_sock`; a client without a socket is not there.
unfoldable pub timeout_check : Setting → (timeout : ℕ) → List Context → List Context
timeout_check st timeout [] = []
timeout_check st timeout (c ∷ cs) =
    record c { msgs = timeout_messages st timeout c.msgs } ∷ timeout_check st timeout cs

-- The states in which the broker waits for an answer of the client.
abbrev pub is_waiting : MsgState → Bool
is_waiting wait_for_puback = true
is_waiting wait_for_pubrec = true
is_waiting wait_for_pubrel = true
is_waiting wait_for_pubcomp = true
is_waiting _ = false

-- A message has waited for longer than the timeout.
abbrev pub is_late : Setting → (timeout : ℕ) → ClientMsg → Bool
is_late st timeout m = ltb m.timestamp (st.now - timeout) && is_waiting m.state

not_retried : (s : MsgState) → retry_state s ≡ none → is_waiting s ≡ false
unfolding retry_state
not_retried invalid h = refl
not_retried publish_qos0 h = refl
not_retried publish_qos1 h = refl
not_retried wait_for_puback h = cc
not_retried publish_qos2 h = refl
not_retried wait_for_pubrec h = cc
not_retried resend_pubrel h = refl
not_retried wait_for_pubrel h = cc
not_retried resend_pubcomp h = refl
not_retried wait_for_pubcomp h = cc
not_retried send_pubrec h = refl
not_retried queued h = refl

not_queued : (s : MsgState) → is_queued s ≡ true → is_waiting s ≡ false
unfolding is_queued
not_queued queued h = refl
not_queued _ h = cc

-- What becomes of a message: one that is late is sent again, as a duplicate and with the time of the
-- call, in a state from which sending it leads back to the state in which it waited; the others stay
-- as they are.
abbrev pub Retried : Setting → (timeout : ℕ) → ClientMsg → ClientMsg → Type 0
Retried st timeout m m' =
    ((is_late st timeout m ≡ true)
      × (mark : Bool) × (step_of m'.state ≡ send_keep mark m.state)
      × (m' ≡ record m { timestamp = st.now; dup = true; state = m'.state }))
    ⊎ ((is_late st timeout m ≡ false) × (m' ≡ m))

timeout_message-on_time :
    (st : Setting) (timeout : ℕ) (m : ClientMsg)
    → is_late st timeout (timeout_message st timeout m) ≡ false
unfolding timeout_message
timeout_message-on_time st timeout m =
    ground (arith, Option-cases (retry_state m.state), not_retried m.state, not_queued m.state)

timeout_messages-on_time :
    (st : Setting) (timeout : ℕ) (ms : List ClientMsg)
    → All (λ m. is_late st timeout m ≡ false) (timeout_messages st timeout ms)
unfolding timeout_messages
timeout_messages-on_time st timeout [] = tt
timeout_messages-on_time st timeout (m ∷ ms) =
    (timeout_message-on_time st timeout m, timeout_messages-on_time st timeout ms)

-- What `retry_state` gives for a state in which the broker waited, or not
abbrev LeadsBack : MsgState → Option MsgState → Type 0
LeadsBack old none = is_waiting old ≡ false
LeadsBack old (some state) =
    (is_waiting old ≡ true) × (mark : Bool) × (step_of state ≡ send_keep mark old)

retry_state-LeadsBack : (old : MsgState) → LeadsBack old (retry_state old)
unfolding retry_state step_of
retry_state-LeadsBack wait_for_puback = (refl, true, refl)
retry_state-LeadsBack wait_for_pubrec = (refl, true, refl)
retry_state-LeadsBack wait_for_pubrel = (refl, false, refl)
retry_state-LeadsBack wait_for_pubcomp = (refl, false, refl)
retry_state-LeadsBack _ = refl

timeout_message-Retried :
    (st : Setting) (timeout : ℕ) (m : ClientMsg)
    → Retried st timeout m (timeout_message st timeout m)
unfolding timeout_message
timeout_message-Retried st timeout m =
    elim (Bool-cases (ltb m.timestamp (st.now - timeout) && not (is_queued m.state))) [
      | inl over ↦ (elim (Option-cases (retry_state m.state)) [
        | inl e ↦ rw (over, e) (inr (rw (not_retried m.state e) (ground arith), refl))
        | inr (state, e) ↦
            (let back = rw e at (retry_state-LeadsBack m.state) in
              rw (over, e) (inl (ground arith, back.1, back.2, refl)))
      ])
      | inr fine ↦ rw fine (inr (ground (arith, not_queued m.state), refl))
    ]

timeout_message-address :
    (st : Setting) (timeout : ℕ) (m : ClientMsg)
    → ((timeout_message st timeout m).address ≡ m.address)
      × ((timeout_message st timeout m).qos ≡ m.qos)
unfolding timeout_message
timeout_message-address st timeout m = ground (arith, Option-cases (retry_state m.state))

timeout_messages-count12 :
    (st : Setting) (timeout : ℕ) (ms : List ClientMsg)
    → (length (timeout_messages st timeout ms) ≡ length ms)
      × (count12 (timeout_messages st timeout ms) ≡ count12 ms)
      × (last_address (timeout_messages st timeout ms) ≡ last_address ms)
unfolding timeout_messages
timeout_messages-count12 st timeout [] = (refl, refl, refl)
timeout_messages-count12 st timeout (m ∷ []) =
    let h = timeout_message-address st timeout m in (refl, rw h.1 refl, rw h.0 refl)
timeout_messages-count12 st timeout (m ∷ x ∷ ms) =
    let h = timeout_message-address st timeout m in
    let r = timeout_messages-count12 st timeout (x ∷ ms) in (ap suc r.0, rw (h.1, r.1) refl, r.2)

-- The messages of a queue, one by one.
abbrev pub AllRetried : Setting → (timeout : ℕ) → List ClientMsg → List ClientMsg → Type 0
AllRetried st timeout [] ys = ys ≡ []
AllRetried st timeout (m ∷ ms) [] = ⊥
AllRetried st timeout (m ∷ ms) (y ∷ ys) = Retried st timeout m y × AllRetried st timeout ms ys

timeout_messages-AllRetried :
    (st : Setting) (timeout : ℕ) (ms : List ClientMsg)
    → AllRetried st timeout ms (timeout_messages st timeout ms)
unfolding timeout_messages
timeout_messages-AllRetried st timeout [] = refl
timeout_messages-AllRetried st timeout (m ∷ ms) =
    (timeout_message-Retried st timeout m, timeout_messages-AllRetried st timeout ms)

-- What the check makes of a client `c`: `c'` differs in its queue only, none of whose messages is
-- late any more, and its counters are right.
abbrev pub IsChecked : Setting → (timeout : ℕ) → Context → Context → Type 0
IsChecked st timeout c c' =
    (c' ≡ record c { msgs = c'.msgs })
    × AllRetried st timeout c.msgs c'.msgs
    × All (λ m. is_late st timeout m ≡ false) c'.msgs
    × IsCounted c'

abbrev pub AllChecked : Setting → (timeout : ℕ) → List Context → List Context → Type 0
AllChecked st timeout [] ds = ds ≡ []
AllChecked st timeout (c ∷ cs) [] = ⊥
AllChecked st timeout (c ∷ cs) (d ∷ ds) = IsChecked st timeout c d × AllChecked st timeout cs ds

-- Of the clients that have a socket, whose counters are right: behind the check every message that
-- waited for an answer for longer than the timeout is to be sent again, as a duplicate and from the
-- state whose sending leads back to the state in which it waited; no other message is changed, none
-- is late any more, and the counters stay right.
pub timeout_check-AllChecked :
    (st : Setting) (timeout : ℕ) (by_sock : List Context)
    → All IsCounted by_sock
    → AllChecked st timeout by_sock (timeout_check st timeout by_sock)
unfolding timeout_check
timeout_check-AllChecked st timeout [] h = refl
timeout_check-AllChecked st timeout (c ∷ cs) h =
    let r = timeout_messages-count12 st timeout c.msgs in
    (
      (
        refl,
        timeout_messages-AllRetried st timeout c.msgs,
        timeout_messages-on_time st timeout c.msgs,
        record {
          all = h.0.all ∙ ap pos (sym r.0);
          some12 = h.0.some12 ∙ ap pos (sym r.1);
          last = h.0.last ∙ sym r.2;
        },
      ),
      timeout_check-AllChecked st timeout cs h.1,
    )
