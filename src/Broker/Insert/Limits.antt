-- ===== src/Broker/Insert/Limits.antt =====
-- The limits that an insertion keeps to.
use wirenboard.Common.{
  ℕ, ◌+◌, ◌≤◌, ◌<◌, ◌≡◌, ◌≢◌, refl, arith, Bool, not, ◌&&◌, if◌then◌else◌, ltb, none, some,
  Bool-cases, Option-cases, inl, inr, List, [], ◌∷◌, ◌++◌, All, Bytes,
}
use wirenboard.Broker.State.{MsgState, Direction, ClientMsg, MsgStore, Context, Db, Setting}
use wirenboard.Broker.Queue.Counts.{IsCounted, count12, count12-append}
use wirenboard.Broker.Insert.{
  Allocation, new_message, find_store, tracks, Choice, enqueue, refuse, drop_it, unset, choose,
  pushed, finish, add, act, message_insert,
}
use wirenboard.Broker.Insert.Counts.{
  Distinct, Returns, linked_lem, choose-ne-unset, message_insert-act,
}

-- No more messages above quality of service 0 than the window and the queue may hold.
abbrev pub InLimits : Setting → Context → Type 0
InLimits st context = count12 context.msgs ≤ st.max_inflight + st.max_queued

finish-msgs :
    (P : List ClientMsg → Type 0) (st : Setting) (mem : Allocation) (db : Db) (context : Context)
    (id : Bytes) (m : ClientMsg) (s : MsgStore) (ms : List ClientMsg) (rc : ℕ)
    → P ms
    → Returns (finish st mem db context id m s ms rc) (λ c. P c.msgs)
unfolding finish pushed
finish-msgs P st mem db context id m s ms rc p =
    elim (Bool-cases (tracks db m.direction m.retain && not (mem.array && mem.copy))) [
      | inl failed ↦ rw failed p
      | inr fine ↦ rw fine p
    ]

-- A message is only taken where there is room for it.
choose_room :
    (st : Setting) (db : Db) (context : Context) (dir : Direction) (qos : ℕ) (state : MsgState)
    (rc : ℕ)
    → 0 < st.max_inflight
    → 0 < st.max_queued
    → IsCounted context
    → InLimits st context
    → choose st db context dir qos ≡ enqueue state rc
    → (if ltb 0 qos then 1 else 0) + count12 context.msgs ≤ st.max_inflight + st.max_queued
unfolding choose
choose_room st db context dir qos state rc hi hq c fits e =
    let k = c.some12 in ground (arith, rw k at e)

module _ (st : Setting) (mem : Allocation) (db : Db) (context : Context) (mid : ℕ) (dir : Direction)
    (qos : ℕ) (retain : Bool) (s : MsgStore) (c : IsCounted context) (d : Distinct context.msgs)
    (fits : InLimits st context) where
  act-InLimits :
      (id : Bytes) (choice : Choice)
      → choice ≢ unset
      → ((state : MsgState) (rc : ℕ)
          → choice ≡ enqueue state rc
          → (if ltb 0 qos then 1 else 0) + count12 context.msgs ≤ st.max_inflight + st.max_queued)
      → Returns (act st mem db context mid dir qos retain id s choice) (InLimits st)
  unfolding act add
  act-InLimits id unset h room = h refl
  act-InLimits id (refuse rc) h room = fits
  act-InLimits id drop_it h room = fits
  act-InLimits id (enqueue state rc) h room = elim (Option-cases mem.message) [
    | inl e ↦ rw (e, act) fits
    | inr (a, e) ↦
        (let m = new_message st a mid dir qos retain s state in
          rw (e, act)
            (rw (linked_lem context m c d, add)
              (finish-msgs (λ ms. count12 ms ≤ st.max_inflight + st.max_queued) st mem _ context id
                m s (context.msgs ++ m ∷ []) rc
                (omega (arith, room state rc refl, count12-append context.msgs (m ∷ []))))))
  ]

-- With a window and a queue that are limited, `mqtt3_db_message_insert` never lets the messages of
-- a quality of service above 0 of a client exceed the two limits together, whatever it does with
-- the message.
pub message_insert-InLimits :
    (st : Setting) (mem : Allocation) (db : Db) (context : Context) (mid : ℕ) (dir : Direction)
    (qos : ℕ) (retain : Bool) (stored : ℕ) (s : MsgStore)
    → find_store stored db.msg_store ≡ some s
    → All (λ i. i ≢ none) s.dest_ids
    → qos ≤ 2
    → 0 < st.max_inflight
    → 0 < st.max_queued
    → IsCounted context
    → Distinct context.msgs
    → InLimits st context
    → Returns (message_insert st mem db context mid dir qos retain stored) (InLimits st)
message_insert-InLimits st mem db context mid dir qos retain stored s found ids range hi hq c d
      fits =
    message_insert-act (InLimits st) st mem db context mid dir qos retain stored s found ids fits
      (λ id.
        act-InLimits st mem db context mid dir qos retain s c d fits id _
          (choose-ne-unset st db context dir qos range)
          (λ state rc e. choose_room st db context dir qos state rc hi hq c fits e))
