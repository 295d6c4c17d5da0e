-- ===== src/Persist/Write.antt =====
-- The chunks of the database file: `mqtt3_db_message_store_write`, `mqtt3_db_client_write` with
-- `mqtt3_db_client_messages_write`, and `mqtt3_db_subs_retain_write` with `_db_subs_retain_write`
-- of src/persist.c of mosquitto-1.4.2.
use wirenboard.Common.{
  ℕ, ◌+◌, ◌%◌, ◌^◌, Bool, true, false, if◌then◌else◌, ◌==◌, Option, none, some, List, [], ◌∷◌, ◌++◌,
  Bytes, length, take,
}
use wirenboard.Broker.State.{ClientMsg, MsgStore}
use wirenboard.Broker.Insert.{find_store}
use wirenboard.Subs.Tree.{Leaf, Hier, end, node}
use wirenboard.Persist.Format.{
  be16, be32, le, byte, flag, state_byte, direction_byte, is_sys, ClientState, session_at,
}
use wirenboard.Persist.Output.{Out, Wrote, done, failed, broken, write_all, then_write, optional}

-- A text that `uint16_t slen` counts: its length and that many of its bytes.
abbrev pub short_text : Bytes → Bytes
short_text s = take (length s % 2 ^ 16) s

-- The chunk of a stored message with a topic. `mid` is 0 since the message was stored.
abbrev pub stored_fields : MsgStore → (topic : Bytes) → List Bytes
stored_fields s topic =
    be16 2
    ∷ be32 (8 + 2 + length s.source_id + 2 + 2 + 2 + length topic + 4 + length s.payload + 1 + 1)
    ∷ le 8 s.db_id
    ∷ be16 (length s.source_id)
    ∷ (optional (short_text s.source_id)
        ++ (be16 s.source_mid
            ∷ be16 0
            ∷ be16 (length topic)
            ∷ short_text topic
            ∷ byte s.qos
            ∷ byte (if is_sys topic then 0 else flag s.retain)
            ∷ be32 (length s.payload)
            ∷ optional s.payload))

-- `mqtt3_db_message_store_write`
unfoldable pub message_store_write : List MsgStore → Out → Wrote
message_store_write [] o = record { out = o; status = done }
message_store_write (s ∷ ss) o = elim s.topic [
  | none ↦ record { out = o; status = broken }
  | some topic ↦ then_write (write_all (stored_fields s topic) o) (message_store_write ss)
]

abbrev pub client_msg_fields : (id : Bytes) → (db_id : ℕ) → ClientMsg → List Bytes
client_msg_fields id db_id m =
    be16 3
    ∷ be32 (8 + 2 + 1 + 1 + 1 + 1 + 1 + 2 + length id % 2 ^ 16)
    ∷ be16 (length id)
    ∷ short_text id
    ∷ le 8 db_id
    ∷ be16 m.mid
    ∷ byte m.qos
    ∷ byte (flag m.retain)
    ∷ byte (direction_byte m.direction)
    ∷ byte (state_byte m.state)
    ∷ byte (flag m.dup)
    ∷ []

-- `cmsg->store->db_id`
unfoldable pub stored_id : List MsgStore → Option ℕ → Option ℕ
stored_id stores none = none
stored_id stores (some a) = elim (find_store a stores) [ none ↦ none | some s ↦ some s.db_id ]

-- `mqtt3_db_client_messages_write`
unfoldable pub client_messages_write : (id : Bytes) → List MsgStore → List ClientMsg → Out → Wrote
client_messages_write id stores [] o = record { out = o; status = done }
client_messages_write id stores (m ∷ ms) o = elim (stored_id stores m.store) [
  | none ↦ record { out = o; status = broken }
  | some db_id ↦
      then_write (write_all (client_msg_fields id db_id m) o) (client_messages_write id stores ms)
]

-- The time at which a client went, or now.
abbrev pub disconnected_at : (now : ℕ) → ClientState → ℕ
disconnected_at now s = if s.disconnect_t == 0 then now else s.disconnect_t

abbrev pub client_fields : (now : ℕ) → (id : Bytes) → ClientState → List Bytes
client_fields now id s =
    be16 6
    ∷ be32 (2 + length id + 2 + 8)
    ∷ be16 (length id)
    ∷ short_text id
    ∷ be16 s.client.last_mid
    ∷ le 8 (disconnected_at now s)
    ∷ []

-- `mqtt3_db_client_write`
unfoldable pub client_write : (now : ℕ) → List MsgStore → List ClientState → Out → Wrote
client_write now stores [] o = record { out = o; status = done }
client_write now stores (s ∷ ss) o = elim s.clean_session [
  | true ↦ client_write now stores ss o
  | false ↦ (elim s.client.context.id [
    | none ↦ record { out = o; status = broken }
    | some id ↦
        then_write
          (then_write (write_all (client_fields now id s) o)
            (client_messages_write id stores s.client.context.msgs))
          (client_write now stores ss)
  ])
]

-- `thistopic`
abbrev pub this_topic : (topic : Bytes) → (node_topic : Bytes) → Bytes
this_topic [] t = t
this_topic (c ∷ s) t = (c ∷ s) ++ (b'/' ∷ t)

-- Here `slen` is a `size_t`: the texts are whole.
abbrev pub sub_fields : (id : Bytes) → (topic : Bytes) → (qos : ℕ) → List Bytes
sub_fields id topic qos =
    be16 5
    ∷ be32 (2 + length id + 2 + length topic + 1)
    ∷ be16 (length id)
    ∷ id
    ∷ be16 (length topic)
    ∷ topic
    ∷ byte qos
    ∷ []

-- The loop over the leaves of a node.
unfoldable pub leaves_write : List ClientState → (topic : Bytes) → List Leaf → Out → Wrote
leaves_write sessions topic [] o = record { out = o; status = done }
leaves_write sessions topic (l ∷ ls) o = elim (session_at l.context sessions) [
  | none ↦ record { out = o; status = broken }
  | some s ↦ (elim s.clean_session [
    | true ↦ leaves_write sessions topic ls o
    | false ↦ (elim s.client.context.id [
      | none ↦ record { out = o; status = broken }
      | some id ↦
          then_write (write_all (sub_fields id topic l.qos) o) (leaves_write sessions topic ls)
    ])
  ])
]

abbrev pub retain_fields : (db_id : ℕ) → List Bytes
retain_fields db_id = be16 4 ∷ be32 8 ∷ le 8 db_id ∷ []

unfoldable pub retained_write : List MsgStore → Option ℕ → Out → Wrote
retained_write stores none o = record { out = o; status = done }
retained_write stores (some a) o = elim (find_store a stores) [
  | none ↦ record { out = o; status = broken }
  | some s ↦ (elim s.topic [
    | none ↦ record { out = o; status = broken }
    | some topic ↦ (elim (is_sys topic) [
      | true ↦ record { out = o; status = done }
      | false ↦ write_all (retain_fields s.db_id) o
    ])
  ])
]

-- How a node's work goes on: without memory for its text it is left out, and so are its children
-- where an error ended the work for the node. The callers do not look at the return code.
unfoldable pub go_on :
    (memory : Bool)
    → Wrote
    → (below : Out → Option Out) → (beside : Out → Option Out) → Out
    → Option Out
go_on false w below beside o = beside o
go_on true w below beside o = elim w.status [
  | broken ↦ none
  | failed ↦ beside w.out
  | done ↦ (elim (below w.out) [ none ↦ none | some o' ↦ beside o' ])
]

-- `_db_subs_retain_write` for a node with its siblings; `memory` says for which nodes, by their
-- address, the text `thistopic` is allocated. `none` follows a pointer to nothing.
unfoldable pub subs_retain_write :
    (memory : ℕ → Bool)
    → List MsgStore
    → List ClientState
    → (topic : Bytes) → Hier
    → Out
    → Option Out
subs_retain_write memory stores sessions topic end o = some o
subs_retain_write memory stores sessions topic (node n ch next) o =
    let t = this_topic topic n.topic in
    let w = then_write (leaves_write sessions t n.subs o) (retained_write stores n.retained) in
    go_on (memory n.address) w (subs_retain_write memory stores sessions t ch)
      (subs_retain_write memory stores sessions topic next) o
