-- ===== src/Persist/Contents.antt =====
-- The items that a database of mosquitto-1.4.2 consists of, in the order in which src/persist.c saves
-- them.
use wirenboard.Common.{
  ℕ, Bool, true, false, if◌then◌else◌, Option, none, some, List, [], ◌∷◌, ◌++◌, Bytes,
}
use wirenboard.Broker.State.{ClientMsg, MsgStore}
use wirenboard.Broker.Insert.{find_store}
use wirenboard.Subs.Tree.{Leaf, Hier, end, node}
use wirenboard.Persist.Format.{
  flag, state_byte, direction_byte, is_sys, ClientState, Database, session_at,
}
use wirenboard.Persist.Write.{stored_id, disconnected_at, this_topic}
use wirenboard.Persist.Read.{MsgChunk, StoreChunk}
use wirenboard.Persist.Items.{
  Item, config, stored, message, retained, subscribed, client, source_of,
}

-- Two lists of items, one behind the other.
abbrev pub both : Option (List Item) → Option (List Item) → Option (List Item)
both none ys = none
both (some xs) none = none
both (some xs) (some ys) = some (xs ++ ys)

-- A stored message: one of the broker's own topics is not retained any more.
abbrev pub store_chunk : MsgStore → (topic : Bytes) → StoreChunk
store_chunk s topic = record {
  store_id = s.db_id;
  source_id = source_of s.source_id;
  source_mid = s.source_mid;
  topic = topic;
  qos = s.qos;
  retain = if is_sys topic then 0 else flag s.retain;
  payload = s.payload;
}

unfoldable pub store_items : List MsgStore → Option (List Item)
store_items [] = some []
store_items (s ∷ ss) =
    let rest = store_items ss in
    elim s.topic [ none ↦ none | some t ↦ both (some (stored (store_chunk s t) ∷ [])) rest ]

abbrev pub msg_chunk : (id : Bytes) → (db_id : ℕ) → ClientMsg → MsgChunk
msg_chunk id db_id m = record {
  id = id;
  store_id = db_id;
  mid = m.mid;
  qos = m.qos;
  retain = flag m.retain;
  direction = direction_byte m.direction;
  state = state_byte m.state;
  dup = flag m.dup;
}

unfoldable pub msg_items : (id : Bytes) → List MsgStore → List ClientMsg → Option (List Item)
msg_items id stores [] = some []
msg_items id stores (m ∷ ms) =
    let rest = msg_items id stores ms in
    elim (stored_id stores m.store) [
      | none ↦ none
      | some i ↦ both (some (message (msg_chunk id i m) ∷ [])) rest
    ]

-- The sessions that are kept, each with its messages behind it.
unfoldable pub session_items : (now : ℕ) → List MsgStore → List ClientState → Option (List Item)
session_items now stores [] = some []
session_items now stores (s ∷ ss) =
    let rest = session_items now stores ss in
    elim s.clean_session [
      | true ↦ rest
      | false ↦ (elim s.client.context.id [
        | none ↦ none
        | some id ↦
            both
              (both
                (some (
                  client (record {
                    id = id;
                    last_mid = s.client.last_mid;
                    disconnect_t = disconnected_at now s;
                  })
                  ∷ []))
                (msg_items id stores s.client.context.msgs))
              rest
      ])
    ]

unfoldable pub leaf_items : List ClientState → (topic : Bytes) → List Leaf → Option (List Item)
leaf_items sessions topic [] = some []
leaf_items sessions topic (l ∷ ls) =
    let rest = leaf_items sessions topic ls in
    elim (session_at l.context sessions) [
      | none ↦ none
      | some s ↦ (elim s.clean_session [
        | true ↦ rest
        | false ↦ (elim s.client.context.id [
          | none ↦ none
          | some id ↦
              both (some (subscribed (record { id = id; topic = topic; qos = l.qos }) ∷ [])) rest
        ])
      ])
    ]

unfoldable pub retained_items : List MsgStore → Option ℕ → Option (List Item)
retained_items stores none = some []
retained_items stores (some a) = elim (find_store a stores) [
  | none ↦ none
  | some s ↦ (elim s.topic [
    | none ↦ none
    | some topic ↦ some (if is_sys topic then [] else retained s.db_id ∷ [])
  ])
]

-- A node with its siblings, below the text `topic`.
unfoldable pub tree_items :
    List MsgStore → List ClientState → (topic : Bytes) → Hier → Option (List Item)
tree_items stores sessions topic end = some []
tree_items stores sessions topic (node n ch next) =
    let t = this_topic topic n.topic in
    both
      (both (both (leaf_items sessions t n.subs) (retained_items stores n.retained))
        (tree_items stores sessions t ch))
      (tree_items stores sessions topic next)

-- All that a database consists of; `none` where a pointer of it leads to nothing.
unfoldable pub items : (now : ℕ) → Database → (shutdown : Bool) → Option (List Item)
items now w shutdown =
    both
      (both (both (some (config shutdown w.db.last_db_id ∷ [])) (store_items w.db.msg_store))
        (session_items now w.db.msg_store w.sessions))
      (tree_items w.db.msg_store w.sessions [] w.roots)
