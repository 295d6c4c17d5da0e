-- ===== src/Subs/Process.antt =====
-- `_subs_process` of src/subs.c: a message comes to a node of the tree. Access control,
-- `mosquitto_acl_check`, is an argument, and so is the memory that `mqtt3_db_message_insert` gets.
use mathlib.Core.Option
use wirenboard.Common.{
  ℕ, Bool, true, false, ◌&&◌, if◌then◌else◌, ltb, ◌==◌, Option, none, some, List, [], ◌∷◌, Bytes,
  str_eq, take, ℤ, inc, dec,
}
use wirenboard.Packet.Outgoing.{mid_generate}
use wirenboard.Broker.State.{md_out, MsgStore, Context, Db, Setting}
use wirenboard.Broker.Queue.{deref}
use wirenboard.Broker.Insert.{Allocation, returned, broken, message_insert}
use wirenboard.Subs.Tree.{Leaf, Node}

-- The fields of `struct mosquitto` that a delivery looks at, at its address.
pub record Client : Type 0 where
  pub address : ℕ
  pub is_bridge : Bool
  pub last_mid : ℕ
  pub context : Context

-- The broker besides its tree.
pub record Delivery : Type 0 where
  pub db : Db
  pub clients : List Client
  pub retained_count : ℤ

-- What `mosquitto_acl_check` answers: MOSQ_ERR_SUCCESS, MOSQ_ERR_ACL_DENIED or another code.
pub data Access : Type 0 where
  granted denied failed : Access

-- The message that is published, and what its delivery is given.
pub record Publication : Type 0 where
  pub source_id : Option Bytes
  pub topic : Bytes
  pub qos : ℕ
  pub retain : Bool
  pub stored : ℕ
  pub has_payload : Bool
  pub upgrade_outgoing_qos : Bool
  pub access : Client → Bytes → Access
  pub memory : Client → Allocation
  pub setting : Setting

unfoldable pub find_client : ℕ → List Client → Option Client
find_client a [] = none
find_client a (c ∷ cs) = if c.address == a then some c else find_client a cs

unfoldable pub set_client : Client → List Client → List Client
set_client c [] = []
set_client c (x ∷ cs) = if x.address == c.address then c ∷ cs else x ∷ set_client c cs

-- `stored->ref_count++`
unfoldable pub refer : ℕ → List MsgStore → List MsgStore
refer a [] = []
refer a (s ∷ ss) =
    if s.address == a then record s { ref_count = inc s.ref_count } ∷ ss else s ∷ refer a ss

abbrev pub sys : Bytes
sys = b'$' ∷ b'S' ∷ b'Y' ∷ b'S' ∷ []

pub is_some : Option ℕ → Bool
is_some none = false
is_some (some a) = true

-- The message becomes the retained one of the node, or an empty one takes it away.
unfoldable pub set_retained : Publication → Node → Delivery → Node × Delivery
unfolding refer is_some
set_retained m n d =
    let db = d.db in
    let db1 =
      if str_eq (take 4 m.topic) sys
      then db
      else record db { persistence_changes = inc db.persistence_changes } in
    let old = is_some n.retained in
    let db2 = deref n.retained db1 in
    let count = if old then dec d.retained_count else d.retained_count in
    if m.has_payload
    then (
      record n { retained = some m.stored },
      record d {
        db = record db2 { msg_store = refer m.stored db2.msg_store };
        retained_count = inc count;
      },
    )
    else (record n { retained = none }, record d { db = db2; retained_count = count })

-- Whether the loop passes over a client: one without an id, or the bridge that the message is from.
unfoldable pub is_skipped : Bytes → Client → Bool
is_skipped source c = elim c.context.id [ none ↦ true | some id ↦ c.is_bridge && str_eq id source ]

unfoldable pub message_qos : Publication → Leaf → ℕ
message_qos m l = if m.upgrade_outgoing_qos then l.qos else if ltb l.qos m.qos then l.qos else m.qos

-- One client gets the message; `none` is a call that is broken.
unfoldable pub insert_for : Publication → Leaf → Client → Delivery → Option (Delivery × ℕ)
unfolding message_qos set_client
insert_for m l c d =
    let qos = message_qos m l in
    let mid = if ltb 0 qos then mid_generate c.last_mid else 0 in
    let last = if ltb 0 qos then mid_generate c.last_mid else c.last_mid in
    elim (message_insert m.setting (m.memory c) d.db c.context mid md_out qos
      (if c.is_bridge then m.retain else false) m.stored) [
        | broken ↦ none
        | returned db context rc ↦ some (
          record d {
            db = db;
            clients = set_client (record c { last_mid = last; context = context }) d.clients;
          },
          rc,
        )
      ]

-- The loop over the leaves, with the return code so far. A client that is not there is a pointer to
-- nothing.
unfoldable pub leaf_loop : Publication → Bytes → List Leaf → Delivery → ℕ → Option (Delivery × ℕ)
unfolding find_client is_skipped
leaf_loop m source [] d rc = some (d, rc)
leaf_loop m source (l ∷ ls) d rc = elim (find_client l.context d.clients) [
  | none ↦ none
  | some c ↦ (elim (is_skipped source c) [
    | true ↦ leaf_loop m source ls d rc
    | false ↦ (elim (m.access c m.topic) [
      | denied ↦ leaf_loop m source ls d rc
      | failed ↦ some (d, 1)
      | granted ↦ (elim (insert_for m l c d) [
        | none ↦ none
        | some (d', rc') ↦ leaf_loop m source ls d' (if rc' == 1 then 1 else rc)
      ])
    ])
  ])
]

-- `_subs_process`, as `_sub_search` uses it, which does not look at the return code.
unfoldable pub subs_process : Publication → Bool → Node → Option Delivery → Node × Option Delivery
unfolding set_retained leaf_loop insert_for
subs_process m set_retain n none = (n, none)
subs_process m set_retain n (some d) =
    let (n', d') = if m.retain && set_retain then set_retained m n d else (n, d) in
    elim m.source_id [
      | none ↦ (n', some d')
      | some source ↦ (n', Option.map (λ r. r.0) (leaf_loop m source n'.subs d' 0))
    ]
