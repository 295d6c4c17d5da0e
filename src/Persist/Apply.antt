-- ===== src/Persist/Apply.antt =====
-- What a chunk that was read changes: `_db_client_msg_restore`,
-- `_db_restore_sub` and the ends of the functions `_db_..._chunk_restore` of src/persist.c of
-- mosquitto-1.4.2.
use wirenboard.Common.{ℕ, true, false, not, ◌==◌, Option, none, some, List, [], ◌∷◌, map, get_elem?}
use wirenboard.Broker.State.{
  MsgState, invalid, publish_qos0, publish_qos1, wait_for_puback, publish_qos2, wait_for_pubrec,
  resend_pubrel, wait_for_pubrel, resend_pubcomp, wait_for_pubcomp, send_pubrec, queued, Direction,
  md_in, md_out, ClientMsg, Context,
}
use wirenboard.Broker.Insert.{find_store, link}
use wirenboard.Broker.Store.{message_store}
use wirenboard.Subs.Tree.{Subscriber, success, already, no_memory, overrun}
use wirenboard.Subs.Process.{Publication, refer}
use wirenboard.Subs.Calls.{add_subscription, messages_queue}
use wirenboard.Persist.Format.{ClientState, id_at}
use wirenboard.Persist.Input.{Result, ok, error, fault, bind}
use wirenboard.Persist.Read.{ChunkMemory, ClientChunk, MsgChunk, StoreChunk, SubChunk}
use wirenboard.Persist.Contexts.{Loading, find_load, set_session, find_or_add, with_sessions}

-- `_db_client_chunk_restore`
unfoldable pub client_restore : ChunkMemory → ClientChunk → Loading → Result Loading
client_restore mem c l = elim (find_or_add mem c.id c.last_mid l.world.sessions) [
  | none ↦ error
  | some f ↦ ok (
      with_sessions (set_session (record f.session { disconnect_t = c.disconnect_t }) f.sessions) l)
]

-- The enumerations of a byte; no constant has another number.
abbrev pub byte_state : ℕ → Option MsgState
byte_state n =
    get_elem?
      (invalid ∷ publish_qos0 ∷ publish_qos1 ∷ wait_for_puback ∷ publish_qos2 ∷ wait_for_pubrec
        ∷ resend_pubrel ∷ wait_for_pubrel ∷ resend_pubcomp ∷ wait_for_pubcomp ∷ send_pubrec ∷ queued
        ∷ [])
      n

abbrev pub byte_direction : ℕ → Option Direction
byte_direction n = get_elem? (md_in ∷ md_out ∷ []) n

-- The message of the chunk, at its address; `fault` where a number is not one of its enumeration.
unfoldable pub restored_msg : (address : ℕ) → (store : ℕ) → MsgChunk → Result ClientMsg
restored_msg a store m = elim (byte_direction m.direction) [
  | none ↦ fault
  | some dir ↦ (elim (byte_state m.state) [
    | none ↦ fault
    | some state ↦ ok (record {
      address = a;
      store = some store;
      mid = m.mid;
      qos = m.qos;
      retain = not (m.retain == 0);
      timestamp = 0;
      direction = dir;
      state = state;
      dup = not (m.dup == 0);
    })
  ])
]

-- `context->last_msg->next = cmsg` where the client has messages.
unfoldable pub add_msg : ClientMsg → Context → Result Context
add_msg m c =
    let at_end : List ClientMsg → Result Context =
      λ ms. ok (record c { msgs = ms; last_msg = some m.address }) in
    elim c.msgs [
      | [] ↦ at_end (m ∷ [])
      | x ∷ xs ↦ (elim c.last_msg [
        | none ↦ fault
        | some a ↦ (elim (link a m (x ∷ xs)) [ none ↦ fault | some ms ↦ at_end ms ])
      ])
    ]

-- `_db_client_msg_restore`
unfoldable pub client_msg_restore : ChunkMemory → MsgChunk → Loading → Result Loading
client_msg_restore mem m l = elim mem.message [
  | none ↦ error
  | some a ↦ (elim (find_load m.store_id l.loads) [
    | none ↦ error
    | some store ↦ (elim (find_or_add mem m.id 0 l.world.sessions) [
      | none ↦ error
      | some f ↦ bind (restored_msg a store m) λ cmsg.
          bind (add_msg cmsg f.session.client.context) λ context.
            (let s = record f.session { client = record f.session.client { context = context } } in
              let db = l.world.db in
              ok (record l {
                world = record l.world {
                  db = record db { msg_store = refer store db.msg_store };
                  sessions = set_session s f.sessions;
                };
              }))
    ])
  ])
]

-- `_db_msg_store_chunk_restore`. Where the message is not stored, `stored` is NULL.
unfoldable pub store_restore : ChunkMemory → StoreChunk → Loading → Result Loading
store_restore mem c l =
    let (db, _, stored) =
      message_store mem.stored l.world.db c.source_id c.source_mid (some c.topic) c.qos c.payload
        (not (c.retain == 0)) c.store_id in
    elim stored [
      | none ↦ fault
      | some a ↦ (elim (find_store a db.msg_store) [
        | none ↦ fault
        | some s ↦
            ok (record { world = record l.world { db = db }; loads = (s.db_id, a) ∷ l.loads })
      ])
    ]

-- `_db_retain_chunk_restore`. Without a source nobody gets the message, so that the clients stay;
-- `m` gives the parts of a publication that only a delivery to a client looks at.
unfoldable pub retain_restore :
    Publication → ChunkMemory → (store_id : ℕ) → Loading → Result Loading
retain_restore m mem store_id l = elim (find_load store_id l.loads) [
  | none ↦ error
  | some a ↦ (elim (find_store a l.world.db.msg_store) [
    | none ↦ fault
    | some s ↦ (elim s.topic [
      | none ↦ fault
      | some topic ↦
          (let m' : Publication = record m {
            source_id = none;
            topic = topic;
            qos = s.qos;
            retain = s.retain;
            stored = a;
            has_payload = (elim s.payload [ [] ↦ false | b ∷ bs ↦ true ]);
          } in
            let w = l.world in
            let (q, _) =
              messages_queue m' mem.tokens
                (record {
                  heap = mem.nodes;
                  client = none;
                  subscription_count = w.subscription_count;
                })
                w.roots
                (record {
                  db = w.db;
                  clients = map (λ (x : ClientState). x.client) w.sessions;
                  retained_count = w.retained_count;
                }) in
            elim q.delivery [
              | none ↦ fault
              | some d ↦ ok (record l {
                world = record w { db = d.db; roots = q.hier; retained_count = d.retained_count };
              })
            ])
    ])
  ])
]

abbrev subscriber_of : ClientState → Subscriber
subscriber_of s = record {
  address = s.client.address;
  id = s.client.context.id;
  is_mqtt31 = s.is_mqtt31;
  subs = s.subs;
  sub_count = s.sub_count;
}

abbrev kept_by : ClientState → Option Subscriber → ClientState
kept_by s none = s
kept_by s (some c) = record s { subs = c.subs; sub_count = c.sub_count }

-- The end of `_db_sub_chunk_restore`, `_db_restore_sub`
unfoldable pub sub_restore : ChunkMemory → SubChunk → Loading → Result Loading
sub_restore mem c l = elim (find_or_add mem c.id 0 l.world.sessions) [
  | none ↦ error
  | some f ↦
      (let w = l.world in
        let r = add_subscription (id_at f.sessions) c.topic c.qos mem.tokens w.roots (record {
          heap = mem.nodes;
          client = some (subscriber_of f.session);
          subscription_count = w.subscription_count;
        }) in
        let w' = record w {
          sessions = set_session (kept_by f.session r.state.client) f.sessions;
          roots = r.hier;
          subscription_count = r.state.subscription_count;
        } in
        elim r.code [
          | overrun ↦ fault
          | no_memory ↦ error
          | success ↦ ok (record l { world = w' })
          | already ↦ ok (record l { world = w' })
        ])
]
