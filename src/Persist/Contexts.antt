-- ===== src/Persist/Contexts.antt =====
-- `_db_find_or_add_context` of src/persist.c of mosquitto-1.4.2, and the state of a restore.
use wirenboard.Common.{
  ℕ, Bool, false, if◌then◌else◌, not, ◌==◌, Option, none, some, List, [], ◌∷◌, ◌++◌, Bytes, str_eq,
  pos,
}
use wirenboard.Persist.Format.{ClientState, Database}
use wirenboard.Persist.Read.{ChunkMemory}

-- The database, and `db->msg_store_load`: the address of the stored message for an id of the file.
pub record Loading : Type 0 where
  pub world : Database
  pub loads : List (ℕ × ℕ)

-- `HASH_FIND` in `db->msg_store_load`
unfoldable pub find_load : ℕ → List (ℕ × ℕ) → Option ℕ
find_load i [] = none
find_load i ((j, a) ∷ ls) = if j == i then some a else find_load i ls

unfoldable pub has_id : Bytes → Option Bytes → Bool
has_id id none = false
has_id id (some i) = str_eq i id

-- `HASH_FIND` in `db->contexts_by_id`
unfoldable pub find_session : Bytes → List ClientState → Option ClientState
find_session id [] = none
find_session id (s ∷ ss) = if has_id id s.client.context.id then some s else find_session id ss

unfoldable pub set_session : ClientState → List ClientState → List ClientState
set_session s [] = []
set_session s (x ∷ ss) =
    if x.client.address == s.client.address then s ∷ ss else x ∷ set_session s ss

-- `mqtt3_context_init` without a socket, with the id and `clean_session` of the caller.
abbrev pub new_session : (address : ℕ) → (id : Bytes) → ClientState
new_session a id = record {
  client = record {
    address = a;
    is_bridge = false;
    last_mid = 0;
    context = record {
      id = some id;
      connected = false;
      bridge = none;
      is_dropping = false;
      msgs = [];
      last_msg = none;
      msg_count = pos 0;
      msg_count12 = pos 0;
    };
  };
  clean_session = false;
  disconnect_t = 0;
  is_mqtt31 = false;
  subs = none;
  sub_count = 0;
}

abbrev pub with_last_mid : ℕ → ClientState → ClientState
with_last_mid mid s =
    if mid == 0 then s else record s { client = record s.client { last_mid = mid } }

abbrev pub Found : Type 0
Found = record { session : ClientState; sessions : List ClientState }

-- `_db_find_or_add_context`
unfoldable pub find_or_add : ChunkMemory → Bytes → (last_mid : ℕ) → List ClientState → Option Found
find_or_add mem id last_mid ss = elim (find_session id ss) [
  | some s ↦
      (let s' = with_last_mid last_mid s in
        some (record { session = s'; sessions = set_session s' ss }))
  | none ↦ (elim mem.context [
    | none ↦ none
    | some a ↦
        if not mem.context_id
        then none
        else (let s = with_last_mid last_mid (new_session a id) in
            some (record { session = s; sessions = ss ++ s ∷ [] }))
  ])
]

abbrev pub with_sessions : List ClientState → Loading → Loading
with_sessions ss l = record l { world = record l.world { sessions = ss } }
