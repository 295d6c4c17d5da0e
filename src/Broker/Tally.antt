-- ===== src/Broker/Tally.antt =====
-- The number of stored messages, and `mosquitto__db_msg_store_clean` of src/database.c of
-- mosquitto-1.4.2.
use wirenboard.Common.{
  ℕ, suc, ◌+◌, ◌≡◌, refl, ap, ◌∙◌, arith, Bool, ◌==◌, Option, none, some, List, [], ◌∷◌, Bytes,
  length, pos, ℤ, inc, dec, Bool-cases, Option-cases, inl, inr,
}
use wirenboard.Broker.State.{MsgStore, Db}
use wirenboard.Broker.Queue.{is_zero, store_deref, deref}
use wirenboard.Broker.Store.{StoreMemory, message_store}

-- `db->msg_store_count` is the number of stored messages.
abbrev pub IsTallied : Db → Type 0
IsTallied db = db.msg_store_count ≡ pos (length db.msg_store)

-- With `k` messages before those of the list
store_deref-length :
    (a : ℕ) (ss : List MsgStore) (n : ℤ) (k : ℕ)
    → n ≡ pos (length ss + k)
    → (store_deref a ss n).number ≡ pos (length (store_deref a ss n).list + k)
unfolding store_deref
store_deref-length a [] n k h = h
store_deref-length a (s ∷ ss) n k h = elim (Bool-cases (s.address == a)) [
  | inl here ↦ (elim (Bool-cases (is_zero (dec s.ref_count))) [
    | inl last ↦
        (let e : suc (length ss) + k ≡ suc (length ss + k) = omega arith in
          rw (here, last) (ap dec (h ∙ ap pos e)))
    | inr more ↦ rw (here, more) h
  ])
  | inr other ↦
      rw other (store_deref-length a ss n (suc k) (h ∙ ap pos (omega arith)) ∙ ap pos (omega arith))
]

pub deref-IsTallied : (o : Option ℕ) (db : Db) → IsTallied db → IsTallied (deref o db)
unfolding deref
deref-IsTallied none db h = h
deref-IsTallied (some a) db h =
    store_deref-length a db.msg_store db.msg_store_count 0 (h ∙ ap pos (omega arith))
    ∙ ap pos (omega arith)

-- The loop of `mosquitto__db_msg_store_clean`, with `mosquitto__db_msg_store_remove` of the first.
unfoldable pub clean_stores : List MsgStore → Db → Db
clean_stores [] db = record db { msg_store = [] }
clean_stores (s ∷ ss) db =
    clean_stores ss (record db { msg_store = ss; msg_store_count = dec db.msg_store_count })

unfoldable pub msg_store_clean : Db → Db
msg_store_clean db = clean_stores db.msg_store db

clean_stores_lem :
    (ss : List MsgStore) (db : Db)
    → db.msg_store_count ≡ pos (length ss)
    → ((clean_stores ss db).msg_store ≡ []) × ((clean_stores ss db).msg_store_count ≡ pos 0)
unfolding clean_stores
clean_stores_lem [] db h = (refl, h)
clean_stores_lem (s ∷ ss) db h =
    clean_stores_lem ss (record db { msg_store = ss; msg_store_count = dec db.msg_store_count })
      (ap dec h)

pub msg_store_clean_lem :
    (db : Db)
    → IsTallied db
    → ((msg_store_clean db).msg_store ≡ []) × ((msg_store_clean db).msg_store_count ≡ pos 0)
unfolding msg_store_clean
msg_store_clean_lem db h = clean_stores_lem db.msg_store db h

-- A new stored message is counted, and where the allocations fail nothing changes.
pub message_store-IsTallied :
    (mem : StoreMemory) (db : Db) (source : Option Bytes) (mid : ℕ) (topic : Option Bytes) (qos : ℕ)
    (payload : Bytes) (retain : Bool) (store_id : ℕ)
    → IsTallied db
    → IsTallied (message_store mem db source mid topic qos payload retain store_id).0
unfolding message_store
message_store-IsTallied mem db source mid topic qos payload retain store_id h =
    let add : inc db.msg_store_count ≡ pos (suc (length db.msg_store)) = ap inc h in
    ground (arith, add, Option-cases mem.store)
