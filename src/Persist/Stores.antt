-- ===== src/Persist/Stores.antt =====
-- The stored messages behind a restart: what src/persist.c of mosquitto-1.4.2 makes of them.
use wirenboard.Common.{
  ℕ, suc, ◌≡◌, ◌≢◌, refl, ap, ◌∙◌, arith, true, false, not, if◌then◌else◌, ◌==◌, Option, none, some,
  List, [], ◌∷◌, map, Bytes, pos, inc, All, Option-cases, Bool-cases, inl, inr,
}
use wirenboard.Broker.State.{MsgStore, Db}
use wirenboard.Broker.Insert.{find_store}
use wirenboard.Broker.Store.{message_store, source_or_empty, is_empty_payload}
use wirenboard.Persist.Format.{is_sys}
use wirenboard.Persist.Input.{ok}
use wirenboard.Persist.Read.{ChunkMemory, StoreChunk}
use wirenboard.Persist.Contexts.{Loading}
use wirenboard.Persist.Apply.{store_restore}
use wirenboard.Persist.Restore.{Start}
use wirenboard.Persist.Items.{Item, stored, source_of, item_restore, replay}
use wirenboard.Persist.Contents.{both, store_chunk, store_items}

-- There is memory for a stored message, at an address.
abbrev pub HasStore : ChunkMemory → Type 0
HasStore m =
    (a : ℕ) × (m.stored.store ≡ some a)
    × (m.stored.source_id ≡ true)
    × (m.stored.topic ≡ true)
    × (m.stored.payload ≡ true)

-- What a restart keeps of a stored message: all but its address, its references and the clients
-- that it was sent to. A message of the broker's own topics is not retained.
abbrev pub kept_of : MsgStore → MsgStore
kept_of s = record s {
  address = 0;
  ref_count = pos 0;
  dest_ids = [];
  retain = elim s.topic [ none ↦ s.retain | some t ↦ if is_sys t then false else s.retain ];
}

abbrev pub onto : List MsgStore → List MsgStore → List MsgStore
onto [] ys = ys
onto (x ∷ xs) ys = onto xs (x ∷ ys)

-- The message of a chunk, at an address
abbrev made : ℕ → StoreChunk → MsgStore
made a c = record {
  address = a;
  db_id = c.store_id;
  ref_count = pos 0;
  source_id = source_or_empty c.source_id;
  source_mid = c.source_mid;
  topic = some c.topic;
  payload = c.payload;
  qos = c.qos;
  retain = not (c.retain == 0);
  dest_ids = [];
}

abbrev with_made : MsgStore → Db → Db
with_made s db = record db {
  msg_store = s ∷ db.msg_store;
  msg_store_count = inc db.msg_store_count;
}

message_store-made :
    (mem : ChunkMemory) (c : StoreChunk) (db : Db) (a : ℕ)
    → mem.stored.store ≡ some a
    → mem.stored.source_id ≡ true
    → mem.stored.topic ≡ true
    → mem.stored.payload ≡ true
    → (c.store_id == 0) ≡ false
    → message_store mem.stored db c.source_id c.source_mid
        (some c.topic)
        c.qos
        c.payload
        (not (c.retain == 0))
        c.store_id
      ≡ (with_made (made a c) db, 0, some a)
unfolding message_store
message_store-made mem c db a e1 e2 e3 e4 e5 = elim (Bool-cases (is_empty_payload c.payload)) [
  | inl e ↦ rw (message_store, e1, e2, e3, e4, e5, e) refl
  | inr e ↦ rw (message_store, e1, e2, e3, e4, e5, e) refl
]

found_first : (s : MsgStore) (ss : List MsgStore) → find_store s.address (s ∷ ss) ≡ some s
unfolding find_store
found_first s ss = let same : (s.address == s.address) ≡ true = ground arith in rw same refl

abbrev loading_made : ℕ → StoreChunk → Loading → Loading
loading_made a c l = record {
  world = record l.world { db = with_made (made a c) l.world.db };
  loads = (c.store_id, a) ∷ l.loads;
}

store_restore_lem :
    (mem : ChunkMemory) (c : StoreChunk) (l : Loading) (m : HasStore mem)
    → c.store_id ≢ 0
    → store_restore mem c l ≡ ok (loading_made m.0 c l)
unfolding store_restore
store_restore_lem mem c l m h =
    let nonzero : (c.store_id == 0) ≡ false = ground (arith, h) in
    let e = message_store-made mem c l.world.db m.0 m.1 m.2 m.3 m.4 nonzero in
    rw (store_restore, e, e, found_first (made m.0 c) l.world.db.msg_store, e) refl

source_or_empty-source_of : (s : Bytes) → source_or_empty (source_of s) ≡ s
unfolding source_or_empty
source_or_empty-source_of [] = refl
source_or_empty-source_of (c ∷ s) = refl

-- A restored message is what the restart keeps of the saved one.
kept_of-made :
    (a : ℕ) (s : MsgStore) (t : Bytes)
    → s.topic ≡ some t
    → kept_of (made a (store_chunk s t)) ≡ kept_of s
kept_of-made a s t e = elim (Bool-cases (is_sys t)) [
  | inl sys ↦ rw (e, sys, source_or_empty-source_of s.source_id) refl
  | inr other ↦ (elim (Bool-cases s.retain) [
    | inl r ↦ rw (e, other, r, source_or_empty-source_of s.source_id) refl
    | inr r ↦ rw (e, other, r, source_or_empty-source_of s.source_id) refl
  ])
]

both_stored :
    (c : StoreChunk) (o : Option (List Item)) (xs : List Item)
    → both (some (stored c ∷ [])) o ≡ some xs
    → (ys : List Item) × (o ≡ some ys) × (xs ≡ stored c ∷ ys)
both_stored c none xs h = cc
both_stored c (some ys) xs h = (ys, refl, cc)

-- The items of stored messages bring back all of them, in the opposite order and before those that
-- are there, each with its id, source, topic, contents, quality of service and flag, except that a
-- message of the broker's own topics is not retained.
pub replay-store_items :
    (st : Start) (i : ℕ) (ss : List MsgStore) (xs : List Item) (l : Loading)
    → ((j : ℕ) → HasStore (st.memory j))
    → All (λ s. s.db_id ≢ 0) ss
    → store_items ss ≡ some xs
    → (l' : Loading) × (replay st i xs l ≡ ok l')
      × (map kept_of l'.world.db.msg_store
          ≡ onto (map kept_of ss) (map kept_of l.world.db.msg_store))
unfolding store_items replay item_restore
replay-store_items st i [] [] l m ids e = (l, refl, refl)
replay-store_items st i [] (x ∷ xs) l m ids e = cc
replay-store_items st i (s ∷ ss) xs l m ids e = elim (Option-cases s.topic) [
  | inl no_topic ↦ absurd (impossible (rw (store_items, no_topic) at e))
  | inr (t, topic) ↦
      (let c = store_chunk s t in
        let (ys, rest, first) = both_stored c (store_items ss) xs (rw (store_items, topic) at e) in
        let l1 = loading_made (m i).0 c l in
        let (l', done, same) = replay-store_items st (suc i) ss ys l1 m ids.1 rest in
        (
          l',
          rw (first, replay, item_restore, store_restore_lem (st.memory i) c l (m i) ids.0, done)
              refl,
          same
              ∙ ap (λ (x : MsgStore). onto (map kept_of ss) (x ∷ map kept_of l.world.db.msg_store))
                  (kept_of-made (m i).0 s t topic),
        ))
]
  where
    impossible : {ys : List Item} → none ≡ some ys → ⊥
    impossible h = cc
