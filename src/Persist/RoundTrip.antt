-- ===== src/Persist/RoundTrip.antt =====
-- `mqtt3_db_backup` and `mqtt3_db_restore` of src/persist.c of mosquitto-1.4.2, one behind the
-- other: what is restored is what was saved.
use wirenboard.Common.{
  ℕ, ◌≡◌, refl, ap, subst, Bool, true, none, some, List, [], ◌∷◌, ◌++◌, Bytes, All,
}
use wirenboard.Persist.Format.{Database}
use wirenboard.Persist.Output.{write_all, joined}
use wirenboard.Persist.Write.{message_store_write}
use wirenboard.Persist.Backup.{
  Files, Surroundings, header_fields, config_fields, stored_part, session_part, backup,
}
use wirenboard.Persist.Input.{ok, bind}
use wirenboard.Persist.Restore.{Start, restore}
use wirenboard.Persist.Items.{Item, config, encode, Fits, replay}
use wirenboard.Persist.Contents.{both, store_items, session_items, tree_items, items}
use wirenboard.Persist.Reading.{HasTexts}
use wirenboard.Persist.Replay.{database_file, restore-database_file}
use wirenboard.Persist.Emits.{
  complete, wrote, Implements-both, Implements-write_all, both_cases, All-both, write_all-complete,
}
use wirenboard.Persist.Writing.{
  encode_parts, message_store_write-store_items, client_write-session_items,
  subs_retain_write-tree_items,
}

-- A path is configured, the allocations and the opening and renaming of the file succeed, and every
-- `fwrite` writes all that it is given.
abbrev pub IsReady : Surroundings → Type 0
IsReady e =
    (e.has_path ≡ true)
    × (e.has_memory ≡ true)
    × (e.opens ≡ true)
    × (e.renames ≡ true)
    × (e.results ≡ [])
    × ((a : ℕ) → e.memory a ≡ true)

-- The stored messages behind the configuration and the header
stored_part-complete :
    (w : Database) (shutdown : Bool) (xs : List Item)
    → both (some (config shutdown w.db.last_db_id ∷ [])) (store_items w.db.msg_store) ≡ some xs
    → All Fits xs
    → stored_part w shutdown (complete []) ≡ wrote (database_file xs)
unfolding stored_part
stored_part-complete w shutdown xs e fits =
    let c = config shutdown w.db.last_db_id in
    let head = joined header_fields [] in
    let body =
      Implements-both (write_all (config_fields shutdown w.db.last_db_id))
        (message_store_write w.db.msg_store) (some (c ∷ [])) (store_items w.db.msg_store)
        (Implements-write_all (config_fields shutdown w.db.last_db_id) c (λ h. refl))
        (message_store_write-store_items w.db.msg_store) xs e fits head in
    rw (stored_part, write_all-complete header_fields [], body) refl

session_part-complete :
    (e : Surroundings) (w : Database) (xs ys : List Item) (file : Bytes)
    → ((a : ℕ) → e.memory a ≡ true)
    → session_items e.now w.db.msg_store w.sessions ≡ some xs
    → tree_items w.db.msg_store w.sessions [] w.roots ≡ some ys
    → All Fits xs
    → All Fits ys
    → session_part e w (complete file) ≡ some (complete ((file ++ encode xs) ++ encode ys))
unfolding session_part
session_part-complete e w xs ys file mem hx hy fx fy =
    let c = client_write-session_items e.now w.db.msg_store w.sessions xs hx fx file in
    let t =
      subs_retain_write-tree_items e.memory w.db.msg_store w.sessions [] w.roots ys mem hy fy
        (file ++ encode xs) in
    rw (session_part, c, c, t) refl

-- `mqtt3_db_backup` writes the items of the database.
backup-items :
    (e : Surroundings) (w : Database) (shutdown : Bool) (files : Files) (xs : List Item)
    → IsReady e
    → items e.now w shutdown ≡ some xs
    → All Fits xs
    → backup e w shutdown files
      ≡ some (0, record { database = some (database_file xs); fresh = none })
unfolding backup items
backup-items e w shutdown files xs ready h fits =
    let c = config shutdown w.db.last_db_id ∷ [] in
    let stores = store_items w.db.msg_store in
    let sessions = session_items e.now w.db.msg_store w.sessions in
    let tree = tree_items w.db.msg_store w.sessions [] w.roots in
    let r = both_cases (both (both (some c) stores) sessions) tree xs h in
    let q = both_cases (both (some c) stores) sessions r.0 r.2 in
    let f = All-both r.0 r.1 (subst (All Fits) r.4 fits) in
    let g = All-both q.0 q.1 (subst (All Fits) q.4 f.0) in
    let file = database_file q.0 in
    let s : stored_part w shutdown (record { file = []; results = e.results }) ≡ wrote file =
      rw ready.4 (stored_part-complete w shutdown q.0 q.2 g.0) in
    let p = session_part-complete e w q.1 r.1 file ready.5 q.3 r.3 g.1 f.1 in
    rw (backup, ready.0, ready.1, ready.2, s, s, p, ready.3)
      (ap (λ f. some (0, record { database = some f; fresh = none }))
        (encode_parts (joined header_fields []) xs r.0 q.0 q.1 r.1 r.4 q.4))

-- A database whose pointers are good and whose numbers and texts fit their fields is saved by
-- `mqtt3_db_backup` with the return code 0, where the file is opened, written and renamed without an
-- error and the memory is there. `mqtt3_db_restore` of the file, with memory for its texts, does to
-- any database what the items of the saved one do, in their order: the configuration, the stored
-- messages, the sessions with their queues, and the subscriptions and retained messages.
pub restore-backup :
    (e : Surroundings) (w : Database) (shutdown : Bool) (files : Files) (xs : List Item)
    (st : Start) (w' : Database)
    → IsReady e
    → items e.now w shutdown ≡ some xs
    → All Fits xs
    → ((j : ℕ) → HasTexts (st.memory j))
    → (out : Files) × (backup e w shutdown files ≡ some (0, out))
      × (restore st out.database w'
          ≡ bind (replay st 0 xs (record { world = w'; loads = [] })) (λ l. ok l.world))
restore-backup e w shutdown files xs st w' ready h fits t = (
  record { database = some (database_file xs); fresh = none },
  backup-items e w shutdown files xs ready h fits,
  restore-database_file st xs w' t fits,
)
