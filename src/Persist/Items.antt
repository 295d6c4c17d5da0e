-- ===== src/Persist/Items.antt =====
-- The database file of src/persist.c of mosquitto-1.4.2 as a list of items, and the items that a
-- database consists of: what the bytes mean, without `fwrite` and `fread`.
use wirenboard.Common.{
  ℕ, suc, ◌^◌, ◌<◌, ◌≡◌, Bool, Option, none, some, List, [], ◌∷◌, ◌++◌, Bytes, length,
}
use wirenboard.Persist.Format.{be16, be32, le, byte, flag}
use wirenboard.Persist.Output.{joined}
use wirenboard.Persist.Input.{Result, ok, bind, c_string}
use wirenboard.Persist.Read.{ClientChunk, MsgChunk, StoreChunk, SubChunk}
use wirenboard.Persist.Apply.{
  client_restore, client_msg_restore, store_restore, retain_restore, sub_restore,
}
use wirenboard.Persist.Contexts.{Loading}
use wirenboard.Persist.Restore.{Start}

pub data Item : Type 0 where
  config : (shutdown : Bool) → (last_db_id : ℕ) → Item
  stored : StoreChunk → Item
  message : MsgChunk → Item
  retained : (db_id : ℕ) → Item
  subscribed : SubChunk → Item
  client : ClientChunk → Item

abbrev pub source_text : Option Bytes → Bytes
source_text none = []
source_text (some s) = s

abbrev pub source_of : Bytes → Option Bytes
source_of [] = none
source_of (c ∷ s) = some (c ∷ s)

abbrev pub kind : Item → ℕ
kind (config _ _) = 1
kind (stored _) = 2
kind (message _) = 3
kind (retained _) = 4
kind (subscribed _) = 5
kind (client _) = 6

abbrev pub fields : Item → List Bytes
fields (config shutdown last) = byte (flag shutdown) ∷ byte 8 ∷ le 8 last ∷ []
fields (stored c) =
    le 8 c.store_id
    ∷ be16 (length (source_text c.source_id))
    ∷ source_text c.source_id
    ∷ be16 c.source_mid
    ∷ be16 0
    ∷ be16 (length c.topic)
    ∷ c.topic
    ∷ byte c.qos
    ∷ byte c.retain
    ∷ be32 (length c.payload)
    ∷ c.payload
    ∷ []
fields (message m) =
    be16 (length m.id)
    ∷ m.id
    ∷ le 8 m.store_id
    ∷ be16 m.mid
    ∷ byte m.qos
    ∷ byte m.retain
    ∷ byte m.direction
    ∷ byte m.state
    ∷ byte m.dup
    ∷ []
fields (retained i) = le 8 i ∷ []
fields (subscribed c) =
    be16 (length c.id) ∷ c.id ∷ be16 (length c.topic) ∷ c.topic ∷ byte c.qos ∷ []
fields (client c) = be16 (length c.id) ∷ c.id ∷ be16 c.last_mid ∷ le 8 c.disconnect_t ∷ []

-- An item: its kind, the length of its fields, and these.
abbrev pub encode : List Item → Bytes
encode [] = []
encode (x ∷ xs) =
    let rest = encode xs in
    be16 (kind x) ++ (be32 (length (joined (fields x) [])) ++ joined (fields x) rest)

-- A text that is not empty, is shorter than 2^16 bytes and has no byte 0.
abbrev pub IsText : Bytes → Type 0
IsText s = (0 < length s) × (length s < 2 ^ 16) × (c_string s ≡ s)

-- The numbers and texts of an item fit their fields.
abbrev pub Fits : Item → Type 0
Fits (config _ last) = last < 2 ^ 64
Fits (stored c) =
    (c.store_id < 2 ^ 64)
    × (length (source_text c.source_id) < 2 ^ 16)
    × (c_string (source_text c.source_id) ≡ source_text c.source_id)
    × (c.source_mid < 2 ^ 16)
    × IsText c.topic
    × (c.qos < 2 ^ 8)
    × (c.retain < 2 ^ 8)
    × (length c.payload < 2 ^ 32)
    × (source_of (source_text c.source_id) ≡ c.source_id)
Fits (message m) =
    IsText m.id
    × (m.store_id < 2 ^ 64)
    × (m.mid < 2 ^ 16)
    × (m.qos < 2 ^ 8)
    × (m.retain < 2 ^ 8)
    × (m.direction < 2 ^ 8)
    × (m.state < 2 ^ 8)
    × (m.dup < 2 ^ 8)
Fits (retained i) = i < 2 ^ 64
Fits (subscribed c) =
    IsText c.id × (length c.topic < 2 ^ 16) × (c_string c.topic ≡ c.topic) × (c.qos < 2 ^ 8)
Fits (client c) = IsText c.id × (c.last_mid < 2 ^ 16) × (c.disconnect_t < 2 ^ 64)

-- What an item, the `i`-th of the file, does to the database.
unfoldable pub item_restore : Start → (i : ℕ) → Item → Loading → Result Loading
item_restore st i (config _ last) l =
    ok (record l { world = record l.world { db = record l.world.db { last_db_id = last } } })
item_restore st i (stored c) l = store_restore (st.memory i) c l
item_restore st i (message m) l = client_msg_restore (st.memory i) m l
item_restore st i (retained s) l = retain_restore st.publication (st.memory i) s l
item_restore st i (subscribed c) l = sub_restore (st.memory i) c l
item_restore st i (client c) l = client_restore (st.memory i) c l

-- One item behind the other.
unfoldable pub replay : Start → (i : ℕ) → List Item → Loading → Result Loading
replay st i [] l = ok l
replay st i (x ∷ xs) l = bind (item_restore st i x l) λ l'. replay st (suc i) xs l'
