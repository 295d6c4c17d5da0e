-- ===== src/Subs/Close.antt =====
-- The end of the broker's database: `subhier_clean` and `mqtt3_db_close` of src/database.c of
-- mosquitto-1.4.2.
use wirenboard.Common.{◌≡◌, [], pos}
use wirenboard.Broker.State.{Db}
use wirenboard.Broker.Queue.{deref}
use wirenboard.Broker.Tally.{IsTallied, deref-IsTallied, msg_store_clean, msg_store_clean_lem}
use wirenboard.Subs.Tree.{Hier, end, node}

-- The nodes go, and with them their references to retained messages.
unfoldable pub subhier_clean : Hier → Db → Db
subhier_clean end db = db
subhier_clean (node n ch next) db = subhier_clean next (subhier_clean ch (deref n.retained db))

unfoldable pub db_close : Hier → Db → Db
db_close roots db = msg_store_clean (subhier_clean roots db)

subhier_clean-IsTallied : (h : Hier) (db : Db) → IsTallied db → IsTallied (subhier_clean h db)
unfolding subhier_clean
subhier_clean-IsTallied end db t = t
subhier_clean-IsTallied (node n ch next) db t =
    subhier_clean-IsTallied next (subhier_clean ch (deref n.retained db))
      (subhier_clean-IsTallied ch (deref n.retained db) (deref-IsTallied n.retained db t))

-- A database whose number of stored messages is right has none behind `mqtt3_db_close`, whatever
-- the tree retains, and the number is 0.
pub db_close_empty :
    (roots : Hier) (db : Db)
    → IsTallied db
    → ((db_close roots db).msg_store ≡ []) × ((db_close roots db).msg_store_count ≡ pos 0)
unfolding db_close
db_close_empty roots db t =
    msg_store_clean_lem (subhier_clean roots db) (subhier_clean-IsTallied roots db t)
