-- ===== src/Persist/Failure.antt =====
-- Errors of `mqtt3_db_backup` of src/persist.c of mosquitto-1.4.2.
use wirenboard.Common.{ℕ, suc, ◌≡◌, arith, Bool, some}
use wirenboard.Persist.Format.{Database}
use wirenboard.Persist.Backup.{Files, Surroundings, backup}

-- A backup that returns another code than 0 leaves the database file as it was.
pub backup-untouched :
    (e : Surroundings) (w : Database) (shutdown : Bool) (files : Files) (code : ℕ) (out : Files)
    → backup e w shutdown files ≡ some (suc code, out)
    → out.database ≡ files.database
unfolding backup
backup-untouched e w shutdown files code out h = ground arith
