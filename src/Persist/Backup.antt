-- ===== src/Persist/Backup.antt =====
-- `mqtt3_db_backup` of src/persist.c of mosquitto-1.4.2: the database goes to a new file, which
-- then takes the place of the old one.
use wirenboard.Common.{ℕ, ◌+◌, Bool, if◌then◌else◌, not, Option, none, some, List, [], ◌∷◌, Bytes}
use wirenboard.Persist.Format.{magic, mosq_db_version, be16, be32, le, byte, flag, Database}
use wirenboard.Persist.Output.{Out, Wrote, done, failed, broken, write_all, then_write}
use wirenboard.Persist.Write.{message_store_write, client_write, subs_retain_write}

-- The file at `persistence_filepath` and the one beside it, `.new`.
pub record Files : Type 0 where
  pub database : Option Bytes
  pub fresh : Option Bytes

-- What the call gets from outside: whether a path is configured and its copy is allocated, whether
-- the file opens and takes the place of the other, what `fwrite` does, and the clock.
pub record Surroundings : Type 0 where
  pub has_path : Bool
  pub has_memory : Bool
  pub opens : Bool
  pub renames : Bool
  pub results : List ℕ
  pub memory : ℕ → Bool
  pub now : ℕ

-- `none` is a pointer to nothing that is followed, else the return code with the files.
abbrev pub Backup : Type 0
Backup = Option (ℕ × Files)

abbrev pub header_fields : List Bytes
header_fields = magic ∷ be32 0 ∷ be32 mosq_db_version ∷ []

abbrev pub config_fields : (shutdown : Bool) → (last_db_id : ℕ) → List Bytes
config_fields shutdown last =
    be16 1 ∷ be32 (8 + 1 + 1) ∷ byte (flag shutdown) ∷ byte 8 ∷ le 8 last ∷ []

-- Up to the stored messages the return codes count.
unfoldable pub stored_part : Database → (shutdown : Bool) → Out → Wrote
stored_part w shutdown o = then_write (write_all header_fields o) λ o1.
    then_write (write_all (config_fields shutdown w.db.last_db_id) o1)
      (message_store_write w.db.msg_store)

-- The clients and the subscriptions, whose return codes are not looked at.
unfoldable pub session_part : Surroundings → Database → Out → Option Out
session_part e w o =
    let c = client_write e.now w.db.msg_store w.sessions o in
    let subs = subs_retain_write e.memory w.db.msg_store w.sessions [] w.roots c.out in
    elim c.status [ broken ↦ none | failed ↦ subs | done ↦ subs ]

-- `mqtt3_db_backup`
unfoldable pub backup : Surroundings → Database → (shutdown : Bool) → Files → Backup
backup e w shutdown files =
    if not e.has_path
    then some (3, files)
    else if not e.has_memory
    then some (1, files)
    else if not e.opens
    then some (1, files)
    else (let s = stored_part w shutdown (record { file = []; results = e.results }) in
        elim s.status [
          | broken ↦ none
          | failed ↦ some (1, record files { fresh = some s.out.file })
          | done ↦ (elim (session_part e w s.out) [
            | none ↦ none
            | some o ↦
                if e.renames
                then some (0, record { database = some o.file; fresh = none })
                else some (1, record files { fresh = some o.file })
          ])
        ])
