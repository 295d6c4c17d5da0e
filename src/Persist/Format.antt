-- ===== src/Persist/Format.antt =====
-- The numbers and the state that src/persist.c of mosquitto-1.4.2 saves, and src/persist.h. A
-- `dbid_t` and a `time_t` have 8 bytes, which stand in the file as in memory: the lowest first.
use wirenboard.Common.{
  ℕ, zero, suc, ◌+◌, ◌*◌, ◌/◌, ◌%◌, Bool, if◌then◌else◌, ◌==◌, Option, none, some, List, [], ◌∷◌,
  Bytes, codes, str_eq, take, ℤ,
}
use wirenboard.Broker.State.{
  MsgState, invalid, publish_qos0, publish_qos1, wait_for_puback, publish_qos2, wait_for_pubrec,
  resend_pubrel, wait_for_pubrel, resend_pubcomp, wait_for_pubcomp, send_pubrec, queued, Direction,
  md_in, md_out, Db,
}
use wirenboard.Subs.Process.{Client, sys}
use wirenboard.Subs.Tree.{Hier}

abbrev pub magic : Bytes
magic = 0 ∷ 181 ∷ 0 ∷ codes "mosquitto db"

abbrev pub mosq_db_version : ℕ
mosq_db_version = 3

-- `htons` and `htonl` of a number that is cut to the width, as the bytes in memory.
abbrev pub be16 : ℕ → Bytes
be16 n = n / 256 % 256 ∷ n % 256 ∷ []

abbrev pub be32 : ℕ → Bytes
be32 n = n / 16777216 % 256 ∷ n / 65536 % 256 ∷ n / 256 % 256 ∷ n % 256 ∷ []

abbrev pub of_be : ℕ → Bytes → ℕ
of_be acc [] = acc
of_be acc (b ∷ bs) = of_be (acc * 256 + b) bs

-- A number of `k` bytes in the order of the memory.
abbrev pub le : ℕ → ℕ → Bytes
le zero n = []
le (suc k) n = n % 256 ∷ le k (n / 256)

abbrev pub of_le : Bytes → ℕ
of_le [] = 0
of_le (b ∷ bs) = of_le bs * 256 + b

abbrev pub byte : ℕ → Bytes
byte n = n % 256 ∷ []

abbrev pub flag : Bool → ℕ
flag b = if b then 1 else 0

abbrev pub state_byte : MsgState → ℕ
state_byte invalid = 0
state_byte publish_qos0 = 1
state_byte publish_qos1 = 2
state_byte wait_for_puback = 3
state_byte publish_qos2 = 4
state_byte wait_for_pubrec = 5
state_byte resend_pubrel = 6
state_byte wait_for_pubrel = 7
state_byte resend_pubcomp = 8
state_byte wait_for_pubcomp = 9
state_byte send_pubrec = 10
state_byte queued = 11

abbrev pub direction_byte : Direction → ℕ
direction_byte md_in = 0
direction_byte md_out = 1

-- `strncmp(topic, "$SYS", 4)` is 0.
abbrev pub is_sys : Bytes → Bool
is_sys topic = str_eq (take 4 topic) sys

-- `struct mosquitto` in `db->contexts_by_id`.
pub record ClientState : Type 0 where
  pub client : Client
  pub clean_session : Bool
  pub disconnect_t : ℕ
  pub is_mqtt31 : Bool
  pub subs : Option (List (Option ℕ))
  pub sub_count : ℕ

-- The parts of `struct mosquitto_db` that are saved and restored: the contexts in the order of the
-- hash table, and the roots of the subscriptions.
pub record Database : Type 0 where
  pub db : Db
  pub sessions : List ClientState
  pub roots : Hier
  pub subscription_count : ℤ
  pub retained_count : ℤ

unfoldable pub session_at : ℕ → List ClientState → Option ClientState
session_at a [] = none
session_at a (s ∷ ss) = if s.client.address == a then some s else session_at a ss

-- The id of a context that a leaf refers to.
unfoldable pub id_at : List ClientState → ℕ → Option Bytes
id_at ss a = elim (session_at a ss) [ none ↦ none | some s ↦ s.client.context.id ]
