-- ===== src/Acl.antt =====
-- Access control lists: src/security_default.c of mosquitto-1.4.2.
pub mod Decision
pub mod Expand
pub mod Check
pub mod Passwords
pub mod LetIn
pub mod Reload
pub mod PasswordFile
pub mod Words
pub mod Users
mod Tests
use mathlib.Core.Option
use wirenboard.Common.{
  ℕ, zero, suc, ◌+◌, ◌*◌, bit_and, Bool, true, false, not, ◌&&◌, ◌||◌, ◌==◌, if◌then◌else◌, ltb,
  Option, none, some, List, [], ◌∷◌, ◌++◌, Bytes, str_eq, length, map,
}
use wirenboard.Topic.{topic_matches_sub}
use wirenboard.Subs.Tokens.{Heap, is_dollar}
use wirenboard.Subs.Process.{Access, granted, denied, failed}

-- `struct _mosquitto_acl`
pub record Acl : Type 0 where
  pub topic : Bytes
  pub access : ℕ
  pub ucount : ℕ
  pub ccount : ℕ

-- `struct _mosquitto_acl_user`
pub record AclUser : Type 0 where
  pub username : Option Bytes
  pub acl : List Acl

-- `acl_list` and `acl_patterns` of the database.
pub record AclDb : Type 0 where
  pub acl_list : List AclUser
  pub acl_patterns : List Acl

-- What the check looks at in a client: `bridge` has the bridge's `local_username`, and `acl_list` is
-- what the pointer to a user's list leads to.
pub record Session : Type 0 where
  pub id : Option Bytes
  pub username : Option Bytes
  pub bridge : Option (Option Bytes)
  pub acl_list : Option AclUser

unfoldable pub same_user : Option Bytes → Option Bytes → Bool
same_user none none = true
same_user (some u) (some v) = str_eq u v
same_user _ _ = false

-- The search of `_add_acl` for the user, and the acl at the end of the user's list; `none` where the
-- user has none yet.
pub append_acl : Option Bytes → Acl → List AclUser → Option (List AclUser)
unfolding same_user
append_acl user a [] = none
append_acl user a (u ∷ us) =
    let rest = append_acl user a us in
    if same_user u.username user
    then some (record u { acl = u.acl ++ a ∷ [] } ∷ us)
    else Option.map (λ r. u ∷ r) rest

-- The first `n` allocations succeed.
abbrev pub is_supplied : ℕ → Heap → Bool
is_supplied zero heap = true
is_supplied (suc n) [] = false
is_supplied (suc n) (ok ∷ heap) = ok && is_supplied n heap

-- What a new user takes: the entry, and the copy of the name.
pub for_user : Option Bytes → ℕ
for_user none = 1
for_user (some u) = 2

-- `_add_acl`, with its return code. The copy of the topic, a new user and the entry are allocated;
-- where that fails nothing is added.
unfoldable pub add_acl : Option Bytes → Option Bytes → ℕ → Heap → AclDb → AclDb × ℕ
unfolding append_acl for_user
add_acl user none access heap db = (db, 3)
add_acl user (some topic) access heap db =
    let a : Acl = record { topic = topic; access = access; ucount = 0; ccount = 0 } in
    elim (append_acl user a db.acl_list) [
      | some us ↦ if is_supplied 2 heap then (record db { acl_list = us }, 0) else (db, 1)
      | none ↦
          if is_supplied (2 + for_user user) heap
          then (
            record db { acl_list = db.acl_list ++ record { username = user; acl = a ∷ [] } ∷ [] },
            0,
          )
          else (db, 1)
    ]

-- The loop over `strstr(s, "%c")`, for the letter `m`.
unfoldable pub count_marker : ℕ → Bytes → ℕ
count_marker m [] = 0
count_marker m (x ∷ []) = 0
count_marker m (x ∷ y ∷ s) =
    let found = count_marker m s in
    let beside = count_marker m (y ∷ s) in if x == b'%' && y == m then 1 + found else beside

unfoldable pub new_pattern : Bytes → ℕ → Acl
unfolding count_marker
new_pattern topic access = record {
  topic = topic;
  access = access;
  ucount = count_marker b'u' topic;
  ccount = count_marker b'c' topic;
}

-- `_add_acl_pattern`, with its return code.
unfoldable pub add_acl_pattern : Option Bytes → ℕ → Heap → AclDb → AclDb × ℕ
unfolding new_pattern
add_acl_pattern none access heap db = (db, 3)
add_acl_pattern (some topic) access heap db =
    if is_supplied 2 heap
    then (record db { acl_patterns = db.acl_patterns ++ new_pattern topic access ∷ [] }, 0)
    else (db, 1)

-- `_acl_cleanup` on the database and the clients that are known by their ids.
unfoldable pub acl_cleanup : AclDb → List Session → AclDb × List Session
acl_cleanup db contexts = elim db.acl_list [
  | [] ↦ (db, contexts)
  | u ∷ us ↦ (
    record { acl_list = []; acl_patterns = [] },
    map (λ (c : Session). record c { acl_list = none }) contexts,
  )
]

-- The loop of `mosquitto_security_apply_default` over the lists of all users, for one client.
unfoldable pub apply_acl : List AclUser → Session → Session
unfolding same_user
apply_acl [] c = c
apply_acl (u ∷ us) c =
    let rest = apply_acl us c in
    if same_user u.username c.username then record c { acl_list = some u } else rest
