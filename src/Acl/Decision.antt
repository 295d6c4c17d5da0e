-- ===== src/Acl/Decision.antt =====
-- `mosquitto_acl_check_default` of src/security_default.c, and `mosquitto_acl_check` of
-- src/security.c.
use wirenboard.Common.{
  ℕ, ◌+◌, ◌*◌, bit_and, Bool, true, false, not, ◌&&◌, ◌||◌, ◌==◌, if◌then◌else◌, ltb, Option, none,
  some, List, [], ◌∷◌, ◌++◌, Bytes, length,
}
use wirenboard.Topic.{topic_matches_sub}
use wirenboard.Subs.Tokens.{Heap, is_dollar}
use wirenboard.Subs.Process.{Access, granted, denied, failed}
use wirenboard.Acl.{Acl, AclDb, Session}

-- `access & acl_root->access`
unfoldable pub permits : ℕ → Acl → Bool
permits access a = not (bit_and access a.access == 0)

-- `result` behind a call of `mosquitto_topic_matches_sub`, which may leave it as it is.
unfoldable pub written : Option Bool → Bool → Bool
written none old = old
written (some b) old = b

abbrev pub Looked : Type 0
Looked = record { found : Bool; result : Bool }

-- The loop over the client's own list.
unfoldable pub own_loop : Bytes → ℕ → List Acl → Bool → Looked
unfolding permits written
own_loop topic access [] result = record { found = false; result = result }
own_loop topic access (a ∷ more) result =
    let skipped = own_loop topic access more result in
    let r = written (topic_matches_sub a.topic topic) result in
    let rest = own_loop topic access more r in
    if is_dollar topic && not (is_dollar a.topic)
    then skipped
    else if r && permits access a
    then record { found = true; result = r }
    else rest

-- What the loop over the characters of a pattern writes.
unfoldable pub expand : Bytes → Option Bytes → Bytes → Bytes
expand id user [] = []
expand id user (x ∷ []) = x ∷ []
expand id user (x ∷ y ∷ s) =
    let behind = expand id user s in
    let beside = x ∷ expand id user (y ∷ s) in
    if x == b'%' && y == b'c'
    then id ++ behind
    else if x == b'%' && y == b'u'
    then (elim user [ none ↦ beside | some u ↦ u ++ behind ])
    else beside

abbrev pub name_length : Option Bytes → ℕ
name_length none = 0
name_length (some u) = length u

abbrev pub is_named : Option Bytes → Bool
is_named none = false
is_named (some u) = true

-- The buffer of `len + 1` bytes, where `len` is `tlen + ccount*(clen-2) + ucount*(ulen-2)`, without
-- the last term for no user. Both sides of the test are `len` and what the loop writes, with the
-- subtractions on the other side: `none` is a loop that does not write the buffer up to its NUL.
unfoldable pub local_acl : Bytes → Option Bytes → Acl → Option Bytes
unfolding expand
local_acl id user a =
    let text = expand id user a.topic in
    let u = if is_named user then a.ucount else 0 in
    if length text + 2 * a.ccount + 2 * u
      == length a.topic + a.ccount * length id + u * name_length user
    then some text
    else none

-- The loop over the patterns; `heap` says which allocations succeed. The outcome `none` is a read
-- or a write outside of the buffer.
unfoldable pub pattern_loop :
    Bytes → Option Bytes → Bytes → ℕ → List Acl → Heap → Bool → Option Access
unfolding permits written local_acl
pattern_loop id user topic access [] heap result = some denied
pattern_loop id user topic access (a ∷ more) heap result =
    if ltb 0 a.ucount && not (is_named user)
    then pattern_loop id user topic access more heap result
    else (elim heap [
      | [] ↦ some failed
      | ok ∷ heap' ↦ (elim ok [
        | false ↦ some failed
        | true ↦ (elim (local_acl id user a) [
          | none ↦ none
          | some text ↦
              (let r = written (topic_matches_sub text topic) result in
                let rest = pattern_loop id user topic access more heap' r in
                if r && permits access a then some granted else rest)
        ])
      ])
    ])

abbrev pub is_none_left : AclDb → Bool
is_none_left db = elim db.acl_list [
  | u ∷ us ↦ false
  | [] ↦ (elim db.acl_patterns [ p ∷ ps ↦ false | [] ↦ true ])
]

abbrev pub has_patterns : AclDb → Bool
has_patterns db = elim db.acl_patterns [ p ∷ ps ↦ true | [] ↦ false ]

abbrev pub has_bridge : Session → Bool
has_bridge c = elim c.bridge [ none ↦ false | some b ↦ true ]

-- `mosquitto_acl_check_default`; `result` is what the variable of that name holds at first.
unfoldable pub acl_check_default :
    AclDb → Session → Option Bytes → ℕ → Heap → (result : Bool) → Option Access
unfolding own_loop pattern_loop
acl_check_default db c none access heap result = some failed
acl_check_default db c (some topic) access heap result =
    if is_none_left db || has_bridge c then some granted else (elim c.acl_list [
      | none ↦
          if has_patterns db
          then (elim c.id [
            | none ↦ none
            | some id ↦ pattern_loop id c.username topic access db.acl_patterns heap result
          ])
          else some denied
      | some u ↦
          (let own = own_loop topic access u.acl result in
            if own.found then some granted else (elim c.id [
              | none ↦ none
              | some id ↦ pattern_loop id c.username topic access db.acl_patterns heap own.result
            ]))
    ])

-- `mosquitto_acl_check` of src/security.c; a plugin answers for an id, a user name, a topic and an
-- access.
unfoldable pub acl_check :
    Option (Bytes → Option Bytes → Option Bytes → ℕ → Access)
    → AclDb
    → Session
    → Option Bytes
    → ℕ
    → Heap
    → (result : Bool) → Option Access
unfolding acl_check_default
acl_check plugin db c topic access heap result = elim c.id [
  | none ↦ some denied
  | some id ↦ (elim plugin [
    | none ↦ acl_check_default db c topic access heap result
    | some ask ↦
        (let username : Option Bytes = elim c.bridge [ none ↦ c.username | some local ↦ local ] in
          some (ask id username topic access))
  ])
]
