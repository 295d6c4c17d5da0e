-- ===== src/Broker/Insert/Counts.antt =====
-- An insertion into a queue that is in order returns, leaves the queue in order and keeps to the
-- limits.
use wirenboard.Common.{
  ℕ, suc, ◌≤◌, ◌≡◌, ◌≢◌, ◌∙◌, refl, sym, arith, Bool, true, false, not, ◌&&◌, Option, none, some,
  Bool-cases, Option-cases, inl, inr, List, [], ◌∷◌, ◌++◌, length, length-append, All, Bytes,
}
use wirenboard.Broker.State.{MsgState, Direction, ClientMsg, MsgStore, Context, Db, Setting}
use wirenboard.Broker.Queue.{last_address}
use wirenboard.Broker.Queue.Counts.{IsCounted, count12-append, last_address-append}
use wirenboard.Broker.Insert.{
  new_message, Outcome, returned, broken, Allocation, find_store, already_sent, tracks, Choice,
  enqueue, refuse, drop_it, unset, choose, pushed, link, linked, finish, add, act, message_insert,
}

-- No two messages at one address.
abbrev pub Distinct : List ClientMsg → Type 0
Distinct [] = Unit
Distinct (m ∷ ms) = All (λ x. x.address ≢ m.address) ms × Distinct ms

last_address-ne :
    (k a : ℕ) (ms : List ClientMsg) → All (λ x. x.address ≢ k) ms → last_address ms ≡ some a → k ≢ a
last_address-ne k a [] h e = cc
last_address-ne k a (m ∷ []) h e = ground (arith, h.0)
last_address-ne k a (m ∷ m' ∷ ms) h e = last_address-ne k a (m' ∷ ms) h.1 e

-- The pointer to the last message leads to the end of the queue.
pub link_lem :
    (a : ℕ) (m : ClientMsg) (ms : List ClientMsg)
    → Distinct ms
    → last_address ms ≡ some a
    → link a m ms ≡ some (ms ++ m ∷ [])
unfolding link
link_lem a m [] d e = cc
link_lem a m (x ∷ []) d e = ground arith
link_lem a m (x ∷ y ∷ ms) d e =
    ground (arith, link_lem a m (y ∷ ms) d.1 e, last_address-ne x.address a (y ∷ ms) d.0 e)

-- A call returns, with the property `P` of the client behind it.
abbrev pub Returns : Outcome → (Context → Type 0) → Type 0
Returns (returned db context rc) P = P context
Returns broken P = ⊥

pub linked_lem :
    (context : Context) (m : ClientMsg)
    → IsCounted context
    → Distinct context.msgs
    → linked context m ≡ some (context.msgs ++ m ∷ [])
unfolding linked
linked_lem context m c d = elim (Option-cases context.last_msg) [
  | inl e ↦ rw (e, no_last context.msgs (sym c.last ∙ e)) refl
  | inr (a, e) ↦ rw e (link_lem a m context.msgs d (sym c.last ∙ e))
]
  where
    no_last : (ms : List ClientMsg) → last_address ms ≡ none → ms ≡ []
    no_last [] e = refl
    no_last (x ∷ []) e = cc
    no_last (x ∷ y ∷ ms) e = absurd (cc (no_last (y ∷ ms) e))

pushed-Counts :
    (context : Context) (m : ClientMsg)
    → IsCounted context
    → IsCounted (pushed context m (context.msgs ++ m ∷ []))
unfolding pushed
pushed-Counts context m c =
    let lengths : length (context.msgs ++ m ∷ []) ≡ suc (length context.msgs) =
      omega (arith, length-append context.msgs (m ∷ [])) in
    record {
      all = rw (c.all, lengths) refl;
      some12 = ground (arith, c.some12, count12-append context.msgs (m ∷ []));
      last = sym (last_address-append context.msgs [] m);
    }

finish-IsCounted :
    (st : Setting) (mem : Allocation) (db : Db) (context : Context) (id : Bytes) (m : ClientMsg)
    (s : MsgStore) (rc : ℕ)
    → IsCounted context
    → Returns (finish st mem db context id m s (context.msgs ++ m ∷ []) rc) IsCounted
unfolding finish
finish-IsCounted st mem db context id m s rc c =
    let p = pushed-Counts context m c in
    elim (Bool-cases (tracks db m.direction m.retain && not (mem.array && mem.copy))) [
      | inl failed ↦ rw failed p
      | inr fine ↦ rw fine (record { all = p.all; some12 = p.some12; last = p.last })
    ]

-- With the classes of service that MQTT has, the tests never leave the state unset.
pub choose-ne-unset :
    (st : Setting) (db : Db) (context : Context) (dir : Direction) (qos : ℕ)
    → qos ≤ 2
    → choose st db context dir qos ≢ unset
unfolding choose
choose-ne-unset st db context dir qos h e = ground arith

pub already_sent_lem :
    (id : Bytes) (ids : List (Option Bytes)) → All (λ d. d ≢ none) ids → already_sent id ids ≢ none
unfolding already_sent
already_sent_lem id [] h e = cc
already_sent_lem id (none ∷ ids) h e = h.0 refl
already_sent_lem id (some d ∷ ids) h e = ground (arith, already_sent_lem id ids h.1)

module _ (st : Setting) (mem : Allocation) (db : Db) (context : Context) (mid : ℕ) (dir : Direction)
    (qos : ℕ) (retain : Bool) (s : MsgStore) (c : IsCounted context)
    (d : Distinct context.msgs) where
  add-IsCounted :
      (db' : Db) (a : ℕ) (id : Bytes) (state : MsgState) (rc : ℕ)
      → Returns (add st mem db' context a mid dir qos retain id s state rc) IsCounted
  unfolding add
  add-IsCounted db' a id state rc =
      let m = new_message st a mid dir qos retain s state in
      rw (linked_lem context m c d, add) (finish-IsCounted st mem db' context id m s rc c)

  act-IsCounted :
      (id : Bytes) (choice : Choice)
      → choice ≢ unset
      → Returns (act st mem db context mid dir qos retain id s choice) IsCounted
  unfolding act
  act-IsCounted id unset h = h refl
  act-IsCounted id (refuse rc) h = c
  act-IsCounted id drop_it h = record { all = c.all; some12 = c.some12; last = c.last }
  act-IsCounted id (enqueue state rc) h = elim (Option-cases mem.message) [
    | inl e ↦ rw (e, act) c
    | inr (a, e) ↦ rw (e, act) (add-IsCounted _ a id state rc)
  ]

-- The paths of `mqtt3_db_message_insert`: those that leave the client alone, and `act`.
pub message_insert-act :
    (P : Context → Type 0) (st : Setting) (mem : Allocation) (db : Db) (context : Context) (mid : ℕ)
    (dir : Direction) (qos : ℕ) (retain : Bool) (stored : ℕ) (s : MsgStore)
    → find_store stored db.msg_store ≡ some s
    → All (λ i. i ≢ none) s.dest_ids
    → P context
    → ((id : Bytes)
        → Returns (act st mem db context mid dir qos retain id s (choose st db context dir qos)) P)
    → Returns (message_insert st mem db context mid dir qos retain stored) P
unfolding message_insert
message_insert-act P st mem db context mid dir qos retain stored s found ids c acts =
    elim (Option-cases context.id) [
      | inl gone ↦ rw (found, gone, message_insert) c
      | inr (id, e) ↦ (elim (Bool-cases (tracks db dir retain)) [
        | inr untracked ↦ rw (found, e, untracked, message_insert) (acts id)
        | inl tracked ↦ (elim (Option-cases (already_sent id s.dest_ids)) [
          | inl null ↦ absurd (already_sent_lem id s.dest_ids ids null)
          | inr (true, twice) ↦ rw (found, e, tracked, twice, message_insert) c
          | inr (false, once) ↦ rw (found, e, tracked, once, message_insert) (acts id)
        ])
      ])
    ]

-- `mqtt3_db_message_insert`, of a stored message that is in the database, whose client ids are all
-- there, with a quality of service of MQTT, into a queue in order, always returns: no assertion
-- fails and no pointer leads to nothing. The queue behind it has the right counters and the right
-- pointer to its last message, on every path, those with a failed allocation included.
pub message_insert-IsCounted :
    (st : Setting) (mem : Allocation) (db : Db) (context : Context) (mid : ℕ) (dir : Direction)
    (qos : ℕ) (retain : Bool) (stored : ℕ) (s : MsgStore)
    → find_store stored db.msg_store ≡ some s
    → All (λ i. i ≢ none) s.dest_ids
    → qos ≤ 2
    → IsCounted context
    → Distinct context.msgs
    → Returns (message_insert st mem db context mid dir qos retain stored) IsCounted
message_insert-IsCounted st mem db context mid dir qos retain stored s found ids range c d =
    message_insert-act IsCounted st mem db context mid dir qos retain stored s found ids c (λ id.
      act-IsCounted st mem db context mid dir qos retain s c d id _
        (choose-ne-unset st db context dir qos range))
