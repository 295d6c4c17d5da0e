-- ===== src/Subs/Tree.antt =====
-- The subscription tree of src/subs.c, `_sub_add` and `_sub_remove`. A `Hier` is a pointer to a
-- `struct _mosquitto_subhier` with its siblings behind it; `end` is NULL.
use mathlib.Core.Option
use wirenboard.Common.{
  ℕ, zero, suc, ◌+◌, Bool, true, false, if◌then◌else◌, ◌==◌, Option, none, some, List, [], ◌∷◌,
  ◌++◌, Bytes, take, str_eq, ℤ, inc,
}

-- `struct _mosquitto_subleaf`: a client, by its address, and its quality of service.
pub record Leaf : Type 0 where
  pub context : ℕ
  pub qos : ℕ

-- The fields of `struct _mosquitto_subhier` besides `children` and `next`.
pub record Node : Type 0 where
  pub address : ℕ
  pub topic : Bytes
  pub subs : List Leaf
  pub retained : Option ℕ

pub data Hier : Type 0 where
  end : Hier
  node : Node → Hier → Hier → Hier

-- The fields of `struct mosquitto` that a subscription looks at, at its address.
pub record Subscriber : Type 0 where
  pub address : ℕ
  pub id : Option Bytes
  pub is_mqtt31 : Bool
  pub subs : Option (List (Option ℕ))
  pub sub_count : ℕ

-- What the functions change besides the tree: the results of the allocations to come, the client
-- (`none` for NULL), and the number of subscriptions.
pub record State : Type 0 where
  pub heap : List (Option ℕ)
  pub client : Option Subscriber
  pub subscription_count : ℤ

-- The return codes 0, -1 and MOSQ_ERR_NOMEM, and a read outside of `context->subs`.
pub data Code : Type 0 where
  success already no_memory overrun : Code

abbrev pub Given : Type 0
Given = record { given : Option ℕ; state : State }

unfoldable pub malloc : State → Given
malloc s = elim s.heap [
  | [] ↦ record { given = none; state = s }
  | a ∷ heap ↦ record { given = a; state = record s { heap = heap } }
]

unfoldable pub is_leaf_of : (ℕ → Option Bytes) → Bytes → Leaf → Bool
is_leaf_of id_of id l = elim (id_of l.context) [ none ↦ false | some i ↦ str_eq i id ]

-- The search for a leaf of the client, with the new quality of service written to it.
unfoldable pub set_qos : (ℕ → Option Bytes) → Bytes → ℕ → List Leaf → Option (List Leaf)
unfolding is_leaf_of
set_qos id_of id qos [] = none
set_qos id_of id qos (l ∷ ls) =
    let rest = set_qos id_of id qos ls in
    if is_leaf_of id_of id l
    then some (record l { qos = qos } ∷ ls)
    else Option.map (λ r. l ∷ r) rest

pub is_address : ℕ → Option ℕ → Bool
is_address a none = false
is_address a (some b) = b == a

-- The loop for a free place among the first `count` places of `context->subs`.
pub data Slots : Type 0 where
  filled : List (Option ℕ) → Slots
  full past : Slots

unfoldable pub fill_slot : ℕ → ℕ → List (Option ℕ) → Slots
fill_slot a zero ss = full
fill_slot a (suc count) [] = past
fill_slot a (suc count) (none ∷ ss) = filled (some a ∷ ss)
fill_slot a (suc count) (some b ∷ ss) = elim (fill_slot a count ss) [
  | filled r ↦ filled (some b ∷ r)
  | full ↦ full
  | past ↦ past
]

abbrev pub Kept : Type 0
Kept = record { subscriber : Subscriber; state : State; code : Code }

-- The reference to the node `a` that the client keeps.
unfoldable pub keep_reference : ℕ → Subscriber → State → Kept
unfolding malloc fill_slot
keep_reference a c s = elim c.subs [
  | none ↦
      (let g = malloc s in
        let c' = record c { sub_count = 1 } in
        elim g.given [
          | none ↦ record { subscriber = c'; state = g.state; code = no_memory }
          | some _ ↦ record {
            subscriber = record c' { subs = some (some a ∷ []) };
            state = g.state;
            code = success;
          }
        ])
  | some ss ↦ (elim (fill_slot a c.sub_count ss) [
    | past ↦ record { subscriber = c; state = s; code = overrun }
    | filled ss' ↦ record { subscriber = record c { subs = some ss' }; state = s; code = success }
    | full ↦
        (let g = malloc s in
          let c' = record c { sub_count = c.sub_count + 1 } in
          elim g.given [
            | none ↦ record { subscriber = c'; state = g.state; code = no_memory }
            | some _ ↦ record {
              subscriber = record c' { subs = some (take c.sub_count ss ++ some a ∷ []) };
              state = g.state;
              code = success;
            }
          ])
  ])
]

abbrev pub Leaves : Type 0
Leaves = record { subs : List Leaf; state : State; code : Code }

-- `_sub_add` at the node of the filter, for a client with an id.
unfoldable pub add_leaf :
    (ℕ → Option Bytes) → ℕ → ℕ → List Leaf → Subscriber → Bytes → State → Leaves
unfolding set_qos malloc keep_reference
add_leaf id_of qos a subs c id s = elim (set_qos id_of id qos subs) [
  | some ls ↦ record { subs = ls; state = s; code = if c.is_mqtt31 then already else success }
  | none ↦
      (let g = malloc s in
        elim g.given [
          | none ↦ record { subs = subs; state = g.state; code = no_memory }
          | some _ ↦
              (let k = keep_reference a c g.state in
                let s' = record k.state { client = some k.subscriber } in
                elim k.code [
                  | success ↦ record {
                    subs = subs ++ record { context = c.address; qos = qos } ∷ [];
                    state = record s' { subscription_count = inc s'.subscription_count };
                    code = success;
                  }
                  | other ↦ record { subs = subs; state = s'; code = other }
                ])
        ])
]

unfoldable pub client_id : Option Subscriber → Option (Subscriber × Bytes)
client_id none = none
client_id (some c) = Option.map (λ id. (c, id)) c.id

abbrev pub Added : Type 0
Added = record { node : Node; children : Hier; state : State; code : Code }

abbrev pub Branched : Type 0
Branched = record { hier : Hier; state : State; code : Code }

-- The loop over the children, and a new child behind them where no topic is the token's.
unfoldable pub add_branch : (Node → Hier → State → Added) → Bytes → Hier → State → Branched
unfolding malloc
add_branch f t end s =
    let g = malloc s in
    elim g.given [
      | none ↦ record { hier = end; state = g.state; code = no_memory }
      | some a ↦
          (let g' = malloc g.state in
            elim g'.given [
              | none ↦ record { hier = end; state = g'.state; code = no_memory }
              | some _ ↦
                  (let r =
                      f (record { address = a; topic = t; subs = []; retained = none }) end
                        g'.state in
                    record { hier = node r.node r.children end; state = r.state; code = r.code })
            ])
    ]
add_branch f t (node n ch next) s = elim (str_eq n.topic t) [
  | true ↦
      (let r = f n ch s in
        record { hier = node r.node r.children next; state = r.state; code = r.code })
  | false ↦
      (let r = add_branch f t next s in
        record { hier = node n ch r.hier; state = r.state; code = r.code })
]

-- `_sub_add`, with the node `n` and its children for `subhier`.
unfoldable pub sub_add : (ℕ → Option Bytes) → ℕ → List Bytes → Node → Hier → State → Added
unfolding add_leaf add_branch client_id
sub_add id_of qos [] n ch s = elim (client_id s.client) [
  | none ↦ record { node = n; children = ch; state = s; code = success }
  | some (c, id) ↦
      (let r = add_leaf id_of qos n.address n.subs c id s in
        record { node = record n { subs = r.subs }; children = ch; state = r.state; code = r.code })
]
sub_add id_of qos (t ∷ ts) n ch s =
    let r = add_branch (sub_add id_of qos ts) t ch s in
    record { node = n; children = r.hier; state = r.state; code = r.code }
