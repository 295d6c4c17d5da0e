-- ===== src/Subs/Calls.antt =====
-- The functions of src/subs.c that the rest of the broker calls: `mqtt3_sub_add`,
-- `mqtt3_sub_remove`, `mqtt3_db_messages_queue` and `mqtt3_subs_clean_session`.
use mathlib.Core.Option
use wirenboard.Common.{
  ℕ, zero, suc, Bool, true, false, if◌then◌else◌, ◌==◌, Option, none, some, List, [], ◌∷◌, Bytes,
  str_eq, ℤ, dec,
}
use wirenboard.Subs.Tokens.{Heap, tokenise}
use wirenboard.Subs.Tree.{
  Node, Hier, end, node, Subscriber, State, Code, success, already, no_memory, overrun, malloc,
  Added, Branched, sub_add,
}
use wirenboard.Subs.Prune.{sub_remove, remove_leaf}
use wirenboard.Subs.Search.{sub_search}
use wirenboard.Subs.Process.{Publication, Delivery, subs_process, refer}
use wirenboard.Broker.Queue.{deref}

-- The loop of `mqtt3_sub_add` over the roots; `none` where no root has the first token.
unfoldable pub add_at_root : (Node → Hier → State → Added) → Bytes → Hier → State → Option Branched
add_at_root f t end s = none
add_at_root f t (node n ch next) s = elim (str_eq n.topic t) [
  | true ↦
      (let r = f n ch s in
        some (record { hier = node r.node r.children next; state = r.state; code = r.code }))
  | false ↦ (elim (add_at_root f t next s) [
    | none ↦ none
    | some r ↦ some (record { hier = node n ch r.hier; state = r.state; code = r.code })
  ])
]

-- A new root stands before the others.
unfoldable pub new_root : (Node → Hier → State → Added) → Bytes → Hier → State → Branched
unfolding malloc
new_root f t roots s =
    let g = malloc s in
    elim g.given [
      | none ↦ record { hier = roots; state = g.state; code = no_memory }
      | some a ↦
          (let g' = malloc g.state in
            elim g'.given [
              | none ↦ record { hier = roots; state = g'.state; code = no_memory }
              | some _ ↦
                  (let r =
                      f (record { address = a; topic = t; subs = []; retained = none }) end
                        g'.state in
                    record { hier = node r.node r.children roots; state = r.state; code = r.code })
            ])
    ]

pub shown : Code → Code
shown already = success
shown code = code

-- `mqtt3_sub_add`, on the roots of the tree; the tokens' memory is `heap`.
unfoldable pub add_subscription :
    (ℕ → Option Bytes) → (sub : Bytes) → (qos : ℕ) → Heap → (roots : Hier) → State → Branched
unfolding add_at_root new_root shown
add_subscription id_of sub qos heap roots s = elim (tokenise sub heap) [
  | none ↦ record { hier = roots; state = s; code = no_memory }
  | some r ↦ (elim r.tokens [
    | [] ↦ record { hier = roots; state = s; code = overrun }
    | t ∷ ts ↦
        (let f = sub_add id_of qos (t ∷ ts) in
          elim (add_at_root f t roots s) [
            | some b ↦ record b { code = shown b.code }
            | none ↦ (let b = new_root f t roots s in record b { code = shown b.code })
          ])
  ])
]

-- `mqtt3_sub_remove`
unfoldable pub remove_subscription :
    (sub : Bytes) → Heap → (roots : Hier) → Subscriber → State → Branched
unfolding add_at_root
remove_subscription sub heap roots c s = elim (tokenise sub heap) [
  | none ↦ record { hier = roots; state = s; code = no_memory }
  | some r ↦ (elim r.tokens [
    | [] ↦ record { hier = roots; state = s; code = overrun }
    | t ∷ ts ↦ (elim (add_at_root (λ n ch s'. sub_remove (t ∷ ts) n ch c s') t roots s) [
      | some b ↦ b
      | none ↦ record { hier = roots; state = s; code = success }
    ])
  ])
]

abbrev pub Queued : Type 0
Queued = record { hier : Hier; delivery : Option Delivery }

-- A retained message wants the nodes of its topic: `_sub_add` for no client.
unfoldable pub prepared : Bool → List Bytes → Node → Hier → State → Added
prepared true tokens n ch nodes = sub_add (λ c. none) 0 tokens n ch (record nodes { client = none })
prepared false tokens n ch nodes = record { node = n; children = ch; state = nodes; code = success }

-- The loop of `mqtt3_db_messages_queue` over the roots; the memory of new nodes is `nodes`.
unfoldable pub queue_loop :
    Publication
    → (nodes : State) → (tokens : List Bytes) → (t : Bytes) → Hier
    → Option Delivery
    → Queued
unfolding prepared
queue_loop m nodes tokens t end d = record { hier = end; delivery = d }
queue_loop m nodes tokens t (node n ch next) d = elim (str_eq n.topic t) [
  | true ↦
      (let a = prepared m.retain tokens n ch nodes in
        let r = sub_search (subs_process m) a.children tokens true d in
        let rest = queue_loop m a.state tokens t next r.state in
        record { hier = node a.node r.hier rest.hier; delivery = rest.delivery })
  | false ↦
      (let rest = queue_loop m nodes tokens t next d in
        record { hier = node n ch rest.hier; delivery = rest.delivery })
]

abbrev pub refer_stored : Publication → Delivery → Delivery
refer_stored m d = record d { db = record d.db { msg_store = refer m.stored d.db.msg_store } }

abbrev pub release_stored : Publication → Delivery → Delivery
release_stored m d = record d { db = deref (some m.stored) d.db }

-- `mqtt3_db_messages_queue`, with its return code.
unfoldable pub messages_queue :
    Publication → Heap → (nodes : State) → (roots : Hier) → Delivery → Queued × ℕ
unfolding queue_loop
messages_queue m heap nodes roots d = elim (tokenise m.topic heap) [
  | none ↦ (record { hier = roots; delivery = some d }, 1)
  | some r ↦ (elim r.tokens [
    | [] ↦ (record { hier = roots; delivery = none }, 1)
    | t ∷ ts ↦
        (let q = queue_loop m nodes (t ∷ ts) t roots (some (refer_stored m d)) in
          (record { hier = q.hier; delivery = Option.map (release_stored m) q.delivery }, 0))
  ])
]

-- The client's leaf at the node of an address goes; `none` where no node has it.
unfoldable pub remove_at : ℕ → ℕ → Hier → Option (Hier × Bool)
remove_at c a end = none
remove_at c a (node n ch next) =
    let below = remove_at c a ch in
    let beside = remove_at c a next in
    if n.address == a
    then (elim (remove_leaf c n.subs) [
      | none ↦ some (node n ch next, false)
      | some ls ↦ some (node (record n { subs = ls }) ch next, true)
    ])
    else (elim below [
      | some (ch', found) ↦ some (node n ch' next, found)
      | none ↦ (elim beside [ some (next', found) ↦ some (node n ch next', found) | none ↦ none ])
    ])

-- The loop of `mqtt3_subs_clean_session` over `count` references of the client; `none` for a
-- pointer to nothing.
unfoldable pub clean_loop : ℕ → ℕ → List (Option ℕ) → Hier → ℤ → Option (Hier × ℤ)
unfolding remove_at
clean_loop c zero refs roots n = some (roots, n)
clean_loop c (suc count) [] roots n = none
clean_loop c (suc count) (none ∷ refs) roots n = clean_loop c count refs roots n
clean_loop c (suc count) (some a ∷ refs) roots n = elim (remove_at c a roots) [
  | none ↦ none
  | some (roots', found) ↦ clean_loop c count refs roots' (if found then dec n else n)
]

-- `mqtt3_subs_clean_session`
unfoldable pub clean_session : Subscriber → Hier → ℤ → Option (Hier × Subscriber × ℤ)
unfolding clean_loop
clean_session c roots n =
    let refs : List (Option ℕ) = elim c.subs [ none ↦ [] | some ss ↦ ss ] in
    elim (clean_loop c.address c.sub_count refs roots n) [
      | none ↦ none
      | some (roots', n') ↦ some (roots', record c { subs = none; sub_count = 0 }, n')
    ]
