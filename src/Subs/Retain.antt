-- ===== src/Subs/Retain.antt =====
-- The retained messages for a new subscription: `_retain_process`, `_retain_search` and
-- `mqtt3_retain_queue` of src/subs.c.
pub mod Kept
pub mod Branch
pub mod Found
pub mod Queue
use mathlib.Core.Option
use wirenboard.Common.{
  ℕ, ◌+◌, Bool, true, false, not, ◌&&◌, ◌||◌, if◌then◌else◌, ltb, Option, none, some, List, [], ◌∷◌,
  Bytes, str_eq,
}
use wirenboard.Topic.Levels.{hash, plus, is_nil}
use wirenboard.Packet.Outgoing.{mid_generate}
use wirenboard.Broker.State.{md_out, Db, Setting}
use wirenboard.Broker.Insert.{Allocation, returned, broken, find_store, message_insert}
use wirenboard.Subs.Tokens.{Heap, tokenise}
use wirenboard.Subs.Tree.{Node, Hier, end, node}
use wirenboard.Subs.Search.{is_end}
use wirenboard.Subs.Process.{Client, Access, granted, denied, failed}

abbrev pub Searching {ℓ} : Type ℓ → Type ℓ
Searching S = record { state : S; flag : Bool }

module _ {S : Type 0} (process : ℕ → S → S) where
  -- `_retain_process` where the node has a retained message.
  abbrev pub visit : Node → S → S
  visit n s = elim n.retained [ none ↦ s | some r ↦ process r s ]

  -- `_retain_search` over the children `h` of a node, for the tokens `t ∷ ts`; the flag is the
  -- result -1. What `_retain_process` does is an argument.
  unfoldable pub retain_search : Hier → Bytes → List Bytes → ℕ → S → Searching S
  unfolding is_end
  retain_search end t ts level s = record { state = s; flag = false }
  retain_search (node n ch next) t ts level s = elim (str_eq t hash && is_nil ts) [
    | true ↦
        (let below = retain_search ch t ts (level + 1) (visit n s) in
          let rest = retain_search next t ts level below.state in
          record { state = rest.state; flag = true })
    | false ↦ (elim (not (str_eq n.topic plus) && (str_eq n.topic t || str_eq t plus)) [
      | false ↦ retain_search next t ts level s
      | true ↦ (elim ts [
        | [] ↦ retain_search next t [] level (visit n s)
        | t' ∷ ts' ↦
            (let below = retain_search ch t' ts' (level + 1) s in
              let here = below.flag || (is_end next && (str_eq t' hash && ltb 0 level)) in
              retain_search next t (t' ∷ ts') level
                (if here then visit n below.state else below.state))
      ])
    ])
  ]

-- What a subscription asks for, and what its retained messages are given.
pub record Request : Type 0 where
  pub qos : ℕ
  pub access : Client → Option Bytes → Access
  pub memory : Client → Allocation
  pub setting : Setting

abbrev pub Receiver : Type 0
Receiver = record { db : Db; client : Client }

-- `_retain_process`; `none` is a call that is broken, or a retained message that has been freed.
unfoldable pub retain_process : Request → ℕ → Option Receiver → Option Receiver
retain_process q r none = none
retain_process q r (some s) = elim (find_store r s.db.msg_store) [
  | none ↦ none
  | some m ↦
      (let c = s.client in
        let qos = if ltb q.qos m.qos then q.qos else m.qos in
        let mid = if ltb 0 qos then mid_generate c.last_mid else 0 in
        let last = if ltb 0 qos then mid_generate c.last_mid else c.last_mid in
        elim (q.access c m.topic) [
          | denied ↦ some s
          | failed ↦ some s
          | granted ↦
              (elim (message_insert q.setting (q.memory c) s.db c.context mid md_out qos true r) [
                | broken ↦ none
                | returned db context rc ↦
                    some
                      (record { db = db; client = record c { last_mid = last; context = context } })
              ])
        ])
]

-- The loop of `mqtt3_retain_queue` over the roots, up to the first one with the token.
unfoldable pub retain_at_root : {S : Type 0} → (ℕ → S → S) → Bytes → List Bytes → Hier → S → S
unfolding retain_search
retain_at_root process t ts end s = s
retain_at_root process t ts (node n ch next) s =
    if str_eq n.topic t
    then (retain_search process ch t ts 0 s).state
    else retain_at_root process t ts next s

-- `mqtt3_retain_queue`, with its return code.
unfoldable pub retain_queue :
    Request → (sub : Bytes) → Heap → (roots : Hier) → Option Receiver → Option Receiver × ℕ
unfolding retain_at_root retain_process
retain_queue q sub heap roots s = elim (tokenise sub heap) [
  | none ↦ (s, 1)
  | some r ↦ (elim r.tokens [
    | [] ↦ (none, 0)
    | t ∷ ts ↦ (retain_at_root (retain_process q) t ts roots s, 0)
  ])
]
