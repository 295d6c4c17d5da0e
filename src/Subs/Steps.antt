-- ===== src/Subs/Steps.antt =====
-- The subscription tree over the life of the broker: what `mqtt3_db_open` of src/database.c makes,
-- and the calls of src/subs.c that change it, in any order.
pub mod Publishing
pub mod Session
pub mod Order
pub mod Served
use wirenboard.Common.{
  ℕ, ◌≡◌, ◌∙◌, refl, sym, subst, arith, Bool, true, false, Bool-cases, Option-cases, inl, inr,
  Option, none, some, List, [], ◌∷◌, Bytes, str_eq, ℤ, All, ◌==◌, ◌||◌, str_eq_iff, zero, suc,
}
use wirenboard.Topic.{valid, pub_topic_check, sub_topic_check}
use wirenboard.Topic.Levels.{hash, plus, is_plain}
use wirenboard.Topic.Check.{IsCString, pub_topic_check_lem}
use wirenboard.Subs.Tokens.{Heap, path_of, tokenise, tokenise-path_of}
use wirenboard.Subs.Tree.{
  Node, Hier, end, node, State, Added, Branched, success, no_memory, malloc, sub_add, Subscriber,
}
use wirenboard.Subs.Prune.{remove_leaf}
use wirenboard.Subs.Distinct.{Absent, IsDistinct, Keeps, sub_add-Keeps}
use wirenboard.Subs.Search.Entries.{IsEnded}
use wirenboard.Subs.Ended.{HashLast, KeepsEnd, sub_add-KeepsEnd}
use wirenboard.Subs.Process.{Publication, Delivery, sys, set_retained, subs_process}
use wirenboard.Subs.Calls.{
  add_subscription, remove_subscription, prepared, queue_loop, messages_queue, remove_at,
  clean_loop, clean_session,
}
use wirenboard.Subs.Publish.{path_of-cons, path_of_plain}
use wirenboard.Subs.Valid.{IsTree, add_subscription-IsTree, remove_subscription-IsTree}
use wirenboard.Subs.Retain.Kept.{IsHollow}
use wirenboard.Subs.Hollow.{
  sub_add-KeepsHollow, add_subscription-IsHollow, remove_subscription-IsHollow,
}
use wirenboard.Subs.Shape.{
  Searched, branch, Searched-same, KeepsNode, sub_search-Searched, Searched-Absent,
  Searched-IsDistinct, Searched-IsEnded, Searched-IsHollow,
}

-- The roots that `mqtt3_db_open` makes: an empty topic and `$SYS`.
unfoldable pub open_roots : State → Branched
unfolding malloc
open_roots s =
    let g = malloc s in
    let g1 = malloc g.state in
    let g2 = malloc g1.state in
    let g3 = malloc g2.state in
    elim g.given [
      | none ↦ record { hier = end; state = g.state; code = no_memory }
      | some a ↦ (elim g1.given [
        | none ↦ record { hier = end; state = g1.state; code = no_memory }
        | some _ ↦
            (let first : Node = record { address = a; topic = []; subs = []; retained = none } in
              elim g2.given [
                | none ↦ record { hier = node first end end; state = g2.state; code = no_memory }
                | some b ↦ (elim g3.given [
                  | none ↦ record { hier = node first end end; state = g3.state; code = no_memory }
                  | some _ ↦ record {
                    hier = node first end (
                        node (record { address = b; topic = sys; subs = []; retained = none }) end
                          end);
                    state = g3.state;
                    code = success;
                  }
                ])
              ])
      ])
    ]

-- One call; what else there is in the broker may be anything.
pub data Call : Hier → Hier → Type 0 where
  subscribe :
      (id_of : ℕ → Option Bytes)
      → (sub : Bytes) → (qos : ℕ) → (heap : Heap) → (roots : Hier) → (s : State) → IsCString sub
      → sub_topic_check sub ≡ valid
      → Call roots (add_subscription id_of sub qos heap roots s).hier
  unsubscribe :
      (sub : Bytes)
      → (heap : Heap) → (roots : Hier) → (c : Subscriber) → (s : State)
      → Call roots (remove_subscription sub heap roots c s).hier
  publish :
      (m : Publication)
      → (heap : Heap) → (nodes : State) → (roots : Hier) → (d : Delivery)
      → pub_topic_check m.topic ≡ valid
      → Call roots (messages_queue m heap nodes roots d).0.hier
  clean :
      (c c' : Subscriber)
      → (roots roots' : Hier) → (n n' : ℤ) → clean_session c roots n ≡ some (roots', c', n')
      → Call roots roots'

-- The trees that come about behind `mqtt3_db_open`.
pub data Reachable : Hier → Type 0 where
  opened : (s : State) → Reachable (open_roots s).hier
  called : {roots roots' : Hier} → Reachable roots → Call roots roots' → Reachable roots'

-- The tree is in order, and retains nothing at a `+` or below it.
pub record InOrder (roots : Hier) : Type 0 where
  pub tree : IsTree roots
  pub hollow : IsHollow roots
