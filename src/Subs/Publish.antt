-- ===== src/Subs/Publish.antt =====
-- `mqtt3_db_messages_queue` as a whole: which nodes a published message comes to.
use mathlib.Core.Option
use wirenboard.Common.{
  ℕ, ◌≡◌, ◌∙◌, refl, ap, subst, ◌==◌, arith, Bool, true, false, if◌then◌else◌, Bool-cases, inl, inr,
  Option, some, List, [], ◌∷◌, Bytes, str_eq, str_eq_iff, All,
}
use wirenboard.Topic.{valid, pub_topic_check}
use wirenboard.Topic.Check.{pub_topic_check_lem, levels-cons}
use wirenboard.Topic.Levels.{is_plain, levels, onto_first}
use wirenboard.Subs.Tokens.{Heap, Cursor, path_of, is_dollar, tokenise, tokenise-path_of}
use wirenboard.Subs.Tree.{Node, Hier, end, node, State, success}
use wirenboard.Subs.Distinct.{Absent, IsDistinct}
use wirenboard.Subs.Search.Entries.{IsEnded, entries, deliver}
use wirenboard.Subs.Search.Order.{sub_search-deliver}
use wirenboard.Subs.Process.{Publication, Delivery, subs_process}
use wirenboard.Subs.Calls.{prepared, queue_loop, refer_stored, release_stored, messages_queue}

-- The tree below the root of a name.
abbrev pub root_of : Bytes → Hier → Hier
root_of t end = end
root_of t (node n ch next) = if str_eq n.topic t then ch else root_of t next

abbrev pub root_of_path : List Bytes → Hier → Hier
root_of_path [] roots = end
root_of_path (t ∷ ts) roots = root_of t roots

prepared_fresh :
    (retain : Bool) (tokens : List Bytes) (n : Node) (ch : Hier) (nodes : State)
    → retain ≡ false
    → prepared retain tokens n ch nodes
      ≡ record { node = n; children = ch; state = nodes; code = success }
unfolding prepared
prepared_fresh true tokens n ch nodes h = cc
prepared_fresh false tokens n ch nodes h = refl

module _ (m : Publication) (fresh : m.retain ≡ false) (tokens : List Bytes)
    (plain : All (λ t. is_plain t ≡ true) tokens) where
  queue_loop-Absent :
      (t : Bytes) (h : Hier) (nodes : State) (d : Option Delivery)
      → Absent t h
      → (queue_loop m nodes tokens t h d).delivery ≡ d
  unfolding queue_loop
  queue_loop-Absent t end nodes d a = refl
  queue_loop-Absent t (node n ch next) nodes d a =
      rw (a.0, queue_loop) (queue_loop-Absent t next nodes d a.1)

  queue_loop-deliver :
      (t : Bytes) (h : Hier) (nodes : State) (d : Option Delivery)
      → IsDistinct h
      → IsEnded h
      → (queue_loop m nodes tokens t h d).delivery
        ≡ deliver (subs_process m) (entries (root_of t h)) tokens true d
  unfolding queue_loop
  queue_loop-deliver t end nodes d distinct ended = refl
  queue_loop-deliver t (node n ch next) nodes d distinct ended =
      elim (Bool-cases (str_eq n.topic t)) [
        | inr differ ↦
            rw (differ, queue_loop) (queue_loop-deliver t next nodes d distinct.2 ended.2)
        | inl same ↦
            (let a : Absent t next = rw (← (str_eq_iff n.topic t).0 same) distinct.0 in
              rw (same, prepared_fresh m.retain tokens n ch nodes fresh, queue_loop)
                (queue_loop-Absent t next nodes _ a
                  ∙ sub_search-deliver (subs_process m) ch tokens d ended.1 plain))
      ]

-- Levels of a topic without wildcards have none.
onto_first_plain :
    (c : ℕ) (ls : List Bytes)
    → (c == b'+') ≡ false
    → (c == b'#') ≡ false
    → All (λ t. is_plain t ≡ true) ls
    → All (λ t. is_plain t ≡ true) (onto_first c ls)
onto_first_plain c [] p h a = (ground arith, tt)
onto_first_plain c (l ∷ ls) p h a = (ground (arith, a.0), a.1)

levels_plain : (s : Bytes) → is_plain s ≡ true → All (λ t. is_plain t ≡ true) (levels s)
levels_plain [] h = (refl, tt)
levels_plain (c ∷ s) h =
    let rest = levels_plain s (ground arith) in
    elim (Bool-cases (c == b'/')) [
      | inl slash ↦ rw slash (refl, rest)
      | inr other ↦ rw other (onto_first_plain c (levels s) (ground arith) (ground arith) rest)
    ]

pub path_of_plain : (s : Bytes) → is_plain s ≡ true → All (λ t. is_plain t ≡ true) (path_of s)
path_of_plain s h = elim (Bool-cases (is_dollar s)) [
  | inl dollar ↦ rw dollar (levels_plain s h)
  | inr other ↦ rw other (refl, levels_plain s h)
]

pub path_of-cons : (s : Bytes) → (t : Bytes) × (ts : List Bytes) × (path_of s ≡ t ∷ ts)
path_of-cons s =
    let (l, ls, e) = levels-cons s in
    elim (Bool-cases (is_dollar s)) [
      | inl dollar ↦ (l, ls, rw (dollar, e) refl)
      | inr other ↦ ([], levels s, rw other refl)
    ]

-- A topic that `mqtt3_db_messages_queue` is given with `retain` not set, which
-- `mosquitto_pub_topic_check` accepts, and whose tokens are made: what happens is that the stored
-- message is referred to, the nodes below the root of the topic's first token are processed whose
-- path matches the topic, in the order of the tree, and the reference is given back. The roots have
-- different names, and no `#` has anything below it.
pub messages_queue-deliver :
    (m : Publication) (heap : Heap) (r : Cursor) (nodes : State) (roots : Hier) (d : Delivery)
    → m.retain ≡ false
    → pub_topic_check m.topic ≡ valid
    → tokenise m.topic heap ≡ some r
    → IsDistinct roots
    → IsEnded roots
    → (messages_queue m heap nodes roots d).0.delivery
      ≡ Option.map (release_stored m) (
          deliver
            (subs_process m)
            (entries (root_of_path (path_of m.topic) roots))
            (path_of m.topic)
            true
            (some (refer_stored m d)))
unfolding messages_queue
messages_queue-deliver m heap r nodes roots d fresh ok made distinct ended =
    let plain = path_of_plain m.topic ((pub_topic_check_lem m.topic).0 ok).0 in
    let (t, ts, e) = path_of-cons m.topic in
    let tokens : r.tokens ≡ t ∷ ts = (tokenise-path_of m.topic heap).0 r made ∙ e in
    let q =
      queue_loop-deliver m fresh (t ∷ ts) (subst (All (λ u. is_plain u ≡ true)) e plain) t roots
        nodes (some (refer_stored m d)) distinct ended in
    rw (made, tokens, messages_queue, e) (ap (Option.map (release_stored m)) q)
