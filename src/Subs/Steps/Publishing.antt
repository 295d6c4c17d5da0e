-- ===== src/Subs/Steps/Publishing.antt =====
-- `mqtt3_db_messages_queue` keeps the tree in order.
use wirenboard.Common.{
  ℕ, ◌≡◌, ◌∙◌, refl, subst, arith, Bool, true, false, Bool-cases, Option-cases, inl, inr, Option,
  none, some, List, [], ◌∷◌, Bytes, str_eq, All, str_eq_iff,
}
use wirenboard.Topic.{valid, pub_topic_check}
use wirenboard.Topic.Levels.{hash, plus, is_plain}
use wirenboard.Topic.Check.{pub_topic_check_lem}
use wirenboard.Subs.Tokens.{Heap, tokenise, tokenise-path_of}
use wirenboard.Subs.Tree.{Node, Hier, end, node, State, sub_add}
use wirenboard.Subs.Distinct.{Absent, sub_add-Keeps}
use wirenboard.Subs.Ended.{HashLast, sub_add-KeepsEnd}
use wirenboard.Subs.Process.{Publication, Delivery, set_retained, subs_process}
use wirenboard.Subs.Calls.{prepared, queue_loop, messages_queue}
use wirenboard.Subs.Publish.{path_of-cons, path_of_plain}
use wirenboard.Subs.Hollow.{sub_add-KeepsHollow}
use wirenboard.Subs.Shape.{
  Searched, KeepsNode, sub_search-Searched, Searched-IsDistinct, Searched-IsEnded,
  Searched-IsHollow,
}
use wirenboard.Subs.Steps.{InOrder}

pub Searched-InOrder : {sr : Bool} {h h' : Hier} → Searched sr h h' → InOrder h → InOrder h'
Searched-InOrder r i = record {
  tree = record {
    distinct = Searched-IsDistinct r i.tree.distinct;
    ended = Searched-IsEnded r i.tree.ended;
  };
  hollow = Searched-IsHollow r i.hollow;
}

subs_process-KeepsNode : (m : Publication) → KeepsNode (subs_process m)
unfolding subs_process set_retained
subs_process-KeepsNode m = record { topic = λ sr n d. topic sr n d; retained = λ n d. retained n d }
  where
    topic : (sr : Bool) (n : Node) (d : Option Delivery) → (subs_process m sr n d).0.topic ≡ n.topic
    topic sr n none = refl
    topic sr n (some d) = ground arith

    retained : (n : Node) (d : Option Delivery) → (subs_process m false n d).0.retained ≡ n.retained
    retained n none = refl
    retained n (some d) = ground arith

plain_no_hash : (v : Bytes) → is_plain v ≡ true → str_eq v hash ≡ true → ⊥
plain_no_hash [] q h = absurd (cc h)
plain_no_hash (c ∷ v) q h = ground (arith, q, h)

plain_no_plus : (v : Bytes) → is_plain v ≡ true → str_eq v plus ≡ true → ⊥
plain_no_plus [] q h = absurd (cc h)
plain_no_plus (c ∷ v) q h = ground (arith, q, h)

children_InOrder :
    (n : Node) (ch next : Hier) → InOrder (node n ch next) → InOrder ch × InOrder next
children_InOrder n ch next i = (
  record {
    tree = record { distinct = i.tree.distinct.1; ended = i.tree.ended.1 };
    hollow = i.hollow.1;
  },
  record {
    tree = record { distinct = i.tree.distinct.2; ended = i.tree.ended.2 };
    hollow = i.hollow.2;
  },
)

module _ (m : Publication) (t : Bytes) (ts : List Bytes)
    (plain : All (λ u. is_plain u ≡ true) (t ∷ ts)) where
  plain-HashLast : (us : List Bytes) → All (λ u. is_plain u ≡ true) us → HashLast us
  plain-HashLast [] p = tt
  plain-HashLast (u ∷ us) p = ((λ h. absurd (plain_no_hash u p.0 h)), plain-HashLast us p.1)

  plain_node :
      (n : Node) (ch next : Hier)
      → str_eq n.topic t ≡ true
      → Absent n.topic next
      → InOrder ch
      → InOrder next
      → InOrder (node n ch next)
  plain_node n ch next same a below beside =
      let e = (str_eq_iff n.topic t).0 same in
      record {
        tree = record {
          distinct = (a, below.tree.distinct, beside.tree.distinct);
          ended = (
            (λ h. absurd (plain_no_hash t plain.0 (rw e at h))),
            below.tree.ended,
            beside.tree.ended,
          );
        };
        hollow = ((λ p. absurd (plain_no_plus t plain.0 (rw e at p))), below.hollow, beside.hollow);
      }

  prepared-InOrder :
      (retain : Bool) (n : Node) (ch : Hier) (nodes : State)
      → InOrder ch
      → let a = prepared retain (t ∷ ts) n ch nodes in (a.node ≡ n) × InOrder a.children
  unfolding prepared sub_add
  prepared-InOrder false n ch nodes i = (refl, i)
  prepared-InOrder true n ch nodes i =
      let id_of : ℕ → Option Bytes = λ c. none in
      let last : HashLast (t ∷ t ∷ ts) =
        (λ h. absurd (plain_no_hash t plain.0 h), plain-HashLast (t ∷ ts) plain) in
      let s : State = record nodes { client = none } in
      (
        refl,
        record {
          tree = record {
            distinct = (sub_add-Keeps id_of 0 (t ∷ ts)).distinct n ch s i.tree.distinct;
            ended = (sub_add-KeepsEnd id_of 0 t (t ∷ ts) last).ended n ch s i.tree.ended;
          };
          hollow = (sub_add-KeepsHollow id_of 0 (t ∷ ts)).hollow n ch s i.hollow;
        },
      )

  Absent-queue_loop :
      (k : Bytes) (h : Hier) (nodes : State) (d : Option Delivery)
      → InOrder h
      → Absent k h
      → Absent k (queue_loop m nodes (t ∷ ts) t h d).hier
  unfolding queue_loop
  Absent-queue_loop k end nodes d i a = tt
  Absent-queue_loop k (node n ch next) nodes d i a =
      let (below, beside) = children_InOrder n ch next i in
      elim (Bool-cases (str_eq n.topic t)) [
        | inl same ↦
            (let (kept, order) = prepared-InOrder m.retain n ch nodes below in
              rw (same, kept, queue_loop) (a.0, Absent-queue_loop k next _ _ beside a.1))
        | inr differ ↦ rw (differ, queue_loop) (a.0, Absent-queue_loop k next nodes d beside a.1)
      ]

  queue_loop-InOrder :
      (h : Hier) (nodes : State) (d : Option Delivery)
      → InOrder h
      → InOrder (queue_loop m nodes (t ∷ ts) t h d).hier
  unfolding queue_loop
  queue_loop-InOrder end nodes d i = i
  queue_loop-InOrder (node n ch next) nodes d i =
      let (below, beside) = children_InOrder n ch next i in
      elim (Bool-cases (str_eq n.topic t)) [
        | inl same ↦
            (let (kept, order) = prepared-InOrder m.retain n ch nodes below in
              let searched =
                sub_search-Searched (subs_process m) (subs_process-KeepsNode m)
                  (prepared m.retain (t ∷ ts) n ch nodes).children (t ∷ ts) true d in
              rw (same, kept, queue_loop)
                (plain_node n _ _ same (Absent-queue_loop n.topic next _ _ beside i.tree.distinct.0)
                  (Searched-InOrder searched order) (queue_loop-InOrder next _ _ beside)))
        | inr differ ↦
            (let ih = queue_loop-InOrder next nodes d beside in
              rw (differ, queue_loop)
                (record {
                  tree = record {
                    distinct = (
                      Absent-queue_loop n.topic next nodes d beside i.tree.distinct.0,
                      i.tree.distinct.1,
                      ih.tree.distinct,
                    );
                    ended = (i.tree.ended.0, i.tree.ended.1, ih.tree.ended);
                  };
                  hollow = (i.hollow.0, i.hollow.1, ih.hollow);
                }))
      ]

pub messages_queue-InOrder :
    (m : Publication) (heap : Heap) (nodes : State) (roots : Hier) (d : Delivery)
    → pub_topic_check m.topic ≡ valid
    → InOrder roots
    → InOrder (messages_queue m heap nodes roots d).0.hier
unfolding messages_queue
messages_queue-InOrder m heap nodes roots d accepted i =
    elim (Option-cases (tokenise m.topic heap)) [
      | inl e ↦ rw (e, messages_queue) i
      | inr (r, made) ↦
          (let plain = path_of_plain m.topic ((pub_topic_check_lem m.topic).0 accepted).0 in
            let (t, ts, e) = path_of-cons m.topic in
            let tokens : r.tokens ≡ t ∷ ts = (tokenise-path_of m.topic heap).0 r made ∙ e in
            rw (made, tokens, messages_queue)
              (queue_loop-InOrder m t ts (subst (All (λ u. is_plain u ≡ true)) e plain) roots nodes
                _ i))
    ]
