-- ===== src/Subs/Distinct.antt =====
-- Siblings of the subscription tree have different topics, and adding and removing keep it so.
use wirenboard.Common.{
  ℕ, ◌≡◌, refl, arith, false, Bool-cases, Option-cases, inl, inr, Option, none, List, [], ◌∷◌,
  Bytes, str_eq, str_eq_iff, str_eq_refl,
}
use wirenboard.Subs.Tree.{
  Node, Hier, end, node, State, Added, add_branch, malloc, sub_add, Subscriber,
}
use wirenboard.Subs.Prune.{remove_branch, sub_remove, is_bare}

-- No node of the siblings `h` has the topic `t`.
abbrev pub Absent : Bytes → Hier → Type 0
Absent t end = Unit
Absent t (node n ch next) = (str_eq n.topic t ≡ false) × Absent t next

abbrev pub IsDistinct : Hier → Type 0
IsDistinct end = Unit
IsDistinct (node n ch next) = Absent n.topic next × IsDistinct ch × IsDistinct next

-- A function on a node and its children that keeps the topic and the invariant.
pub record Keeps (f : Node → Hier → State → Added) : Type 0 where
  pub topic : (n : Node) (ch : Hier) (s : State) → (f n ch s).node.topic ≡ n.topic
  pub distinct : (n : Node) (ch : Hier) (s : State) → IsDistinct ch → IsDistinct (f n ch s).children

str_eq_sym : (a b : Bytes) → str_eq a b ≡ false → str_eq b a ≡ false
str_eq_sym a b h = ground (arith, str_eq_iff b a, str_eq_refl a, h)

module _ (f : Node → Hier → State → Added) (K : Keeps f) (t : Bytes) where
  Absent-add_branch :
      (k : Bytes) (h : Hier) (s : State)
      → str_eq t k ≡ false
      → Absent k h
      → Absent k (add_branch f t h s).hier
  unfolding add_branch
  Absent-add_branch k end s d a = elim (Option-cases (malloc s).given) [
    | inl e0 ↦ rw (e0, add_branch) tt
    | inr (a, e1) ↦ (elim (Option-cases (malloc (malloc s).state).given) [
      | inl e0 ↦ rw (e1, e0, add_branch) tt
      | inr (b, e2) ↦
          rw (e1, e2, add_branch)
            (
              rw (K.topic (record { address = a; topic = t; subs = []; retained = none }) end _) d,
              tt,
            )
    ])
  ]
  Absent-add_branch k (node n ch next) s d a = elim (Bool-cases (str_eq n.topic t)) [
    | inl same ↦ rw (same, add_branch, K.topic n ch s) a
    | inr differ ↦ rw (differ, add_branch) (a.0, Absent-add_branch k next s d a.1)
  ]

  add_branch-IsDistinct :
      (h : Hier) (s : State) → IsDistinct h → IsDistinct (add_branch f t h s).hier
  unfolding add_branch
  add_branch-IsDistinct end s d = elim (Option-cases (malloc s).given) [
    | inl e0 ↦ rw (e0, add_branch) tt
    | inr (a, e1) ↦ (elim (Option-cases (malloc (malloc s).state).given) [
      | inl e0 ↦ rw (e1, e0, add_branch) tt
      | inr (b, e2) ↦ rw (e1, e2, add_branch) (tt, K.distinct _ end _ tt, tt)
    ])
  ]
  add_branch-IsDistinct (node n ch next) s d = elim (Bool-cases (str_eq n.topic t)) [
    | inl same ↦ rw (same, add_branch, K.topic n ch s) (d.0, K.distinct n ch s d.1, d.2)
    | inr differ ↦
        rw (differ, add_branch)
          (
            Absent-add_branch n.topic next s (str_eq_sym n.topic t differ) d.0,
            d.1,
            add_branch-IsDistinct next s d.2,
          )
  ]

  Absent-remove_branch :
      (k : Bytes) (h : Hier) (s : State) → Absent k h → Absent k (remove_branch f t h s).hier
  unfolding remove_branch
  Absent-remove_branch k end s a = tt
  Absent-remove_branch k (node n ch next) s a = elim (Bool-cases (str_eq n.topic t)) [
    | inl same ↦ (elim (Bool-cases (is_bare (f n ch s).node (f n ch s).children)) [
      | inl bare ↦ rw (same, bare, remove_branch) a.1
      | inr stays ↦ rw (same, stays, remove_branch, K.topic n ch s) a
    ])
    | inr differ ↦ rw (differ, remove_branch) (a.0, Absent-remove_branch k next s a.1)
  ]

  remove_branch-IsDistinct :
      (h : Hier) (s : State) → IsDistinct h → IsDistinct (remove_branch f t h s).hier
  unfolding remove_branch
  remove_branch-IsDistinct end s d = tt
  remove_branch-IsDistinct (node n ch next) s d = elim (Bool-cases (str_eq n.topic t)) [
    | inl same ↦ (elim (Bool-cases (is_bare (f n ch s).node (f n ch s).children)) [
      | inl bare ↦ rw (same, bare, remove_branch) d.2
      | inr stays ↦
          rw (same, stays, remove_branch, K.topic n ch s) (d.0, K.distinct n ch s d.1, d.2)
    ])
    | inr differ ↦
        rw (differ, remove_branch)
          (Absent-remove_branch n.topic next s d.0, d.1, remove_branch-IsDistinct next s d.2)
  ]

pub sub_add_children :
    (id_of : ℕ → Option Bytes) (qos : ℕ) (n : Node) (ch : Hier) (s : State)
    → (sub_add id_of qos [] n ch s).children ≡ ch
unfolding sub_add
sub_add_children id_of qos n ch s = ground arith

pub sub_remove_children :
    (c : Subscriber) (n : Node) (ch : Hier) (s : State) → (sub_remove [] n ch c s).children ≡ ch
unfolding sub_remove
sub_remove_children c n ch s = ground arith

-- `_sub_add` keeps the topics of siblings apart, on every path.
pub sub_add-Keeps :
    (id_of : ℕ → Option Bytes) (qos : ℕ) (ts : List Bytes) → Keeps (sub_add id_of qos ts)
unfolding sub_add
sub_add-Keeps id_of qos [] = record {
  topic = λ n ch s. ground arith;
  distinct = λ n ch s d. rw (sub_add_children id_of qos n ch s) d;
}
sub_add-Keeps id_of qos (t ∷ ts) = record {
  topic = λ n ch s. refl;
  distinct = λ n ch s d.
      add_branch-IsDistinct (sub_add id_of qos ts) (sub_add-Keeps id_of qos ts) t ch s d;
}

-- `_sub_remove` keeps the topics of siblings apart.
pub sub_remove-Keeps : (c : Subscriber) (ts : List Bytes) → Keeps (λ n ch s. sub_remove ts n ch c s)
unfolding sub_remove
sub_remove-Keeps c [] = record {
  topic = λ n ch s. ground arith;
  distinct = λ n ch s d. rw (sub_remove_children c n ch s) d;
}
sub_remove-Keeps c (t ∷ ts) = record {
  topic = λ n ch s. refl;
  distinct = λ n ch s d.
      remove_branch-IsDistinct (λ m mch s'. sub_remove ts m mch c s') (sub_remove-Keeps c ts) t ch s
        d;
}
