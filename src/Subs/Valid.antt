-- ===== src/Subs/Valid.antt =====
-- The calls that change the roots keep the tree in order.
use wirenboard.Common.{
  ℕ, ◌≡◌, ◌∙◌, refl, subst, arith, true, false, ◌==◌, Bool-cases, Option-cases, inl, inr, Option,
  none, some, List, [], ◌∷◌, Bytes, str_eq, str_eq_iff,
}
use wirenboard.Topic.{valid, sub_topic_check}
use wirenboard.Topic.Levels.{hash, levels, is_nil, is_filter, onto_first}
use wirenboard.Topic.Check.{IsCString, sub_topic_check_lem}
use wirenboard.Subs.Tokens.{Heap, path_of, is_dollar, tokenise, tokenise-path_of}
use wirenboard.Subs.Tree.{
  Node, Hier, end, node, State, Added, Branched, malloc, sub_add, Subscriber,
}
use wirenboard.Subs.Prune.{sub_remove}
use wirenboard.Subs.Distinct.{Absent, IsDistinct, Keeps, sub_add-Keeps, sub_remove-Keeps}
use wirenboard.Subs.Search.Entries.{IsEnded}
use wirenboard.Subs.Ended.{
  HashLast, KeepsEnd, at_node, fresh_node, sub_add-KeepsEnd, sub_remove-KeepsEnd,
}
use wirenboard.Subs.Publish.{path_of-cons}
use wirenboard.Subs.Calls.{add_at_root, new_root, add_subscription, remove_subscription}

-- The tree, from its roots on, is in order.
pub record IsTree (roots : Hier) : Type 0 where
  pub distinct : IsDistinct roots
  pub ended : IsEnded roots

-- What holds of the roots, where there are any.
abbrev pub Rooted : (Hier → Type 0) → Option Branched → Type 0
Rooted P none = Unit
Rooted P (some b) = P b.hier

module _ (t : Bytes) (f : Node → Hier → State → Added) (K : Keeps f) (E : KeepsEnd t f) where
  Absent-add_at_root :
      (k : Bytes) (h : Hier) (s : State) → Absent k h → Rooted (Absent k) (add_at_root f t h s)
  unfolding add_at_root
  Absent-add_at_root k end s a = tt
  Absent-add_at_root k (node n ch next) s a = elim (Bool-cases (str_eq n.topic t)) [
    | inl same ↦ rw (same, add_at_root, K.topic n ch s) a
    | inr differ ↦
        (let ih = Absent-add_at_root k next s a.1 in
          elim (Option-cases (add_at_root f t next s)) [
            | inl e ↦ rw (differ, e, add_at_root) tt
            | inr (b, e) ↦ rw (differ, e, add_at_root) (a.0, rw e at ih)
          ])
  ]

  add_at_root-IsTree : (h : Hier) (s : State) → IsTree h → Rooted IsTree (add_at_root f t h s)
  unfolding add_at_root
  add_at_root-IsTree end s i = tt
  add_at_root-IsTree (node n ch next) s i =
      let (a, d, ds) = i.distinct in
      elim (Bool-cases (str_eq n.topic t)) [
        | inl same ↦
            rw (same, add_at_root)
              (record {
                distinct = (rw (K.topic n ch s) a, K.distinct n ch s d, ds);
                ended = at_node t f K E n ch next s same i.ended;
              })
        | inr differ ↦
            (let (e0, e1, e2) = i.ended in
              let ih = add_at_root-IsTree next s (record { distinct = ds; ended = e2 }) in
              let absent = Absent-add_at_root n.topic next s a in
              elim (Option-cases (add_at_root f t next s)) [
                | inl e ↦ rw (differ, e, add_at_root) tt
                | inr (b, e) ↦
                    (let i' = rw e at ih in
                      rw (differ, e, add_at_root)
                        (record {
                          distinct = (rw e at absent, d, i'.distinct);
                          ended = (e0, e1, i'.ended);
                        }))
              ])
      ]

  add_at_root-Absent : (h : Hier) (s : State) → add_at_root f t h s ≡ none → Absent t h
  unfolding add_at_root
  add_at_root-Absent end s e = tt
  add_at_root-Absent (node n ch next) s e = (ground arith, add_at_root-Absent next s (ground arith))

  new_root-IsTree : (h : Hier) (s : State) → IsTree h → Absent t h → IsTree (new_root f t h s).hier
  unfolding new_root
  new_root-IsTree h s i a = elim (Option-cases (malloc s).given) [
    | inl e0 ↦ rw (e0, new_root) i
    | inr (x, e1) ↦ (elim (Option-cases (malloc (malloc s).state).given) [
      | inl e0 ↦ rw (e1, e0, new_root) i
      | inr (y, e2) ↦
          rw (e1, e2, new_root)
            (record {
              distinct = (
                rw (K.topic (record { address = x; topic = t; subs = []; retained = none }) end _)
                    a,
                K.distinct _ end _ tt,
                i.distinct,
              );
              ended = fresh_node t f K E x h _ i.ended;
            })
    ])
  ]

is_filter-HashLast : (ls : List Bytes) → is_filter ls ≡ true → HashLast ls
is_filter-HashLast [] h = tt
is_filter-HashLast (l ∷ ls) h = (last l ls h, is_filter-HashLast ls (ground arith))
  where
    nil : (xs : List Bytes) → is_nil xs ≡ true → xs ≡ []
    nil [] e = refl
    nil (x ∷ xs) e = absurd (cc e)

    last :
        (x : Bytes) (xs : List Bytes) → is_filter (x ∷ xs) ≡ true → str_eq x hash ≡ true → xs ≡ []
    last x xs f same = let e = (str_eq_iff x hash).0 same in nil xs (ground (arith, rw e at f))

-- The first token is empty or begins with a dollar sign: it is no `#`.
abbrev IsRoot : List Bytes → Type 0
IsRoot [] = Unit
IsRoot (t ∷ ts) = str_eq t hash ≡ false

onto_first-IsRoot : (c : ℕ) (ls : List Bytes) → (c == b'$') ≡ true → IsRoot (onto_first c ls)
onto_first-IsRoot c [] h = ground arith
onto_first-IsRoot c (l ∷ ls) h = ground arith

path_of-IsRoot : (s : Bytes) → IsRoot (path_of s)
unfolding is_dollar
path_of-IsRoot [] = refl
path_of-IsRoot (c ∷ s) = elim (Bool-cases (c == b'$')) [
  | inr other ↦ rw other refl
  | inl dollar ↦
      (let slash : (c == b'/') ≡ false = ground arith in
        rw (dollar, slash) (onto_first-IsRoot c (levels s) dollar))
]

pub path_of-HashLast : (s : Bytes) → is_filter (levels s) ≡ true → HashLast (path_of s)
path_of-HashLast s h = elim (Bool-cases (is_dollar s)) [
  | inl dollar ↦ rw dollar (is_filter-HashLast (levels s) h)
  | inr other ↦ rw other (λ e. absurd (cc e), is_filter-HashLast (levels s) h)
]

module _ (id_of : ℕ → Option Bytes) (qos : ℕ) (heap : Heap) (roots : Hier) (s : State) where
  add_tokens-IsTree :
      (t : Bytes) (ts : List Bytes)
      → HashLast (t ∷ t ∷ ts)
      → IsTree roots
      → (sub : Bytes) (rest : Heap)
      → tokenise sub heap ≡ some (record { tokens = t ∷ ts; heap = rest })
      → IsTree (add_subscription id_of sub qos heap roots s).hier
  unfolding add_subscription
  add_tokens-IsTree t ts last i sub rest made =
      let f = sub_add id_of qos (t ∷ ts) in
      let K = sub_add-Keeps id_of qos (t ∷ ts) in
      let E = sub_add-KeepsEnd id_of qos t (t ∷ ts) last in
      let kept = add_at_root-IsTree t f K E roots s i in
      elim (Option-cases (add_at_root f t roots s)) [
        | inr (b, e) ↦ rw (made, e, add_subscription) (rw e at kept)
        | inl e ↦
            rw (made, e, add_subscription)
              (new_root-IsTree t f K E roots s i (add_at_root-Absent t f K E roots s e))
      ]

  -- A filter that `mosquitto_sub_topic_check` accepts keeps the tree in order when `mqtt3_sub_add`
  -- adds it, whether its allocations succeed or not.
  pub add_subscription-IsTree :
      (sub : Bytes)
      → IsCString sub
      → sub_topic_check sub ≡ valid
      → IsTree roots
      → IsTree (add_subscription id_of sub qos heap roots s).hier
  unfolding add_subscription
  add_subscription-IsTree sub c_string accepted i = elim (Option-cases (tokenise sub heap)) [
    | inl e ↦ rw (e, add_subscription) i
    | inr (r, made) ↦
        (let filter = ((sub_topic_check_lem sub c_string).0 accepted).0 in
          let (t, ts, e) = path_of-cons sub in
          let tokens : r.tokens ≡ t ∷ ts = (tokenise-path_of sub heap).0 r made ∙ e in
          let root = subst IsRoot e (path_of-IsRoot sub) in
          let last = subst HashLast e (path_of-HashLast sub filter) in
          add_tokens-IsTree t ts (λ h. absurd (cc (h, root)), last) i sub r.heap
            (made ∙ rw tokens refl))
  ]

-- `mqtt3_sub_remove` keeps the tree in order, whatever the filter is.
pub remove_subscription-IsTree :
    (sub : Bytes) (heap : Heap) (roots : Hier) (c : Subscriber) (s : State)
    → IsTree roots
    → IsTree (remove_subscription sub heap roots c s).hier
unfolding remove_subscription
remove_subscription-IsTree sub heap roots c s i = elim (Option-cases (tokenise sub heap)) [
  | inl e ↦ rw (e, remove_subscription) i
  | inr (r, made) ↦
      (let (t, ts, e) = path_of-cons sub in
        let tokens : r.tokens ≡ t ∷ ts = (tokenise-path_of sub heap).0 r made ∙ e in
        let f : Node → Hier → State → Added = λ n ch s'. sub_remove (t ∷ ts) n ch c s' in
        let K = sub_remove-Keeps c (t ∷ ts) in
        let kept = add_at_root-IsTree t f K (sub_remove-KeepsEnd c t (t ∷ ts)) roots s i in
        elim (Option-cases (add_at_root f t roots s)) [
          | inl absent ↦ rw (made, tokens, absent, remove_subscription) i
          | inr (b, found) ↦ rw (made, tokens, found, remove_subscription) (rw found at kept)
        ])
]
