-- ===== src/Subs/Hollow.antt =====
-- No message is retained at a `+` or below it: adding and removing subscriptions keep it so.
use wirenboard.Common.{
  ℕ, ◌≡◌, ◌∙◌, refl, arith, Bool-cases, Option-cases, inl, inr, Option, none, List, [], ◌∷◌, Bytes,
  str_eq,
}
use wirenboard.Subs.Tokens.{Heap, tokenise, tokenise-path_of}
use wirenboard.Subs.Tree.{
  Node, Hier, end, node, State, Added, malloc, add_branch, sub_add, Subscriber,
}
use wirenboard.Subs.Prune.{remove_branch, sub_remove, is_bare}
use wirenboard.Subs.Distinct.{
  Keeps, sub_add-Keeps, sub_remove-Keeps, sub_add_children, sub_remove_children,
}
use wirenboard.Subs.Calls.{add_at_root, new_root, add_subscription, remove_subscription}
use wirenboard.Subs.Publish.{path_of-cons}
use wirenboard.Subs.Valid.{Rooted}
use wirenboard.Subs.Retain.Kept.{NoRetained, IsHollow}

-- A function on a node and its children that retains nothing.
pub record KeepsHollow (f : Node → Hier → State → Added) : Type 0 where
  pub retained : (n : Node) (ch : Hier) (s : State) → (f n ch s).node.retained ≡ n.retained
  pub hollow : (n : Node) (ch : Hier) (s : State) → IsHollow ch → IsHollow (f n ch s).children
  pub nothing : (n : Node) (ch : Hier) (s : State) → NoRetained ch → NoRetained (f n ch s).children

module _ (t : Bytes) (f : Node → Hier → State → Added) (K : Keeps f) (H : KeepsHollow f) where
  IsHollow-node :
      (n : Node) (ch next : Hier) (s : State)
      → IsHollow (node n ch next)
      → IsHollow (node (f n ch s).node (f n ch s).children next)
  IsHollow-node n ch next s h = (
    λ p.
        let (e, none_below) = h.0 (rw (← K.topic n ch s) p) in
        (H.retained n ch s ∙ e, H.nothing n ch s none_below),
    H.hollow n ch s h.1,
    h.2,
  )

  NoRetained-node :
      (n : Node) (ch next : Hier) (s : State)
      → NoRetained (node n ch next)
      → NoRetained (node (f n ch s).node (f n ch s).children next)
  NoRetained-node n ch next s h = (H.retained n ch s ∙ h.0, H.nothing n ch s h.1, h.2)

  IsHollow-fresh :
      (a : ℕ) (next : Hier) (s : State)
      → IsHollow next
      → let n : Node = record { address = a; topic = t; subs = []; retained = none } in
        IsHollow (node (f n end s).node (f n end s).children next)
  IsHollow-fresh a next s h =
      IsHollow-node (record { address = a; topic = t; subs = []; retained = none }) end next s
        (λ p. (refl, tt), tt, h)

  NoRetained-fresh :
      (a : ℕ) (next : Hier) (s : State)
      → NoRetained next
      → let n : Node = record { address = a; topic = t; subs = []; retained = none } in
        NoRetained (node (f n end s).node (f n end s).children next)
  NoRetained-fresh a next s h =
      NoRetained-node (record { address = a; topic = t; subs = []; retained = none }) end next s
        (refl, tt, h)

  add_branch-IsHollow : (h : Hier) (s : State) → IsHollow h → IsHollow (add_branch f t h s).hier
  unfolding add_branch
  add_branch-IsHollow end s e = elim (Option-cases (malloc s).given) [
    | inl e0 ↦ rw (e0, add_branch) tt
    | inr (a, e1) ↦ (elim (Option-cases (malloc (malloc s).state).given) [
      | inl e0 ↦ rw (e1, e0, add_branch) tt
      | inr (b, e2) ↦ rw (e1, e2, add_branch) (IsHollow-fresh a end _ tt)
    ])
  ]
  add_branch-IsHollow (node n ch next) s e = elim (Bool-cases (str_eq n.topic t)) [
    | inl same ↦ rw (same, add_branch) (IsHollow-node n ch next s e)
    | inr differ ↦ rw (differ, add_branch) (e.0, e.1, add_branch-IsHollow next s e.2)
  ]

  add_branch-NoRetained :
      (h : Hier) (s : State) → NoRetained h → NoRetained (add_branch f t h s).hier
  unfolding add_branch
  add_branch-NoRetained end s e = elim (Option-cases (malloc s).given) [
    | inl e0 ↦ rw (e0, add_branch) tt
    | inr (a, e1) ↦ (elim (Option-cases (malloc (malloc s).state).given) [
      | inl e0 ↦ rw (e1, e0, add_branch) tt
      | inr (b, e2) ↦ rw (e1, e2, add_branch) (NoRetained-fresh a end _ tt)
    ])
  ]
  add_branch-NoRetained (node n ch next) s e = elim (Bool-cases (str_eq n.topic t)) [
    | inl same ↦ rw (same, add_branch) (NoRetained-node n ch next s e)
    | inr differ ↦ rw (differ, add_branch) (e.0, e.1, add_branch-NoRetained next s e.2)
  ]

  remove_branch-IsHollow :
      (h : Hier) (s : State) → IsHollow h → IsHollow (remove_branch f t h s).hier
  unfolding remove_branch
  remove_branch-IsHollow end s e = tt
  remove_branch-IsHollow (node n ch next) s e = elim (Bool-cases (str_eq n.topic t)) [
    | inl same ↦ (elim (Bool-cases (is_bare (f n ch s).node (f n ch s).children)) [
      | inl bare ↦ rw (same, bare, remove_branch) e.2
      | inr stays ↦ rw (same, stays, remove_branch) (IsHollow-node n ch next s e)
    ])
    | inr differ ↦ rw (differ, remove_branch) (e.0, e.1, remove_branch-IsHollow next s e.2)
  ]

  remove_branch-NoRetained :
      (h : Hier) (s : State) → NoRetained h → NoRetained (remove_branch f t h s).hier
  unfolding remove_branch
  remove_branch-NoRetained end s e = tt
  remove_branch-NoRetained (node n ch next) s e = elim (Bool-cases (str_eq n.topic t)) [
    | inl same ↦ (elim (Bool-cases (is_bare (f n ch s).node (f n ch s).children)) [
      | inl bare ↦ rw (same, bare, remove_branch) e.2
      | inr stays ↦ rw (same, stays, remove_branch) (NoRetained-node n ch next s e)
    ])
    | inr differ ↦ rw (differ, remove_branch) (e.0, e.1, remove_branch-NoRetained next s e.2)
  ]

  add_at_root-IsHollow : (h : Hier) (s : State) → IsHollow h → Rooted IsHollow (add_at_root f t h s)
  unfolding add_at_root
  add_at_root-IsHollow end s i = tt
  add_at_root-IsHollow (node n ch next) s i = elim (Bool-cases (str_eq n.topic t)) [
    | inl same ↦ rw (same, add_at_root) (IsHollow-node n ch next s i)
    | inr differ ↦
        (let ih = add_at_root-IsHollow next s i.2 in
          elim (Option-cases (add_at_root f t next s)) [
            | inl e ↦ rw (differ, e, add_at_root) tt
            | inr (b, e) ↦ rw (differ, e, add_at_root) (i.0, i.1, rw e at ih)
          ])
  ]

  new_root-IsHollow : (h : Hier) (s : State) → IsHollow h → IsHollow (new_root f t h s).hier
  unfolding new_root
  new_root-IsHollow h s i = elim (Option-cases (malloc s).given) [
    | inl e0 ↦ rw (e0, new_root) i
    | inr (x, e1) ↦ (elim (Option-cases (malloc (malloc s).state).given) [
      | inl e0 ↦ rw (e1, e0, new_root) i
      | inr (y, e2) ↦ rw (e1, e2, new_root) (IsHollow-fresh x h _ i)
    ])
  ]

pub sub_add-KeepsHollow :
    (id_of : ℕ → Option Bytes) (qos : ℕ) (ts : List Bytes) → KeepsHollow (sub_add id_of qos ts)
unfolding sub_add
sub_add-KeepsHollow id_of qos [] = record {
  retained = λ n ch s. ground arith;
  hollow = λ n ch s h. rw (sub_add_children id_of qos n ch s) h;
  nothing = λ n ch s h. rw (sub_add_children id_of qos n ch s) h;
}
sub_add-KeepsHollow id_of qos (t ∷ ts) =
    let K = sub_add-Keeps id_of qos ts in
    let H = sub_add-KeepsHollow id_of qos ts in
    record {
      retained = λ n ch s. refl;
      hollow = λ n ch s h. add_branch-IsHollow t (sub_add id_of qos ts) K H ch s h;
      nothing = λ n ch s h. add_branch-NoRetained t (sub_add id_of qos ts) K H ch s h;
    }

pub sub_remove-KeepsHollow :
    (c : Subscriber) (ts : List Bytes) → KeepsHollow (λ n ch s. sub_remove ts n ch c s)
unfolding sub_remove
sub_remove-KeepsHollow c [] = record {
  retained = λ n ch s. ground arith;
  hollow = λ n ch s h. rw (sub_remove_children c n ch s) h;
  nothing = λ n ch s h. rw (sub_remove_children c n ch s) h;
}
sub_remove-KeepsHollow c (t ∷ ts) =
    let K = sub_remove-Keeps c ts in
    let H = sub_remove-KeepsHollow c ts in
    let f : Node → Hier → State → Added = λ m mch s'. sub_remove ts m mch c s' in
    record {
      retained = λ n ch s. refl;
      hollow = λ n ch s h. remove_branch-IsHollow t f K H ch s h;
      nothing = λ n ch s h. remove_branch-NoRetained t f K H ch s h;
    }

pub add_subscription-IsHollow :
    (id_of : ℕ → Option Bytes) (sub : Bytes) (qos : ℕ) (heap : Heap) (roots : Hier) (s : State)
    → IsHollow roots
    → IsHollow (add_subscription id_of sub qos heap roots s).hier
unfolding add_subscription
add_subscription-IsHollow id_of sub qos heap roots s i = elim (Option-cases (tokenise sub heap)) [
  | inl e ↦ rw (e, add_subscription) i
  | inr (r, made) ↦
      (let (t, ts, e) = path_of-cons sub in
        let tokens : r.tokens ≡ t ∷ ts = (tokenise-path_of sub heap).0 r made ∙ e in
        let f = sub_add id_of qos (t ∷ ts) in
        let K = sub_add-Keeps id_of qos (t ∷ ts) in
        let H = sub_add-KeepsHollow id_of qos (t ∷ ts) in
        let kept = add_at_root-IsHollow t f K H roots s i in
        elim (Option-cases (add_at_root f t roots s)) [
          | inr (b, found) ↦ rw (made, tokens, found, add_subscription) (rw found at kept)
          | inl absent ↦
              rw (made, tokens, absent, add_subscription) (new_root-IsHollow t f K H roots s i)
        ])
]

pub remove_subscription-IsHollow :
    (sub : Bytes) (heap : Heap) (roots : Hier) (c : Subscriber) (s : State)
    → IsHollow roots
    → IsHollow (remove_subscription sub heap roots c s).hier
unfolding remove_subscription
remove_subscription-IsHollow sub heap roots c s i = elim (Option-cases (tokenise sub heap)) [
  | inl e ↦ rw (e, remove_subscription) i
  | inr (r, made) ↦
      (let (t, ts, e) = path_of-cons sub in
        let tokens : r.tokens ≡ t ∷ ts = (tokenise-path_of sub heap).0 r made ∙ e in
        let f : Node → Hier → State → Added = λ n ch s'. sub_remove (t ∷ ts) n ch c s' in
        let kept =
          add_at_root-IsHollow t f (sub_remove-Keeps c (t ∷ ts)) (sub_remove-KeepsHollow c (t ∷ ts))
            roots s i in
        elim (Option-cases (add_at_root f t roots s)) [
          | inl absent ↦ rw (made, tokens, absent, remove_subscription) i
          | inr (b, found) ↦ rw (made, tokens, found, remove_subscription) (rw found at kept)
        ])
]
