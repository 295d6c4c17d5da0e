-- ===== src/Subs/Paths.antt =====
-- The tree as a map from paths to leaves, which adding and removing change at one path.
use wirenboard.Common.{
  ℕ, ◌≡◌, ◌≢◌, ◌∙◌, refl, arith, Bool, true, false, if◌then◌else◌, ◌&&◌, Bool-cases, inl, inr,
  Option, none, some, List, [], ◌∷◌, ◌++◌, Option-cases, Bytes, str_eq, str_eq_iff, str_eq_refl,
}
use wirenboard.Subs.Tree.{
  Leaf, Node, Hier, end, node, State, Code, success, already, no_memory, overrun, Added, set_qos,
  malloc, add_branch, add_leaf, sub_add, client_id, Subscriber,
}

-- The leaves at a path below a node, by the first child of each topic.
abbrev pub below_first : (Node → Hier → List Leaf) → Bytes → Hier → List Leaf
below_first f t end = []
below_first f t (node n ch next) = if str_eq n.topic t then f n ch else below_first f t next

abbrev pub leaves_at : List Bytes → Node → Hier → List Leaf
leaves_at [] n ch = n.subs
leaves_at (t ∷ ts) n ch = below_first (leaves_at ts) t ch

-- Two paths are one.
abbrev pub path_eq : List Bytes → List Bytes → Bool
path_eq [] [] = true
path_eq [] (y ∷ ys) = false
path_eq (x ∷ xs) [] = false
path_eq (x ∷ xs) (y ∷ ys) = str_eq x y && path_eq xs ys

-- What the leaves of the filter's node become: a new leaf behind them, or a new quality of service
-- in the leaf that is there, unless the call fails.
abbrev pub subscribed : (ℕ → Option Bytes) → ℕ → ℕ → Bytes → List Leaf → List Leaf
subscribed id_of qos c id ls = elim (set_qos id_of id qos ls) [
  | some ls' ↦ ls'
  | none ↦ ls ++ record { context = c; qos = qos } ∷ []
]

abbrev pub is_done : Code → Bool
is_done success = true
is_done already = true
is_done no_memory = false
is_done overrun = false

abbrev pub after :
    (ℕ → Option Bytes) → ℕ → Option (Subscriber × Bytes) → Code → List Leaf → List Leaf
after id_of qos none code ls = ls
after id_of qos (some (c, id)) code ls =
    if is_done code then subscribed id_of qos c.address id ls else ls

pub leaves_at_bare : (p : List Bytes) (n : Node) → n.subs ≡ [] → leaves_at p n end ≡ []
leaves_at_bare [] n h = h
leaves_at_bare (t ∷ p) n h = refl

malloc_client : (s : State) → client_id (malloc s).state.client ≡ client_id s.client
unfolding malloc
malloc_client s = ground arith

module _ (id_of : ℕ → Option Bytes) (qos : ℕ) where
  after_nothing :
      (who : Option (Subscriber × Bytes)) (code : Code)
      → is_done code ≢ true
      → (b : Bool) → [] ≡ (if b then after id_of qos who code [] else [])
  after_nothing none code d b = ground arith
  after_nothing (some (c, id)) code d b = ground arith

  add_leaf-after :
      (a : ℕ) (ls : List Leaf) (c : Subscriber) (id : Bytes) (s : State)
      → (add_leaf id_of qos a ls c id s).subs
        ≡ after id_of qos (some (c, id)) (add_leaf id_of qos a ls c id s).code ls
  unfolding add_leaf
  add_leaf-after a ls c id s = ground arith

  -- What a function that adds below a node does to the leaves there.
  record Adds (ts : List Bytes) (who : Option (Subscriber × Bytes))
      (f : Node → Hier → State → Added) : Type 0 where
    topic : (n : Node) (ch : Hier) (s : State) → (f n ch s).node.topic ≡ n.topic
    leaves :
        (p : List Bytes) (n : Node) (ch : Hier) (s : State)
        → client_id s.client ≡ who
        → leaves_at p (f n ch s).node (f n ch s).children ≡ (
            if path_eq ts p
            then after id_of qos who (f n ch s).code (leaves_at ts n ch)
            else leaves_at p n ch)

  add_branch-leaves :
      (ts : List Bytes) (who : Option (Subscriber × Bytes)) (f : Node → Hier → State → Added)
      → Adds ts who f
      → (t t' : Bytes) (p : List Bytes) (h : Hier) (s : State) → client_id s.client ≡ who
      → below_first (leaves_at p) t' (add_branch f t h s).hier ≡ (
          if str_eq t t' && path_eq ts p
          then after id_of qos who (add_branch f t h s).code (below_first (leaves_at ts) t h)
          else below_first (leaves_at p) t' h)
  unfolding add_branch
  add_branch-leaves ts who f H t t' p end s e =
      let s1 = (malloc s).state in
      let s2 = (malloc s1).state in
      let e2 = malloc_client s1 ∙ malloc_client s ∙ e in
      elim (Option-cases (malloc s).given) [
        | inl e0 ↦
            rw (e0, add_branch)
              (after_nothing who no_memory (λ d. cc) (str_eq t t' && path_eq ts p))
        | inr (a, yes1) ↦ (elim (Option-cases (malloc s1).given) [
          | inl e0 ↦
              rw (yes1, e0, add_branch)
                (after_nothing who no_memory (λ d. cc) (str_eq t t' && path_eq ts p))
          | inr (b, yes2) ↦
              (let fresh : Node = record { address = a; topic = t; subs = []; retained = none } in
                rw (yes1, yes2, add_branch)
                  (ground (
                    arith,
                    H.topic fresh end s2,
                    H.leaves p fresh end s2 e2,
                    leaves_at_bare p fresh refl,
                    leaves_at_bare ts fresh refl,
                  )))
        ])
      ]
  add_branch-leaves ts who f H t t' p (node n ch next) s e = elim (Bool-cases (str_eq n.topic t)) [
    | inl same ↦
        (let eq = (str_eq_iff n.topic t).0 same in
          rw (same, add_branch) (ground (arith, eq, H.topic n ch s, H.leaves p n ch s e)))
    | inr differ ↦
        rw (differ, add_branch)
          (ground (
            arith,
            str_eq_iff n.topic t',
            str_eq_iff t t',
            str_eq_refl t,
            add_branch-leaves ts who f H t t' p next s e,
          ))
  ]

  sub_add_here :
      (who : Option (Subscriber × Bytes)) (p : List Bytes) (n : Node) (ch : Hier) (s : State)
      → client_id s.client ≡ who
      → leaves_at p (sub_add id_of qos [] n ch s).node (sub_add id_of qos [] n ch s).children ≡ (
          if path_eq [] p
          then after id_of qos who (sub_add id_of qos [] n ch s).code n.subs
          else leaves_at p n ch)
  unfolding sub_add
  sub_add_here none [] n ch s e = rw (e, sub_add) refl
  sub_add_here none (t ∷ p) n ch s e = rw (e, sub_add) refl
  sub_add_here (some (c, id)) [] n ch s e = rw (e, sub_add) (add_leaf-after n.address n.subs c id s)
  sub_add_here (some (c, id)) (t ∷ p) n ch s e = rw (e, sub_add) refl

  sub_add_below :
      (who : Option (Subscriber × Bytes)) (t : Bytes) (ts : List Bytes)
      → Adds ts who (sub_add id_of qos ts)
      → (p : List Bytes) (n : Node) (ch : Hier) (s : State) → client_id s.client ≡ who
      → leaves_at p n (add_branch (sub_add id_of qos ts) t ch s).hier ≡ (
          if path_eq (t ∷ ts) p
          then after id_of qos who
              (add_branch (sub_add id_of qos ts) t ch s).code
              (below_first (leaves_at ts) t ch)
          else leaves_at p n ch)
  sub_add_below who t ts H [] n ch s e = refl
  sub_add_below who t ts H (t' ∷ p) n ch s e =
      add_branch-leaves ts who (sub_add id_of qos ts) H t t' p ch s e

  sub_add-Adds :
      (ts : List Bytes) (who : Option (Subscriber × Bytes)) → Adds ts who (sub_add id_of qos ts)
  unfolding sub_add
  sub_add-Adds [] who = record {
    topic = λ n ch s. ground arith;
    leaves = λ p n ch s e. sub_add_here who p n ch s e;
  }
  sub_add-Adds (t ∷ ts) who =
      let H = sub_add-Adds ts who in
      record { topic = λ n ch s. refl; leaves = λ p n ch s e. sub_add_below who t ts H p n ch s e }

-- The tree as a map from paths to leaves: `_sub_add` changes it at the path of the filter and
-- nowhere else. There the client's leaf gets the quality of service, or a new leaf stands behind
-- the others; nothing changes where the call fails, or for no client.
pub sub_add-leaves_at :
    (id_of : ℕ → Option Bytes) (qos : ℕ) (ts p : List Bytes) (n : Node) (ch : Hier) (s : State)
    → leaves_at p (sub_add id_of qos ts n ch s).node (sub_add id_of qos ts n ch s).children ≡ (
        if path_eq ts p
        then after id_of qos
            (client_id s.client)
            (sub_add id_of qos ts n ch s).code
            (leaves_at ts n ch)
        else leaves_at p n ch)
sub_add-leaves_at id_of qos ts p n ch s =
    (sub_add-Adds id_of qos ts (client_id s.client)).leaves p n ch s refl
