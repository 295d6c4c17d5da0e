-- ===== src/Subs/Prune.antt =====
-- `_sub_remove` of src/subs.c: a leaf goes, and behind it the nodes that hold nothing.
use wirenboard.Common.{
  ℕ, zero, suc, Bool, true, false, if◌then◌else◌, ◌==◌, Option, none, some, List, [], ◌∷◌, Bytes,
  str_eq, dec,
}
use wirenboard.Subs.Tree.{
  Leaf, Node, Hier, end, node, Subscriber, State, Code, success, overrun, Slots, filled, full, past,
  is_address, Added, Branched,
}

-- `context->subs[i] = NULL` at the first reference to the node.
unfoldable pub clear_slot : ℕ → ℕ → List (Option ℕ) → Slots
clear_slot a zero ss = full
clear_slot a (suc count) [] = past
clear_slot a (suc count) (s ∷ ss) =
    let rest = clear_slot a count ss in
    if is_address a s
    then filled (none ∷ ss)
    else (elim rest [ filled r ↦ filled (s ∷ r) | full ↦ full | past ↦ past ])

-- The leaf of the client at the address `c` is taken out of the list.
unfoldable pub remove_leaf : ℕ → List Leaf → Option (List Leaf)
remove_leaf c [] = none
remove_leaf c (l ∷ ls) =
    let rest = remove_leaf c ls in
    if l.context == c then some ls else (elim rest [ none ↦ none | some r ↦ some (l ∷ r) ])

-- The client forgets the node `a`. With no array the loop reads through NULL, unless it is empty.
unfoldable pub drop_reference : ℕ → Subscriber → record { subscriber : Subscriber; code : Code }
unfolding clear_slot
drop_reference a c = elim c.subs [
  | none ↦
      if c.sub_count == 0
      then record { subscriber = c; code = success }
      else record { subscriber = c; code = overrun }
  | some ss ↦ (elim (clear_slot a c.sub_count ss) [
    | past ↦ record { subscriber = c; code = overrun }
    | full ↦ record { subscriber = c; code = success }
    | filled ss' ↦ record { subscriber = record c { subs = some ss' }; code = success }
  ])
]

unfoldable pub is_bare : Node → Hier → Bool
is_bare n (node m ch next) = false
is_bare n end = elim n.subs [
  | l ∷ ls ↦ false
  | [] ↦ (elim n.retained [ none ↦ true | some r ↦ false ])
]

unfoldable pub remove_branch : (Node → Hier → State → Added) → Bytes → Hier → State → Branched
unfolding is_bare
remove_branch f t end s = record { hier = end; state = s; code = success }
remove_branch f t (node n ch next) s = elim (str_eq n.topic t) [
  | true ↦
      (let r = f n ch s in
        record {
          hier = if is_bare r.node r.children then next else node r.node r.children next;
          state = r.state;
          code = r.code;
        })
  | false ↦
      (let r = remove_branch f t next s in
        record { hier = node n ch r.hier; state = r.state; code = r.code })
]

-- `_sub_remove` for a client, with the node `n` and its children for `subhier`.
unfoldable pub sub_remove : List Bytes → Node → Hier → Subscriber → State → Added
unfolding remove_leaf drop_reference remove_branch
sub_remove [] n ch c s = elim (remove_leaf c.address n.subs) [
  | none ↦ record { node = n; children = ch; state = s; code = success }
  | some ls ↦
      (let r = drop_reference n.address c in
        record {
          node = record n { subs = ls };
          children = ch;
          state = record s {
            client = some r.subscriber;
            subscription_count = dec s.subscription_count;
          };
          code = r.code;
        })
]
sub_remove (t ∷ ts) n ch c s =
    let r = remove_branch (λ m mch s'. sub_remove ts m mch c s') t ch s in
    record { node = n; children = r.hier; state = r.state; code = r.code }
