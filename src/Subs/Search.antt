-- ===== src/Subs/Search.antt =====
-- `_sub_search` of src/subs.c: which nodes of the tree a published topic comes to. What
-- `_subs_process` does at a node is an argument.
pub mod Entries
pub mod Order
use wirenboard.Common.{
  ◌≡◌, ◌⊎◌, refl, inl, inr, ℕ, Bool, true, false, ◌&&◌, ◌||◌, if◌then◌else◌, List, [], ◌∷◌, Bytes,
  str_eq,
}
use wirenboard.Topic.Levels.{hash, plus}
use wirenboard.Subs.Tree.{Node, Hier, end, node}

unfoldable pub is_end : Hier → Bool
is_end end = true
is_end (node n ch next) = false

-- What the loop does at a branch: it goes on below for the tokens left, and processes the branch
-- if there are none; or it processes a branch `#`; or it passes on.
pub data Visit : Type 0 where
  descend : List Bytes → Visit
  wildcard pass : Visit

pub visit_of : Node → Hier → List Bytes → Visit
unfolding is_end
visit_of n ch [] = if str_eq n.topic hash && is_end ch then wildcard else pass
visit_of n ch (t ∷ ts) =
    if str_eq n.topic t || str_eq n.topic plus
    then descend ts
    else if str_eq n.topic hash && is_end ch
    then wildcard
    else pass

pub Visit-cases :
    (v : Visit) → ((ts : List Bytes) × (v ≡ descend ts)) ⊎ ((v ≡ wildcard) ⊎ (v ≡ pass))
Visit-cases (descend ts) = inl (ts, refl)
Visit-cases wildcard = inr (inl refl)
Visit-cases pass = inr (inr refl)

abbrev pub is_last : List Bytes → Bool
is_last [] = true
is_last (t ∷ ts) = false

abbrev pub Found {ℓ} : Type ℓ → Type ℓ
Found S = record { hier : Hier; state : S }

module _ {S : Type 0} (process : Bool → Node → S → Node × S) where
  -- `_sub_search` over the children `h` of a node, with the flag `set_retain`.
  unfoldable pub sub_search : Hier → List Bytes → Bool → S → Found S
  unfolding visit_of
  sub_search end tokens set_retain s = record { hier = end; state = s }
  sub_search (node n ch next) tokens set_retain s = elim (visit_of n ch tokens) [
    | descend ts ↦
        (let sr = if str_eq n.topic plus then false else set_retain in
          let r = sub_search ch ts sr s in
          let (n', s') = if is_last ts then process sr n r.state else (n, r.state) in
          let rest = sub_search next tokens set_retain s' in
          record { hier = node n' r.hier rest.hier; state = rest.state })
    | wildcard ↦
        (let (n', s') = process false n s in
          let rest = sub_search next tokens set_retain s' in
          record { hier = node n' ch rest.hier; state = rest.state })
    | pass ↦
        (let rest = sub_search next tokens set_retain s in
          record { hier = node n ch rest.hier; state = rest.state })
  ]
