-- ===== src/Subs/Retain/Queue.antt =====
-- `mqtt3_retain_queue` as a whole: the retained messages of the whole tree.
use wirenboard.Common.{
  ℕ, ◌≡◌, ◌∙◌, refl, ap, subst, Bool-cases, inl, inr, Option, some, List, ◌∷◌, Bytes, str_eq,
}
use wirenboard.Topic.{valid, sub_topic_check}
use wirenboard.Topic.Check.{IsCString, sub_topic_check_lem}
use wirenboard.Subs.Tokens.{Heap, Cursor, path_of, tokenise, tokenise-path_of}
use wirenboard.Subs.Tree.{Hier, end, node}
use wirenboard.Subs.Ended.{HashLast}
use wirenboard.Subs.Publish.{root_of, root_of_path, path_of-cons}
use wirenboard.Subs.Valid.{path_of-HashLast}
use wirenboard.Subs.Retain.{
  Request, Receiver, retain_search, retain_process, retain_at_root, retain_queue,
}
use wirenboard.Subs.Retain.Kept.{shelf, tally, occurrences, run, found, IsHollow}
use wirenboard.Subs.Retain.Found.{retain_search-found}

retain_at_root-root_of :
    {S : Type 0} (process : ℕ → S → S) (t : Bytes) (ts : List Bytes) (roots : Hier) (s : S)
    → retain_at_root process t ts roots s ≡ (retain_search process (root_of t roots) t ts 0 s).state
unfolding retain_at_root retain_search
retain_at_root-root_of process t ts end s = refl
retain_at_root-root_of process t ts (node n ch next) s = elim (Bool-cases (str_eq n.topic t)) [
  | inl same ↦ rw (same, retain_at_root) refl
  | inr differ ↦ rw (differ, retain_at_root) (retain_at_root-root_of process t ts next s)
]

root_of-IsHollow : (t : Bytes) (roots : Hier) → IsHollow roots → IsHollow (root_of t roots)
root_of-IsHollow t end h = tt
root_of-IsHollow t (node n ch next) h = elim (Bool-cases (str_eq n.topic t)) [
  | inl same ↦ rw same h.1
  | inr differ ↦ rw differ (root_of-IsHollow t next h.2)
]

-- A filter that `mosquitto_sub_topic_check` accepts, and whose tokens are made:
-- `mqtt3_retain_queue` gives `_retain_process` a list of retained messages, one after the other,
-- and returns 0. Each stored message is in the list as often as the tree below the root of the
-- filter's first token retains it at a path that the filter matches, where a match by a `#` below
-- the path itself counts only if the node has children, or is the last of its siblings and not at
-- the top. No message is retained at a `+` or below it.
pub retain_queue-tally :
    (q : Request) (sub : Bytes) (heap : Heap) (r : Cursor) (roots : Hier) (s : Option Receiver)
    → IsCString sub
    → sub_topic_check sub ≡ valid
    → tokenise sub heap ≡ some r
    → IsHollow roots
    → (rs : List ℕ) × (retain_queue q sub heap roots s ≡ (run (retain_process q) rs s, 0))
      × ((x : ℕ)
          → occurrences x rs ≡ tally x (path_of sub) (shelf 0 (root_of_path (path_of sub) roots)))
unfolding retain_queue
retain_queue-tally q sub heap r roots s c_string accepted made hollow =
    let filter = ((sub_topic_check_lem sub c_string).0 accepted).0 in
    let (t, ts, e) = path_of-cons sub in
    let tokens : r.tokens ≡ t ∷ ts = (tokenise-path_of sub heap).0 r made ∙ e in
    let last = subst HashLast e (path_of-HashLast sub filter) in
    let below = root_of t roots in
    let (runs, counts) =
      retain_search-found (retain_process q) below t ts 0 s last
        (root_of-IsHollow t roots hollow) in
    (
      found below t ts 0,
      rw (made, tokens, retain_queue)
          (ap (λ x. (x, 0)) (retain_at_root-root_of (retain_process q) t ts roots s ∙ runs)),
      λ x. rw e (counts x),
    )
