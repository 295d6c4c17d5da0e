-- ===== src/Persist/Saved.antt =====
-- What src/persist.c of mosquitto-1.4.2 saves of a subscription of a session that is kept.
use mathlib.Core.List.{Memᴰ}
use mathlib.Core.List.Memᴰ
use mathlib.Core.List.Memᴰ.{head}
use wirenboard.Common.{
  ◌≡◌, refl, sym, subst, false, Option, none, some, List, [], ◌∷◌, Bytes, str_eq, str_eq-eq,
  Bool-cases, Option-cases, inl, inr,
}
use wirenboard.Broker.State.{MsgStore}
use wirenboard.Subs.Tree.{Leaf, Node, Hier, end, node}
use wirenboard.Subs.Tokens.{path_of}
use wirenboard.Subs.Paths.{leaves_at, below_first}
use wirenboard.Persist.Format.{ClientState, session_at}
use wirenboard.Persist.Write.{this_topic}
use wirenboard.Persist.Items.{Item, subscribed}
use wirenboard.Persist.Contents.{both, leaf_items, retained_items, tree_items}
use wirenboard.Persist.Emits.{both_cases}
use wirenboard.Persist.Filters.{text_of, first_token, saved_filter, text_of-path_of}

none-some : {A : Type 0} {a : A} → none ≡ some a → ⊥
none-some h = cc

-- One of two lists, one behind the other
both_left :
    (o p : Option (List Item)) (zs : List Item) (x : Item)
    → both o p ≡ some zs
    → ((xs : List Item) → o ≡ some xs → Memᴰ x xs)
    → Memᴰ x zs
both_left o p zs x h f =
    let r = both_cases o p zs h in subst (Memᴰ x) (sym r.4) (Memᴰ.append_left r.1 (f r.0 r.2))

both_right :
    (o p : Option (List Item)) (zs : List Item) (x : Item)
    → both o p ≡ some zs
    → ((ys : List Item) → p ≡ some ys → Memᴰ x ys)
    → Memᴰ x zs
both_right o p zs x h f =
    let r = both_cases o p zs h in subst (Memᴰ x) (sym r.4) (Memᴰ.append_right r.0 (f r.1 r.3))

-- What is among the items of the other leaves is among the items of all.
leaf_items_rest :
    (sessions : List ClientState) (topic : Bytes) (k : Leaf) (ls : List Leaf) (xs : List Item)
    (x : Item)
    → leaf_items sessions topic (k ∷ ls) ≡ some xs
    → ((ys : List Item) → leaf_items sessions topic ls ≡ some ys → Memᴰ x ys)
    → Memᴰ x xs
unfolding leaf_items
leaf_items_rest sessions topic k ls xs x h f = elim (Option-cases (session_at k.context sessions)) [
  | inl absent ↦ absurd (none-some (rw (leaf_items, absent) at h))
  | inr (s, found) ↦ (elim (Bool-cases s.clean_session) [
    | inl clean ↦ f xs (rw (leaf_items, found, clean) at h)
    | inr kept ↦ (elim (Option-cases s.client.context.id) [
      | inl no_id ↦ absurd (none-some (rw (leaf_items, found, kept, no_id) at h))
      | inr (id, named) ↦
          both_right (some (subscribed (record { id = id; topic = topic; qos = k.qos }) ∷ []))
            (leaf_items sessions topic ls) xs x (rw (leaf_items, found, kept, named) at h) f
    ])
  ])
]

module _ (stores : List MsgStore) (sessions : List ClientState) (l : Leaf) (s : ClientState)
    (id : Bytes) (found : session_at l.context sessions ≡ some s) (kept : s.clean_session ≡ false)
    (named : s.client.context.id ≡ some id) where
  -- The item of the leaf under a text
  abbrev saved : Bytes → Item
  saved topic = subscribed (record { id = id; topic = topic; qos = l.qos })

  leaf_items-saved :
      (topic : Bytes) (ls : List Leaf) (xs : List Item)
      → Memᴰ l ls
      → leaf_items sessions topic ls ≡ some xs
      → Memᴰ (saved topic) xs
  unfolding leaf_items
  leaf_items-saved topic [] xs m h = absurd (Memᴰ.not-nil m)
  leaf_items-saved topic (k ∷ ls) xs m h = elim (Memᴰ.cases_cons m) [
    | inl same ↦
        (let at_k : session_at k.context sessions ≡ some s = rw (← same) found in
          both_left (some (saved topic ∷ [])) (leaf_items sessions topic ls) xs (saved topic)
            (rw (leaf_items, at_k, kept, named, ← same) at h)
            (λ ys e.
              let one : saved topic ∷ [] ≡ ys = cc in subst (Memᴰ (saved topic)) one (head refl)))
    | inr m' ↦
        leaf_items_rest sessions topic k ls xs (saved topic) h
          (λ ys e. leaf_items-saved topic ls ys m' e)
  ]

  -- Below a node of a list of siblings
  below_first-saved :
      (t : Bytes) (ts : List Bytes) (topic : Bytes) (h : Hier) (xs : List Item)
      → ((n : Node) (ch next : Hier) (ys : List Item)
          → Memᴰ l (leaves_at ts n ch)
          → tree_items stores sessions topic (node n ch next) ≡ some ys
          → Memᴰ (saved (text_of (this_topic topic n.topic) ts)) ys)
      → Memᴰ l (below_first (leaves_at ts) t h)
      → tree_items stores sessions topic h ≡ some xs
      → Memᴰ (saved (text_of (this_topic topic t) ts)) xs
  unfolding tree_items
  below_first-saved t ts topic end xs f m e = absurd (Memᴰ.not-nil m)
  below_first-saved t ts topic (node n ch next) xs f m e = elim (Bool-cases (str_eq n.topic t)) [
    | inl same ↦ rw (← str_eq-eq n.topic t same) (f n ch next xs (rw same at m) e)
    | inr other ↦
        both_right _ _ xs _ e λ ys k. below_first-saved t ts topic next ys f (rw other at m) k
  ]

  -- A leaf at a path below a node is saved under the text of the path.
  leaves_at-saved :
      (p : List Bytes) (topic : Bytes) (n : Node) (ch next : Hier) (xs : List Item)
      → Memᴰ l (leaves_at p n ch)
      → tree_items stores sessions topic (node n ch next) ≡ some xs
      → Memᴰ (saved (text_of (this_topic topic n.topic) p)) xs
  unfolding tree_items
  leaves_at-saved [] topic n ch next xs m e =
      let t = this_topic topic n.topic in
      let here = both (leaf_items sessions t n.subs) (retained_items stores n.retained) in
      both_left (both here (tree_items stores sessions t ch))
        (tree_items stores sessions topic next) xs (saved t) e
        λ ys e1. both_left here (tree_items stores sessions t ch) ys (saved t) e1 λ zs e2.
          both_left (leaf_items sessions t n.subs) (retained_items stores n.retained) zs (saved t)
            e2 λ ws e3. leaf_items-saved t n.subs ws m e3
  leaves_at-saved (t ∷ p) topic n ch next xs m e =
      let u = this_topic topic n.topic in
      let x = saved (text_of (this_topic u t) p) in
      let here = both (leaf_items sessions u n.subs) (retained_items stores n.retained) in
      both_left (both here (tree_items stores sessions u ch))
        (tree_items stores sessions topic next) xs x e
        λ ys e1. both_right here (tree_items stores sessions u ch) ys x e1 λ zs e2.
          below_first-saved t p u ch zs (λ n' ch' next' ws. leaves_at-saved p u n' ch' next' ws) m
            e2

  -- A leaf of a session that is kept, at the node of a filter, is among the items of the tree. What
  -- is saved of the filter is the filter itself where it begins neither with a slash nor with a
  -- dollar sign. Else slashes at the start are missing, or the first level stands there twice.
  pub tree_items-saved_filter :
      (roots : Hier) (filter : Bytes) (xs : List Item)
      → Memᴰ l (below_first (leaves_at (path_of filter)) (first_token filter) roots)
      → tree_items stores sessions [] roots ≡ some xs
      → Memᴰ (saved (saved_filter filter)) xs
  tree_items-saved_filter roots filter xs m e = rw (← text_of-path_of filter) (
      below_first-saved (first_token filter) (path_of filter) [] roots xs
        (λ n ch next ys. leaves_at-saved (path_of filter) [] n ch next ys) m e)
