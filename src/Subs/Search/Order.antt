-- ===== src/Subs/Search/Order.antt =====
-- The search against the meaning of the wildcards: the nodes whose path matches the topic, in the
-- order of the tree.
use wirenboard.Common.{
  ◌≡◌, ◌∙◌, refl, sym, ap, arith, Bool, true, false, ◌||◌, if◌then◌else◌, Bool-cases, inl, inr,
  List, [], ◌∷◌, map, Bytes, str_eq, All,
}
use wirenboard.Topic.Levels.{hash, plus, is_plain}
use wirenboard.Subs.Tree.{Node, Hier, end, node}
use wirenboard.Subs.Search.{descend, wildcard, pass, visit_of, is_last, sub_search}
use wirenboard.Subs.Search.Entries.{
  under, entries, IsEnded, deliver, hash_plain, hit_nohash, deliver-append, deliver-under,
  deliver-under_miss, deliver_one, deliver-under_nil,
}

module _ {S : Type 0} (process : Bool → Node → S → Node × S) where
  -- What a branch makes of the state.
  abbrev branch_deliver : Node → Hier → List Bytes → Bool → S → S
  branch_deliver n ch tokens sr s =
      deliver process (record { path = n.topic ∷ []; at = n } ∷ []) tokens sr
        (deliver process (map (under n.topic) (entries ch)) tokens sr s)

  branch_descend :
      (n : Node) (ch : Hier) (t : Bytes) (ts : List Bytes) (sr : Bool) (s : S)
      → is_plain t ≡ true
      → (str_eq n.topic t || str_eq n.topic plus) ≡ true
      → (r : S) → r ≡ deliver process (entries ch) ts (if str_eq n.topic plus then false else sr) s
      → branch_deliver n ch (t ∷ ts) sr s
        ≡ (if is_last ts then (process (if str_eq n.topic plus then false else sr) n r).1 else r)
  branch_descend n ch t ts sr s plain hit r e =
      let nohash = hit_nohash n.topic t plain hit in
      deliver_one process n t ts sr _ plain nohash hit
      ∙ rw (deliver-under process n.topic t ts (entries ch) sr s plain nohash hit, e) refl

  branch_wildcard :
      (n : Node) (tokens : List Bytes) (sr : Bool) (s : S)
      → All (λ t. is_plain t ≡ true) tokens
      → str_eq n.topic hash ≡ true
      → branch_deliver n end tokens sr s ≡ (process false n s).1
  branch_wildcard n [] sr s plain h = ground arith
  branch_wildcard n (t ∷ ts) sr s plain h =
      let differ = hash_plain n.topic t plain.0 h in ground arith

  branch_pass :
      (n : Node) (ch : Hier) (tokens : List Bytes) (sr : Bool) (s : S)
      → visit_of n ch tokens ≡ pass
      → str_eq n.topic hash ≡ false
      → branch_deliver n ch tokens sr s ≡ s
  unfolding visit_of
  branch_pass n ch [] sr s e h =
      rw (deliver-under_nil process n.topic (entries ch) sr s h) (ground arith)
  branch_pass n ch (t ∷ ts) sr s e h =
      let miss : (str_eq n.topic t || str_eq n.topic plus) ≡ false = ground arith in
      rw (deliver-under_miss process n.topic t ts (entries ch) sr s h miss) (ground arith)

  -- What is left for a node, by what its visit is, when its siblings are dealt with.
  module _ (n : Node) (ch next : Hier) (tokens : List Bytes) (sr : Bool) (s : S)
      (siblings : (s' : S)
        → (sub_search process next tokens sr s').state
          ≡ deliver process (entries next) tokens sr s') where
    node_split :
        deliver process (entries (node n ch next)) tokens sr s
        ≡ deliver process (entries next) tokens sr (branch_deliver n ch tokens sr s)
    node_split =
        deliver-append process (map (under n.topic) (entries ch))
          (record { path = n.topic ∷ []; at = n } ∷ entries next) tokens sr s

    node_pass :
        str_eq n.topic hash ≡ false
        → visit_of n ch tokens ≡ pass
        → (sub_search process (node n ch next) tokens sr s).state
          ≡ deliver process (entries (node n ch next)) tokens sr s
    unfolding sub_search
    node_pass h v =
        rw (v, sub_search) (siblings s)
        ∙ ap (deliver process (entries next) tokens sr) (sym (branch_pass n ch tokens sr s v h))
        ∙ sym node_split

    node_wildcard :
        All (λ t. is_plain t ≡ true) tokens
        → str_eq n.topic hash ≡ true
        → ch ≡ end
        → visit_of n ch tokens ≡ wildcard
        → (sub_search process (node n ch next) tokens sr s).state
          ≡ deliver process (entries (node n ch next)) tokens sr s
    unfolding sub_search
    node_wildcard plain h e v =
        rw (v, sub_search) (siblings (process false n s).1)
        ∙ ap (deliver process (entries next) tokens sr) (
            sym (branch_wildcard n tokens sr s plain h)
            ∙ ap (λ c. branch_deliver n c tokens sr s) (sym e))
        ∙ sym node_split

    node_descend :
        (ts : List Bytes) (r : S)
        → visit_of n ch tokens ≡ descend ts
        → r ≡ (sub_search process ch ts (if str_eq n.topic plus then false else sr) s).state
        → branch_deliver n ch tokens sr s
          ≡ (if is_last ts then (process (if str_eq n.topic plus then false else sr) n r).1 else r)
        → (sub_search process (node n ch next) tokens sr s).state
          ≡ deliver process (entries (node n ch next)) tokens sr s
    unfolding sub_search
    node_descend ts r v e b =
        let sr' = if str_eq n.topic plus then false else sr in
        let r0 = (sub_search process ch ts sr' s).state in
        let s' = (if is_last ts then process sr' n r0 else (n, r0)).1 in
        let same : s' ≡ branch_deliver n ch tokens sr s = rw (b, e) (ground arith) in
        rw (v, sub_search) (siblings s')
        ∙ ap (deliver process (entries next) tokens sr) same
        ∙ sym node_split

  sub_search_lem :
      (h : Hier) (tokens : List Bytes) (sr : Bool) (s : S)
      → IsEnded h
      → All (λ t. is_plain t ≡ true) tokens
      → (sub_search process h tokens sr s).state ≡ deliver process (entries h) tokens sr s
  unfolding sub_search visit_of
  sub_search_lem end tokens sr s ended plain = refl
  sub_search_lem (node n ch next) [] sr s ended plain =
      let siblings = λ (s' : S). sub_search_lem next [] sr s' ended.2 plain in
      elim (Bool-cases (str_eq n.topic hash)) [
        | inl h ↦
            node_wildcard n ch next [] sr s siblings plain h (ended.0 h) (rw (h, ended.0 h) refl)
        | inr h ↦ node_pass n ch next [] sr s siblings h (rw h refl)
      ]
  sub_search_lem (node n ch next) (t ∷ ts) sr s ended plain =
      let siblings = λ (s' : S). sub_search_lem next (t ∷ ts) sr s' ended.2 plain in
      let sr' = if str_eq n.topic plus then false else sr in
      let ih = sub_search_lem ch ts sr' s ended.1 plain.1 in
      elim (Bool-cases (str_eq n.topic t || str_eq n.topic plus)) [
        | inl hit ↦
            node_descend n ch next (t ∷ ts) sr s siblings ts _ (rw hit refl) refl
              (branch_descend n ch t ts sr s plain.0 hit _ ih)
        | inr miss ↦ (elim (Bool-cases (str_eq n.topic hash)) [
          | inl h ↦
              node_wildcard n ch next (t ∷ ts) sr s siblings plain h (ended.0 h)
                (rw (miss, h, ended.0 h) refl)
          | inr h ↦ node_pass n ch next (t ∷ ts) sr s siblings h (rw (miss, h) refl)
        ])
      ]

-- A topic without wildcards, in a tree where no `#` has anything below it: `_sub_search` processes
-- exactly the nodes whose path matches the topic, level by level, each once and in the order of the
-- tree, and it may set a retained message at the node of the topic itself only.
pub sub_search-deliver :
    {S : Type 0} (process : Bool → Node → S → Node × S) (h : Hier) (tokens : List Bytes) (s : S)
    → IsEnded h
    → All (λ t. is_plain t ≡ true) tokens
    → (sub_search process h tokens true s).state ≡ deliver process (entries h) tokens true s
sub_search-deliver process h tokens s ended plain =
    sub_search_lem process h tokens true s ended plain
