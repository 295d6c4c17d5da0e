-- ===== src/Subs/Search/Entries.antt =====
-- The nodes of the tree with their paths, and the delivery to those that a topic matches.
use wirenboard.Common.{
  ◌≡◌, ◌∙◌, refl, ap, arith, Bool, true, false, ◌&&◌, ◌||◌, if◌then◌else◌, Bool-cases, inl, inr,
  List, [], ◌∷◌, ◌++◌, map, Bytes, str_eq, str_eq_iff,
}
use wirenboard.Topic.Levels.{hash, plus, is_plain, level_match}
use wirenboard.Subs.Tree.{Node, Hier, end, node}
use wirenboard.Subs.Paths.{path_eq}
use wirenboard.Subs.Search.{is_last}

-- A node and its path.
pub record Entry : Type 0 where
  pub path : List Bytes
  pub at : Node

abbrev pub under : Bytes → Entry → Entry
under t e = record e { path = t ∷ e.path }

-- All nodes of the tree: those below a node, then the node, then its siblings.
abbrev pub entries : Hier → List Entry
entries end = []
entries (node n ch next) =
    map (under n.topic) (entries ch) ++ record { path = n.topic ∷ []; at = n } ∷ entries next

-- A `#` has nothing below it.
abbrev pub IsEnded : Hier → Type 0
IsEnded end = Unit
IsEnded (node n ch next) = (str_eq n.topic hash ≡ true → ch ≡ end) × IsEnded ch × IsEnded next

pub plus_plain : (b t : Bytes) → is_plain t ≡ true → str_eq b plus ≡ true → str_eq b t ≡ false
plus_plain b t plain h = rw ((str_eq_iff b plus).0 h) (other t plain)
  where
    other : (u : Bytes) → is_plain u ≡ true → str_eq plus u ≡ false
    other [] p = refl
    other (c ∷ u) p = ground arith

pub hash_plain : (b t : Bytes) → is_plain t ≡ true → str_eq b hash ≡ true → str_eq b t ≡ false
hash_plain b t plain h = rw ((str_eq_iff b hash).0 h) (other t plain)
  where
    other : (u : Bytes) → is_plain u ≡ true → str_eq hash u ≡ false
    other [] p = refl
    other (c ∷ u) p = ground arith

pub hit_nohash :
    (b t : Bytes) → is_plain t ≡ true → (str_eq b t || str_eq b plus) ≡ true → str_eq b hash ≡ false
hit_nohash b t plain hit = elim (Bool-cases (str_eq b hash)) [
  | inr other ↦ other
  | inl same ↦ (let e = (str_eq_iff b hash).0 same in ground (arith, hash_plain b t plain same, e))
]

module _ {S : Type 0} (process : Bool → Node → S → Node × S) where
  -- The nodes of a list whose path matches the topic are processed one after the other; a retained
  -- message may be set where the path is the topic itself.
  abbrev pub deliver : List Entry → List Bytes → Bool → S → S
  deliver [] tokens sr s = s
  deliver (e ∷ es) tokens sr s =
      deliver es tokens sr
        (if level_match e.path tokens then (process (sr && path_eq e.path tokens) e.at s).1 else s)

  pub deliver-append :
      (xs ys : List Entry) (tokens : List Bytes) (sr : Bool) (s : S)
      → deliver (xs ++ ys) tokens sr s ≡ deliver ys tokens sr (deliver xs tokens sr s)
  deliver-append [] ys tokens sr s = refl
  deliver-append (x ∷ xs) ys tokens sr s = deliver-append xs ys tokens sr _

  step_under :
      (b t : Bytes) (ts : List Bytes) (e : Entry) (sr : Bool) (s : S)
      → (str_eq b plus ≡ true → str_eq b t ≡ false)
      → str_eq b hash ≡ false
      → (str_eq b t || str_eq b plus) ≡ true
      → (if level_match (b ∷ e.path) (t ∷ ts)
          then (process (sr && path_eq (b ∷ e.path) (t ∷ ts)) e.at s).1
          else s)
        ≡ (if level_match e.path ts
            then (process ((if str_eq b plus then false else sr) && path_eq e.path ts) e.at s).1
            else s)
  step_under b t ts e sr s plain nohash hit = ground arith

  -- Below a branch that matches the first token, and below one that does not.
  pub deliver-under :
      (b t : Bytes) (ts : List Bytes) (es : List Entry) (sr : Bool) (s : S)
      → is_plain t ≡ true
      → str_eq b hash ≡ false
      → (str_eq b t || str_eq b plus) ≡ true
      → deliver (map (under b) es) (t ∷ ts) sr s
        ≡ deliver es ts (if str_eq b plus then false else sr) s
  deliver-under b t ts [] sr s plain nohash hit = refl
  deliver-under b t ts (e ∷ es) sr s plain nohash hit =
      deliver-under b t ts es sr _ plain nohash hit
      ∙ ap (deliver es ts (if str_eq b plus then false else sr))
          (step_under b t ts e sr s (plus_plain b t plain) nohash hit)

  pub deliver-under_miss :
      (b t : Bytes) (ts : List Bytes) (es : List Entry) (sr : Bool) (s : S)
      → str_eq b hash ≡ false
      → (str_eq b t || str_eq b plus) ≡ false
      → deliver (map (under b) es) (t ∷ ts) sr s ≡ s
  deliver-under_miss b t ts [] sr s nohash miss = refl
  deliver-under_miss b t ts (e ∷ es) sr s nohash miss =
      deliver-under_miss b t ts es sr _ nohash miss ∙ ground arith

  -- The node of a branch itself, when its name is the first token's, or a `+`.
  pub deliver_one :
      (n : Node) (t : Bytes) (ts : List Bytes) (sr : Bool) (s : S)
      → is_plain t ≡ true
      → str_eq n.topic hash ≡ false
      → (str_eq n.topic t || str_eq n.topic plus) ≡ true
      → deliver (record { path = n.topic ∷ []; at = n } ∷ []) (t ∷ ts) sr s
        ≡ (if is_last ts then (process (if str_eq n.topic plus then false else sr) n s).1 else s)
  deliver_one n t [] sr s plain nohash hit = let p = plus_plain n.topic t plain in ground arith
  deliver_one n t (u ∷ ts) sr s plain nohash hit = ground arith

  pub deliver-under_nil :
      (b : Bytes) (es : List Entry) (sr : Bool) (s : S)
      → str_eq b hash ≡ false
      → deliver (map (under b) es) [] sr s ≡ s
  deliver-under_nil b [] sr s nohash = refl
  deliver-under_nil b (e ∷ es) sr s nohash = deliver-under_nil b es sr _ nohash ∙ ground arith
