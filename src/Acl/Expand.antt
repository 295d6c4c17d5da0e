-- ===== src/Acl/Expand.antt =====
-- The buffer for an expanded pattern has the size that the loop fills.
use wirenboard.Common.{
  ℕ, List, ◌+◌, ◌*◌, ◌≤◌, ◌≡◌, ◌∙◌, refl, arith, true, false, ◌&&◌, ◌==◌, Option, none, some, [],
  ◌∷◌, ◌++◌, Bytes, length, length-append, All, ==_iff, Bool-cases, inl, inr,
}
use wirenboard.Subs.Tokens.{Heap}
use wirenboard.Acl.{AclDb, add_acl_pattern, is_supplied, Acl, count_marker, new_pattern}
use wirenboard.Acl.Decision.{expand, local_acl}

one_more : (c l : ℕ) → (1 + c) * l ≡ l + c * l
one_more c l = omega arith

count_marker_beside :
    (m y : ℕ) (s : Bytes) → (y == b'%') ≡ false → count_marker m (y ∷ s) ≡ count_marker m s
unfolding count_marker
count_marker_beside m y [] other = refl
count_marker_beside m y (z ∷ s) other = rw (other, count_marker) refl

count_marker_here :
    (m x y : ℕ) (s : Bytes)
    → (x == b'%' && y == m) ≡ true
    → count_marker m (x ∷ y ∷ s) ≡ 1 + count_marker m s
unfolding count_marker
count_marker_here m x y s here = rw (here, count_marker) refl

count_marker_other :
    (m x y : ℕ) (s : Bytes)
    → (x == b'%' && y == m) ≡ false
    → count_marker m (x ∷ y ∷ s) ≡ count_marker m (y ∷ s)
unfolding count_marker
count_marker_other m x y s other = rw (other, count_marker) refl

module _ (id u : Bytes) (x y : ℕ) (s : Bytes) where
  expand_client :
      (x == b'%' && y == b'c') ≡ true → expand id (some u) (x ∷ y ∷ s) ≡ id ++ expand id (some u) s
  unfolding expand
  expand_client here = rw (here, expand) refl

  expand_user :
      (x == b'%' && y == b'c') ≡ false
      → (x == b'%' && y == b'u') ≡ true
      → expand id (some u) (x ∷ y ∷ s) ≡ u ++ expand id (some u) s
  unfolding expand
  expand_user other here = rw (other, here, expand) refl

  expand_other :
      (x == b'%' && y == b'c') ≡ false
      → (x == b'%' && y == b'u') ≡ false
      → expand id (some u) (x ∷ y ∷ s) ≡ x ∷ expand id (some u) (y ∷ s)
  unfolding expand
  expand_other other no_user = rw (other, no_user, expand) refl

module _ (id : Bytes) where
  length-expand_short :
      (u s : Bytes)
      → length s ≤ 1
      → length (expand id (some u) s) + 2 * count_marker b'c' s + 2 * count_marker b'u' s
        ≡ length s + count_marker b'c' s * length id + count_marker b'u' s * length u
  unfolding expand count_marker
  length-expand_short u [] h = omega arith
  length-expand_short u (x ∷ []) h = omega arith
  length-expand_short u (x ∷ y ∷ s) h = absurd (omega (arith, h))

  length-expand_named :
      (u s : Bytes)
      → length (expand id (some u) s) + 2 * count_marker b'c' s + 2 * count_marker b'u' s
        ≡ length s + count_marker b'c' s * length id + count_marker b'u' s * length u
  length-expand_named u [] = length-expand_short u [] (omega arith)
  length-expand_named u (x ∷ []) = length-expand_short u (x ∷ []) (omega arith)
  length-expand_named u (x ∷ y ∷ s) =
      let below = length-expand_named u s in
      let beside = length-expand_named u (y ∷ s) in
      elim (Bool-cases (x == b'%' && y == b'c')) [
        | inl here ↦
            (let plain : (y == b'%') ≡ false = ground arith in
              let not_u : (x == b'%' && y == b'u') ≡ false = ground arith in
              let a = count_marker_beside b'u' y s plain in
              let b = length-append id (expand id (some u) s) in
              rw
                (
                  expand_client id u x y s here,
                  count_marker_here b'c' x y s here,
                  count_marker_other b'u' x y s not_u ∙ a,
                )
                (omega (arith, below, b, one_more (count_marker b'c' s) (length id))))
        | inr not_c ↦ (elim (Bool-cases (x == b'%' && y == b'u')) [
          | inl here ↦
              (let plain : (y == b'%') ≡ false = ground arith in
                let a = count_marker_beside b'c' y s plain in
                let b = length-append u (expand id (some u) s) in
                rw
                  (
                    expand_user id u x y s not_c here,
                    count_marker_here b'u' x y s here,
                    count_marker_other b'c' x y s not_c ∙ a,
                  )
                  (omega (arith, below, b, one_more (count_marker b'u' s) (length u))))
          | inr not_u ↦
              rw
                (
                  expand_other id u x y s not_c not_u,
                  count_marker_other b'u' x y s not_u,
                  count_marker_other b'c' x y s not_c,
                )
                (omega (arith, beside))
        ])
      ]

  length-expand_nobody :
      (s : Bytes)
      → length (expand id none s) + 2 * count_marker b'c' s
        ≡ length s + count_marker b'c' s * length id
  unfolding expand count_marker
  length-expand_nobody [] = omega arith
  length-expand_nobody (x ∷ []) = omega arith
  length-expand_nobody (x ∷ y ∷ s) =
      let below = length-expand_nobody s in
      let beside = length-expand_nobody (y ∷ s) in
      elim (Bool-cases (x == b'%' && y == b'c')) [
        | inl here ↦
            (let b = length-append id (expand id none s) in
              rw (here, expand, count_marker)
                (omega (arith, below, b, one_more (count_marker b'c' s) (length id))))
        | inr other ↦ (elim (Bool-cases (x == b'%' && y == b'u')) [
          | inl u ↦ rw (other, u, expand, count_marker) (omega (arith, beside))
          | inr not_u ↦ rw (other, not_u, expand, count_marker) (omega (arith, beside))
        ])
      ]

-- The counts of a pattern are those of the markers in its topic.
pub record IsCounted (a : Acl) : Type 0 where
  pub of_client : a.ccount ≡ count_marker b'c' a.topic
  pub of_user : a.ucount ≡ count_marker b'u' a.topic

-- A pattern whose counts are those that `_add_acl_pattern` makes, and a client with or without a
-- user name: the loop of `mosquitto_acl_check_default` that replaces `%c` and `%u` fills the buffer
-- exactly, up to its NUL, so what is matched is the pattern with the names in the markers' places.
pub local_acl-expand :
    (id : Bytes) (user : Option Bytes) (a : Acl)
    → IsCounted a
    → local_acl id user a ≡ some (expand id user a.topic)
unfolding local_acl
local_acl-expand id none a counted =
    let c = counted.of_client in
    let e = length-expand_nobody id a.topic in
    let fits : (length (expand id none a.topic) + 2 * a.ccount + 2 * 0
          == length a.topic + a.ccount * length id + 0 * 0)
        ≡ true =
      (==_iff _ _).1 (rw c (omega (arith, e))) in
    rw (fits, local_acl) refl
local_acl-expand id (some u) a counted =
    let c = counted.of_client in
    let d = counted.of_user in
    let e = length-expand_named id u a.topic in
    let fits : (length (expand id (some u) a.topic) + 2 * a.ccount + 2 * a.ucount
          == length a.topic + a.ccount * length id + a.ucount * length u)
        ≡ true =
      (==_iff _ _).1 (rw (c, d) e) in
    rw (fits, local_acl) refl

pub new_pattern-IsCounted : (topic : Bytes) (access : ℕ) → IsCounted (new_pattern topic access)
unfolding new_pattern
new_pattern-IsCounted topic access = record { of_client = refl; of_user = refl }

All-snoc : (xs : List Acl) (x : Acl) → All IsCounted xs → IsCounted x → All IsCounted (xs ++ x ∷ [])
All-snoc [] x h k = (k, tt)
All-snoc (y ∷ xs) x h k = (h.0, All-snoc xs x h.1 k)

-- `_add_acl_pattern` keeps the counts of the patterns right.
pub add_acl_pattern-IsCounted :
    (topic : Option Bytes) (access : ℕ) (heap : Heap) (db : AclDb)
    → All IsCounted db.acl_patterns
    → All IsCounted (add_acl_pattern topic access heap db).0.acl_patterns
unfolding add_acl_pattern
add_acl_pattern-IsCounted none access heap db h = h
add_acl_pattern-IsCounted (some topic) access heap db h = elim (Bool-cases (is_supplied 2 heap)) [
  | inl there ↦
      rw (there, add_acl_pattern)
        (All-snoc db.acl_patterns (new_pattern topic access) h (new_pattern-IsCounted topic access))
  | inr lacking ↦ rw (lacking, add_acl_pattern) h
]
