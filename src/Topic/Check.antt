-- ===== src/Topic/Check.antt =====
-- The topic checks accept exactly the topics and the filters that the documentation allows.
use wirenboard.Common.{
  ℕ, ◌+◌, ◌≤◌, ◌≡◌, ◌≢◌, ◌↔◌, refl, arith, Bool, true, ◌&&◌, ◌||◌, if◌then◌else◌, ◌==◌, List, [],
  ◌∷◌, Bytes, All, length, leb, Bool-cases, inl, inr,
}
use wirenboard.Topic.{
  Validity, valid, invalid, pub_check_loop, pub_topic_check, sub_check_loop, sub_topic_check,
}
use wirenboard.Topic.Levels.{levels, is_plain, is_filter}

pub_check_loop_lem :
    (s : Bytes) (len : ℕ)
    → pub_check_loop s len ≡ (if is_plain s && leb (len + length s) 65535 then valid else invalid)
unfolding pub_check_loop
pub_check_loop_lem [] len = ground arith
pub_check_loop_lem (c ∷ s) len = ground (arith, pub_check_loop_lem s (len + 1))

-- `mosquitto_pub_topic_check` accepts a topic exactly if it has no wildcard character and at most
-- 65535 bytes.
pub pub_topic_check_lem :
    (s : Bytes) → (pub_topic_check s ≡ valid) ↔ ((is_plain s ≡ true) × (length s ≤ 65535))
unfolding pub_topic_check
pub_topic_check_lem s = ground (arith, pub_check_loop_lem s 0)

-- Levels that begin in the middle of one: its rest has no wildcard.
abbrev pub is_rest : List Bytes → Bool
is_rest [] = true
is_rest (l ∷ ls) = is_plain l && is_filter ls

-- A C string holds no NUL.
abbrev pub IsCString : Bytes → Type 0
IsCString = All (λ c. c ≢ 0)

pub levels-cons : (s : Bytes) → (l : Bytes) × (ls : List Bytes) × (levels s ≡ l ∷ ls)
levels-cons [] = ([], [], refl)
levels-cons (c ∷ s) =
    let (l, ls, e) = levels-cons s in
    elim (Bool-cases (c == b'/')) [
      | inl slash ↦ ([], levels s, rw slash)
      | inr other ↦ (c ∷ l, ls, rw (other, e))
    ]

-- The validity that the levels of a text allow behind the character `c`, at a length.
abbrev allowed : ℕ → Bytes → ℕ → Validity
allowed c s len =
    if (if c == 0 || c == b'/' then is_filter (levels s) else is_rest (levels s))
      && leb (len + length s) 65535
    then valid
    else invalid

sub_check_loop_one : (c x len : ℕ) → sub_check_loop c (x ∷ []) len ≡ allowed c (x ∷ []) len
unfolding sub_check_loop
sub_check_loop_one c x len = ground arith

sub_check_loop_step :
    (c x y : ℕ) (s l : Bytes) (ls : List Bytes) (len : ℕ)
    → levels s ≡ l ∷ ls
    → x ≢ 0
    → y ≢ 0
    → sub_check_loop x (y ∷ s) (len + 1) ≡ allowed x (y ∷ s) (len + 1)
    → sub_check_loop c (x ∷ y ∷ s) len ≡ allowed c (x ∷ y ∷ s) len
unfolding sub_check_loop
sub_check_loop_step c x y s l ls len e nx ne ih = rw (e, sub_check_loop) (ground (arith, e, ih))

sub_check_loop_lem :
    (c : ℕ) (s : Bytes) (len : ℕ) → IsCString s → sub_check_loop c s len ≡ allowed c s len
sub_check_loop_lem c [] len h = unfold sub_check_loop in ground arith
sub_check_loop_lem c (x ∷ []) len h = sub_check_loop_one c x len
sub_check_loop_lem c (x ∷ y ∷ s) len h =
    let (l, ls, e) = levels-cons s in
    sub_check_loop_step c x y s l ls len e h.0 h.1.0 (sub_check_loop_lem x (y ∷ s) (len + 1) h.1)

-- `mosquitto_sub_topic_check` accepts a filter exactly if each level is `+` or free of wildcards, or
-- is the last one and `#`, and it has at most 65535 bytes.
pub sub_topic_check_lem :
    (s : Bytes)
    → IsCString s
    → (sub_topic_check s ≡ valid) ↔ ((is_filter (levels s) ≡ true) × (length s ≤ 65535))
unfolding sub_topic_check
sub_topic_check_lem s h = ground (arith, sub_check_loop_lem 0 s 0 h)
