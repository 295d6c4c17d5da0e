-- ===== src/Persist/Consume.antt =====
-- The readers of src/persist.c of mosquitto-1.4.2 leave at most the bytes that they are given.
use mathlib.Core.Option
use wirenboard.Common.{
  ℕ, zero, suc, ◌≤◌, arith, Bool, true, false, not, ◌==◌, Option, none, some, [], ◌∷◌, Bytes,
  length, Bool-cases, inl, inr,
}
use wirenboard.Persist.Input.{
  Result, ok, error, fault, bind, error_if, take_bytes, read, read_be, read_le,
}
use wirenboard.Persist.Read.{read_id, read_source, read_payload, read_text}

-- A result leaves `n` bytes at most.
abbrev pub AtMost : {A : Type 0} → ℕ → Result (A × Bytes) → Type 0
AtMost n (ok (a, rest)) = length rest ≤ n
AtMost n error = Unit
AtMost n fault = Unit

pub AtMost-bind :
    {A B : Type 0} (n : ℕ) (x : Result (A × Bytes)) (f : A × Bytes → Result (B × Bytes))
    → AtMost n x
    → ((a : A) → (ys : Bytes) → length ys ≤ n → AtMost n (f (a, ys)))
    → AtMost n (bind x f)
AtMost-bind n (ok (a, ys)) f h hf = hf a ys h
AtMost-bind n error f h hf = tt
AtMost-bind n fault f h hf = tt

-- The bytes behind those that were taken are `n` at most.
abbrev Behind : ℕ → Option (Bytes × Bytes) → Type 0
Behind n none = Unit
Behind n (some (xs, rest)) = length rest ≤ n

Behind-map :
    (n b : ℕ) (o : Option (Bytes × Bytes))
    → Behind n o
    → Behind (suc n) (Option.map (λ (xs, rest). (b ∷ xs, rest)) o)
Behind-map n b none h = tt
Behind-map n b (some (xs, rest)) h = omega arith

take_bytes-Behind : (n : ℕ) (bs : Bytes) → Behind (length bs) (take_bytes n bs)
unfolding take_bytes
take_bytes-Behind zero bs = omega arith
take_bytes-Behind (suc n) [] = tt
take_bytes-Behind (suc n) (b ∷ bs) =
    Behind-map (length bs) b (take_bytes n bs) (take_bytes-Behind n bs)

read-Behind :
    (m n : ℕ) (o : Option (Bytes × Bytes))
    → m ≤ n
    → Behind m o
    → AtMost n (elim o as (λ x. Result (Bytes × Bytes)) [ none ↦ error | some r ↦ ok r ])
read-Behind m n none h k = tt
read-Behind m n (some (xs, rest)) h k = omega arith

module _ {n : ℕ} where
  pub error_if-AtMost : (b : Bool) (bs : Bytes) → length bs ≤ n → AtMost n (error_if b bs)
  error_if-AtMost true bs h = tt
  error_if-AtMost false bs h = h

  read-AtMost : (k : ℕ) (bs : Bytes) → length bs ≤ n → AtMost n (read k bs)
  unfolding read
  read-AtMost k bs h = read-Behind (length bs) n (take_bytes k bs) h (take_bytes-Behind k bs)

  pub read_be-AtMost : (k : ℕ) (bs : Bytes) → length bs ≤ n → AtMost n (read_be k bs)
  unfolding read_be
  read_be-AtMost k bs h = AtMost-bind n _ _ (read-AtMost k bs h) λ a ys h1. h1

  pub read_le-AtMost : (k : ℕ) (bs : Bytes) → length bs ≤ n → AtMost n (read_le k bs)
  unfolding read_le
  read_le-AtMost k bs h = AtMost-bind n _ _ (read-AtMost k bs h) λ a ys h1. h1

  pub read_id-AtMost : (m : Bool) (bs : Bytes) → length bs ≤ n → AtMost n (read_id m bs)
  unfolding read_id
  read_id-AtMost m bs h = AtMost-bind n _ _ (read_be-AtMost 2 bs h) λ slen b1 h1.
      AtMost-bind n _ _ (error_if-AtMost (slen == 0) b1 h1) λ _ b2 h2.
        AtMost-bind n _ _ (error_if-AtMost (not m) b2 h2)
          λ _ b3 h3. AtMost-bind n _ _ (read-AtMost slen b3 h3) λ id b4 h4. h4

  pub read_text-AtMost : (m : Bool) (bs : Bytes) → length bs ≤ n → AtMost n (read_text m bs)
  unfolding read_text
  read_text-AtMost m bs h = AtMost-bind n _ _ (read_be-AtMost 2 bs h) λ slen b1 h1.
      AtMost-bind n _ _ (error_if-AtMost (not m) b1 h1)
        λ _ b2 h2. AtMost-bind n _ _ (read-AtMost slen b2 h2) λ s b3 h3. h3

  pub read_source-AtMost :
      (m : Bool) (slen : ℕ) (bs : Bytes) → length bs ≤ n → AtMost n (read_source m slen bs)
  unfolding read_source
  read_source-AtMost m slen bs h = elim (Bool-cases (slen == 0)) [
    | inl e ↦ rw (read_source, e) h
    | inr e ↦
        rw (read_source, e)
          (AtMost-bind n _ _ (error_if-AtMost (not m) bs h)
            λ _ b1 h1. AtMost-bind n _ _ (read-AtMost slen b1 h1) λ s b2 h2. h2)
  ]

  pub read_payload-AtMost :
      (m : Bool) (len : ℕ) (bs : Bytes) → length bs ≤ n → AtMost n (read_payload m len bs)
  unfolding read_payload
  read_payload-AtMost m len bs h = elim (Bool-cases (len == 0)) [
    | inl e ↦ rw (read_payload, e) h
    | inr e ↦
        rw (read_payload, e)
          (AtMost-bind n _ _ (error_if-AtMost (not m) bs h) λ _ b1 h1. read-AtMost len b1 h1)
  ]
