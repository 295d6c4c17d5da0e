-- ===== src/Persist/Input.antt =====
-- `read_e` of src/persist.h of mosquitto-1.4.2: a `Reader A` reads an `A` from the bytes that are
-- left of a file and returns it with the bytes behind it.
use mathlib.Core.Option
use wirenboard.Common.{ℕ, zero, suc, Bool, if◌then◌else◌, ◌==◌, Option, none, some, [], ◌∷◌, Bytes}
use wirenboard.Persist.Format.{of_be, of_le}

-- A restore that goes on, one that ends with a return code other than 0, and a pointer to nothing
-- that is followed. The broker does not start where the database is not restored: what an error
-- leaves of the state is not kept.
pub data Result {ℓ} (A : Type ℓ) : Type ℓ where
  ok : A → Result A
  error fault : Result A

abbrev pub bind {ℓ κ} : {A : Type ℓ} {B : Type κ} → Result A → (A → Result B) → Result B
bind (ok a) f = f a
bind error f = error
bind fault f = fault

abbrev pub Reader {ℓ} : Type ℓ → Type ℓ
Reader A = Bytes → Result (A × Bytes)

abbrev pub pure {ℓ} : {A : Type ℓ} → A → Reader A
pure a bs = ok (a, bs)

module _ {ℓ κ} {A : Type ℓ} {B : Type κ} where
  infixl 1 ◌>>=◌ ◌>>◌
  abbrev pub ◌>>=◌ : Reader A → (A → Reader B) → Reader B
  r >>= f = λ bs. bind (r bs) λ (a, rest). f a rest

  abbrev pub ◌>>◌ : Reader A → Reader B → Reader B
  r >> q = r >>= λ _. q

-- `goto error`, or another return
abbrev pub error_if : Bool → Reader (Unit {0})
error_if b bs = if b then error else ok (tt, bs)

unfoldable pub take_bytes : ℕ → Bytes → Option (Bytes × Bytes)
take_bytes zero bs = some ([], bs)
take_bytes (suc n) [] = none
take_bytes (suc n) (b ∷ bs) = Option.map (λ (xs, rest). (b ∷ xs, rest)) (take_bytes n bs)

-- `read_e`
unfoldable pub read : ℕ → Reader Bytes
read n bs = elim (take_bytes n bs) [ none ↦ error | some r ↦ ok r ]

-- A number behind `ntohs` or `ntohl`, or a byte
unfoldable pub read_be : ℕ → Reader ℕ
read_be n = do bs ← read n; pure (of_be 0 bs)

-- A number in the order of the memory
unfoldable pub read_le : ℕ → Reader ℕ
read_le n = do bs ← read n; pure (of_le bs)

-- What a text is for the string functions: up to the first byte that is 0.
abbrev pub c_string : Bytes → Bytes
c_string [] = []
c_string (b ∷ bs) = let rest = c_string bs in if b == 0 then [] else b ∷ rest
