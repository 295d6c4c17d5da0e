-- ===== src/Persist/Output.antt =====
-- `write_e` of src/persist.h of mosquitto-1.4.2: what a sequence of `fwrite`s leaves in a file.
-- How many bytes the calls of `fwrite` take at most is given; behind the list they take all.
use wirenboard.Common.{ℕ, Bool, true, false, leb, List, [], ◌∷◌, ◌++◌, Bytes, length, take}

pub record Out : Type 0 where
  pub file : Bytes
  pub results : List ℕ

-- All was written, the label `error` was reached, or a pointer to nothing was followed.
pub data Status : Type 0 where
  done failed broken : Status

pub record Wrote : Type 0 where
  pub out : Out
  pub status : Status

abbrev FWrite : Type 0
FWrite = record { out : Out; whole : Bool }

unfoldable pub fwrite : Bytes → Out → FWrite
fwrite bs o = elim o.results [
  | [] ↦ record { out = record o { file = o.file ++ bs }; whole = true }
  | r ∷ rs ↦ record {
    out = record { file = o.file ++ take r bs; results = rs };
    whole = leb (length bs) r;
  }
]

unfoldable pub write_all : List Bytes → Out → Wrote
write_all [] o = record { out = o; status = done }
write_all (f ∷ fs) o =
    let w = fwrite f o in
    elim w.whole [ true ↦ write_all fs w.out | false ↦ record { out = w.out; status = failed } ]

-- The calls behind a call that went well.
abbrev pub then_write : Wrote → (Out → Wrote) → Wrote
then_write w f = elim w.status [ done ↦ f w.out | failed ↦ w | broken ↦ w ]

-- A field that is left out where it is empty.
abbrev pub optional : Bytes → List Bytes
optional [] = []
optional (b ∷ bs) = (b ∷ bs) ∷ []

-- The fields in front of what follows them.
abbrev pub joined : List Bytes → Bytes → Bytes
joined [] rest = rest
joined (f ∷ fs) rest = f ++ joined fs rest
