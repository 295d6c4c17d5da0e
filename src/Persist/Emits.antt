-- ===== src/Persist/Emits.antt =====
-- What it is that a writer of src/persist.c of mosquitto-1.4.2 implements a list of items: where no
-- `fwrite` fails, it puts the bytes of the items behind the file.
use wirenboard.Common.{
  ◌≡◌, subst, refl, sym, Option, none, some, List, [], ◌∷◌, ◌++◌, append_assoc, append-nil, Bytes,
  All,
}
use wirenboard.Persist.Output.{
  Out, done, broken, Wrote, fwrite, write_all, then_write, optional, joined,
}
use wirenboard.Persist.Items.{Item, fields, encode, Fits}
use wirenboard.Persist.Contents.{both}

-- A file for which every `fwrite` writes all.
abbrev pub complete : Bytes → Out
complete file = record { file = file; results = [] }

abbrev pub wrote : Bytes → Wrote
wrote file = record { out = complete file; status = done }

pub write_all-complete :
    (fs : List Bytes) (file : Bytes) → write_all fs (complete file) ≡ wrote (file ++ joined fs [])
unfolding write_all fwrite
write_all-complete [] file = rw (append-nil file) refl
write_all-complete (f ∷ fs) file =
    rw (write_all-complete fs (file ++ f), append_assoc file f (joined fs [])) refl

pub joined-optional :
    (s : Bytes) (fs : List Bytes) (rest : Bytes)
    → joined (optional s ++ fs) rest ≡ s ++ joined fs rest
joined-optional [] fs rest = refl
joined-optional (c ∷ s) fs rest = refl

pub optional-joined : (s : Bytes) (rest : Bytes) → joined (optional s) rest ≡ s ++ rest
optional-joined [] rest = refl
optional-joined (c ∷ s) rest = refl

pub joined-append : (fs : List Bytes) (xs ys : Bytes) → joined fs (xs ++ ys) ≡ joined fs xs ++ ys
joined-append [] xs ys = refl
joined-append (f ∷ fs) xs ys = rw (joined-append fs xs ys, append_assoc f (joined fs xs) ys) refl

pub encode-append : (xs ys : List Item) → encode (xs ++ ys) ≡ encode xs ++ encode ys
encode-append [] ys = refl
encode-append (x ∷ xs) ys =
    rw (encode-append xs ys, joined-append (fields x) (encode xs) (encode ys)) refl

-- What a writer does: the bytes of its items come behind the file.
abbrev pub Emits : (Out → Wrote) → List Item → Type 0
Emits f xs = (file : Bytes) → f (complete file) ≡ wrote (file ++ encode xs)

pub Emits-then_write :
    (f g : Out → Wrote) (xs ys : List Item)
    → Emits f xs
    → Emits g ys
    → Emits (λ o. then_write (f o) g) (xs ++ ys)
Emits-then_write f g xs ys hf hg file =
    rw
      (
        hf file,
        hg (file ++ encode xs),
        encode-append xs ys,
        append_assoc file (encode xs) (encode ys),
      )
      refl

pub both_cases :
    (o p : Option (List Item)) (zs : List Item)
    → both o p ≡ some zs
    → (xs : List Item) × (ys : List Item) × (o ≡ some xs) × (p ≡ some ys) × (zs ≡ xs ++ ys)
both_cases (some xs) (some ys) zs h = (xs, ys, refl, refl, cc)
both_cases none p zs h = cc
both_cases (some xs) none zs h = cc

-- The writer of one item
pub Emits-write_all :
    (fs : List Bytes) (x : Item) → joined fs [] ≡ encode (x ∷ []) → Emits (write_all fs) (x ∷ [])
Emits-write_all fs x h file = rw (write_all-complete fs file, h) refl

pub All-both : (xs ys : List Item) → All Fits (xs ++ ys) → All Fits xs × All Fits ys
All-both [] ys h = (tt, h)
All-both (x ∷ xs) ys h = let r = All-both xs ys h.1 in ((h.0, r.0), r.1)

-- A writer with its items: where these are defined and fit, it puts them behind the file.
abbrev pub Implements : (Out → Wrote) → Option (List Item) → Type 0
Implements f o = (xs : List Item) → o ≡ some xs → All Fits xs → Emits f xs

pub Implements-nothing : Implements (λ o. record { out = o; status = done }) (some [])
Implements-nothing [] h fits file = rw (append-nil file) refl
Implements-nothing (x ∷ xs) h fits file = cc

pub Implements-both :
    (f g : Out → Wrote) (o p : Option (List Item))
    → Implements f o
    → Implements g p
    → Implements (λ out. then_write (f out) g) (both o p)
Implements-both f g o p hf hg zs h fits =
    let r = both_cases o p zs h in
    let fits' = All-both r.0 r.1 (subst (All Fits) r.4 fits) in
    subst (Emits (λ out. then_write (f out) g)) (sym r.4)
      (Emits-then_write f g r.0 r.1 (hf r.0 r.2 fits'.0) (hg r.1 r.3 fits'.1))

-- The writer of one item, whose fields are the item's where it fits.
pub Implements-write_all :
    (fs : List Bytes) (x : Item)
    → (Fits x → joined fs [] ≡ encode (x ∷ []))
    → Implements (write_all fs) (some (x ∷ []))
Implements-write_all fs x e xs h fits =
    let same : x ∷ [] ≡ xs = cc in
    let fit : Fits x = (subst (All Fits) (sym same) fits).0 in
    subst (Emits (write_all fs)) same (Emits-write_all fs x (e fit))

pub Implements-broken : Implements (λ o. record { out = o; status = broken }) none
Implements-broken xs h = cc
