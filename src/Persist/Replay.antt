-- ===== src/Persist/Replay.antt =====
-- `mqtt3_db_restore` of src/persist.c of mosquitto-1.4.2 on the bytes of a list of items: the items
-- take effect one behind the other.
use wirenboard.Common.{
  ℕ, zero, suc, ◌+◌, ◌%◌, ◌^◌, ◌≤◌, ◌<◌, ◌≡◌, refl, arith, Bool, true, false, some, List, [], ◌∷◌,
  ◌++◌, Bytes, length, length-append, All,
}
use wirenboard.Persist.Format.{be32, Database, byte, le, flag, magic}
use wirenboard.Persist.Output.{joined}
use wirenboard.Persist.Input.{Result, ok, error, fault, bind, read, read_be, take_bytes}
use wirenboard.Persist.Contexts.{Loading}
use wirenboard.Persist.Restore.{
  Start, config_restore, msg_store_chunk_restore, client_msg_chunk_restore, retain_chunk_restore,
  sub_chunk_restore, client_chunk_restore, chunk_restore, chunk_step, restore_loop, read_header,
  restore,
}
use wirenboard.Persist.Items.{
  Item, config, stored, message, retained, subscribed, client, kind, fields, encode, Fits,
  item_restore, replay,
}
use wirenboard.Persist.Reading.{
  HasTexts, read_le-le, read_be-be16, read_be-byte, read_client-client, read_be-be32_cut,
  read_be-nil, read_sub-subscribed, read_client_msg-message, read_msg_store-stored,
}

flag_bound : (b : Bool) → flag b < 2 ^ 8
flag_bound true = omega arith
flag_bound false = omega arith

-- A chunk without its head does what its item does, and the bytes behind it are left.
chunk_restore-fields :
    (st : Start) (i len : ℕ) (x : Item) (l : Loading) (rest : Bytes)
    → HasTexts (st.memory i)
    → Fits x
    → chunk_restore st 3 (st.memory i) (kind x) len l (joined (fields x) rest)
      ≡ bind (item_restore st i x l) (λ l'. ok (l', rest))
unfolding chunk_restore config_restore msg_store_chunk_restore client_msg_chunk_restore
    retain_chunk_restore sub_chunk_restore client_chunk_restore item_restore
chunk_restore-fields st i len (config s last) l rest t h =
    rw
      (
        read_be-byte (flag s) (byte 8 ++ (le 8 last ++ rest)) (flag_bound s),
        read_be-byte 8 (le 8 last ++ rest) (omega arith),
        read_le-le last rest h,
      )
      refl
chunk_restore-fields st i len (stored c) l rest t h =
    rw (read_msg_store-stored (st.memory i) c rest t h) refl
chunk_restore-fields st i len (message m) l rest t h =
    rw (read_client_msg-message (st.memory i) m rest t h) refl
chunk_restore-fields st i len (retained s) l rest t h = rw (read_le-le s rest h) refl
chunk_restore-fields st i len (subscribed c) l rest t h =
    rw (read_sub-subscribed (st.memory i) c rest t h) refl
chunk_restore-fields st i len (client c) l rest t h =
    rw (read_client-client st.now (st.memory i) c rest t h) refl

chunk_step-fields :
    (st : Start) (i : ℕ) (x : Item) (l : Loading) (rest : Bytes)
    → HasTexts (st.memory i)
    → Fits x
    → chunk_step st 3 i (kind x) l (be32 (length (joined (fields x) [])) ++ joined (fields x) rest)
      ≡ bind (item_restore st i x l) (λ l'. ok (l', rest))
unfolding chunk_step
chunk_step-fields st i x l rest t h =
    let n = length (joined (fields x) []) in
    rw (read_be-be32_cut n (joined (fields x) rest))
      (chunk_restore-fields st i (n % 2 ^ 32) x l rest t h)

kind_bound : (x : Item) → kind x < 2 ^ 16
kind_bound (config _ _) = omega arith
kind_bound (stored _) = omega arith
kind_bound (message _) = omega arith
kind_bound (retained _) = omega arith
kind_bound (subscribed _) = omega arith
kind_bound (client _) = omega arith

bind_rest :
    {rest : Bytes} (r : Result Loading) (f : Loading → Bytes → Result Loading)
    (g : Loading → Result Loading)
    → ((l : Loading) → f l rest ≡ g l)
    → bind (bind r (λ l. ok (l, rest))) (λ (l, bs). f l bs) ≡ bind r g
bind_rest (ok l) f g h = h l
bind_rest error f g h = refl
bind_rest fault f g h = refl

-- The loop over the bytes of a list of items replays them, with more fuel than items.
restore_loop-encode :
    (fuel : ℕ) (st : Start) (i : ℕ) (xs : List Item) (l : Loading)
    → length xs < fuel
    → ((j : ℕ) → HasTexts (st.memory j))
    → All Fits xs
    → restore_loop fuel st 3 i l (encode xs) ≡ replay st i xs l
unfolding restore_loop replay
restore_loop-encode zero st i xs l h t fits = absurd (omega arith)
restore_loop-encode (suc fuel) st i [] l h t fits = rw (restore_loop, read_be-nil) refl
restore_loop-encode (suc fuel) st i (x ∷ xs) l h t fits =
    let body = be32 (length (joined (fields x) [])) ++ joined (fields x) (encode xs) in
    rw
      (
        restore_loop,
        read_be-be16 (kind x) body (kind_bound x),
        chunk_step-fields st i x l (encode xs) (t i) fits.0,
      )
      (bind_rest (item_restore st i x l) (λ l'. restore_loop fuel st 3 (suc i) l')
        (λ l'. replay st (suc i) xs l')
        (λ l'. restore_loop-encode fuel st (suc i) xs l' (omega arith) t fits.1))

length-joined :
    (fs : List Bytes) (rest : Bytes) → length (joined fs rest) ≡ length (joined fs []) + length rest
length-joined [] rest = omega arith
length-joined (f ∷ fs) rest =
    omega (
      arith,
      length-append f (joined fs rest),
      length-append f (joined fs []),
      length-joined fs rest,
    )

length-encode : (xs : List Item) → length xs ≤ length (encode xs)
length-encode [] = omega arith
length-encode (x ∷ xs) = omega (arith, length-encode xs, length-joined (fields x) (encode xs))

-- The bytes of a database file with these items.
abbrev pub database_file : List Item → Bytes
database_file xs = joined (magic ∷ be32 0 ∷ be32 3 ∷ []) (encode xs)

read_header-header :
    (rest : Bytes) → read_header (joined (magic ∷ be32 0 ∷ be32 3 ∷ []) rest) ≡ ok (3, rest)
unfolding read_header read_be read take_bytes
read_header-header rest = refl

-- A file that consists of a header and of items that fit their fields is restored by the effects
-- of the items, in their order, where the texts of the chunks are allocated.
pub restore-database_file :
    (st : Start) (xs : List Item) (w : Database)
    → ((j : ℕ) → HasTexts (st.memory j))
    → All Fits xs
    → restore st (some (database_file xs)) w
      ≡ bind (replay st 0 xs (record { world = w; loads = [] })) (λ l. ok l.world)
unfolding restore
restore-database_file st xs w t fits =
    rw
      (
        read_header-header (encode xs),
        restore_loop-encode (suc (length (encode xs))) st 0 xs (record { world = w; loads = [] })
            (omega (arith, length-encode xs)) t fits,
      )
      refl
