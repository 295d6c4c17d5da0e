-- ===== src/Broker/Queue/Counts.antt =====
-- The counters of a queue and its pointer to the last message, through the operations that insert
-- and delete.
use wirenboard.Common.{
  ℕ, suc, ◌+◌, ◌≡◌, ◌∙◌, refl, sym, ap, arith, Bool, true, false, ◌&&◌, if◌then◌else◌, ltb, some,
  Bool-cases, inl, inr, List, [], ◌∷◌, ◌++◌, length, length-append, append-nil, append_assoc, pos,
}
use wirenboard.Broker.State.{ClientMsg, Context, Db, Setting, Direction}
use wirenboard.Broker.Queue.{
  last_address, last_after, message_remove, promote, is_for, delete_loop, message_delete,
}

-- The messages of a quality of service above 0.
abbrev pub count12 : List ClientMsg → ℕ
count12 [] = 0
count12 (m ∷ ms) = (if ltb 0 m.qos then 1 else 0) + count12 ms

-- The counters and `last_msg` belong to the queue `ms`.
pub record Counts (context : Context) (ms : List ClientMsg) : Type 0 where
  pub all : context.msg_count ≡ pos (length ms)
  pub some12 : context.msg_count12 ≡ pos (count12 ms)
  pub last : context.last_msg ≡ last_address ms

abbrev pub IsCounted : Context → Type 0
IsCounted context = Counts context context.msgs

pub count12-append : (xs ys : List ClientMsg) → count12 (xs ++ ys) ≡ count12 xs + count12 ys
count12-append [] ys = omega arith
count12-append (x ∷ xs) ys = omega (arith, count12-append xs ys)

pub last_address-append :
    (xs ys : List ClientMsg) (y : ClientMsg) → last_address (xs ++ y ∷ ys) ≡ last_address (y ∷ ys)
last_address-append [] ys y = refl
last_address-append (x ∷ []) ys y = refl
last_address-append (x ∷ x' ∷ xs) ys y = last_address-append (x' ∷ xs) ys y

last_after_lem :
    (before rest : List ClientMsg) (m : ClientMsg)
    → last_after before rest (last_address (before ++ m ∷ rest)) ≡ last_address (before ++ rest)
unfolding last_after
last_after_lem [] [] m = refl
last_after_lem (b ∷ before) [] m = rw (append-nil before) refl
last_after_lem [] (r ∷ rest) m = refl
last_after_lem (b ∷ before) (r ∷ rest) m =
    last_address-append (b ∷ before) (r ∷ rest) m ∙ sym (last_address-append (b ∷ before) rest r)

pub message_remove-Counts :
    (db : Db) (context : Context) (before rest : List ClientMsg) (m : ClientMsg)
    → Counts context (before ++ m ∷ rest)
    → Counts (message_remove db context before m rest).1 (before ++ rest)
unfolding message_remove
message_remove-Counts db context before rest m c =
    let lengths : length (before ++ m ∷ rest) ≡ suc (length (before ++ rest)) =
      omega (arith, length-append before (m ∷ rest), length-append before rest) in
    let counts : count12 (before ++ m ∷ rest)
        ≡ (if ltb 0 m.qos then 1 else 0) + count12 (before ++ rest) =
      omega (arith, count12-append before (m ∷ rest), count12-append before rest) in
    record {
      all = rw (c.all, lengths) refl;
      some12 = ground (arith, c.some12, counts);
      last = rw c.last (last_after_lem before rest m);
    }

-- Counters only look at the address and the quality of service of a message.
pub swap-Counts :
    (context : Context) (before rest : List ClientMsg) (m m' : ClientMsg)
    → m.address ≡ m'.address
    → m.qos ≡ m'.qos
    → Counts context (before ++ m ∷ rest)
    → Counts context (before ++ m' ∷ rest)
swap-Counts context before rest m m' a q c = record {
  all =
      rw c.all
        (ap pos (omega (arith, length-append before (m ∷ rest), length-append before (m' ∷ rest))));
  some12 =
      rw c.some12
        (ground (arith, count12-append before (m ∷ rest), count12-append before (m' ∷ rest)));
  last =
      c.last
      ∙ last_address-append before rest m
      ∙ same_last rest
      ∙ sym (last_address-append before rest m');
}
  where
    same_last : (ms : List ClientMsg) → last_address (m ∷ ms) ≡ last_address (m' ∷ ms)
    same_last [] = ap some a
    same_last (x ∷ ms) = refl

promote_same :
    (st : Setting) (index : ℕ) (m : ClientMsg)
    → (m.address ≡ (promote st index m).address) × (m.qos ≡ (promote st index m).qos)
unfolding promote
promote_same st index m = ground arith

message_remove-msgs :
    (db : Db) (context : Context) (before rest : List ClientMsg) (m : ClientMsg)
    → (message_remove db context before m rest).1.msgs ≡ before ++ rest
unfolding message_remove
message_remove-msgs db context before rest m = refl

pub with_msgs :
    (context : Context) (ms : List ClientMsg)
    → Counts context ms
    → IsCounted (record context { msgs = ms })
with_msgs context ms c = record { all = c.all; some12 = c.some12; last = c.last }

module _ (st : Setting) (mid : ℕ) (dir : Direction) where
  delete_loop-Counts :
      (db : Db) (context : Context) (before rest : List ClientMsg) (index : ℕ) (deleted : Bool)
      → Counts context (before ++ rest)
      → IsCounted (delete_loop st mid dir db context before rest index deleted).1
  unfolding delete_loop
  delete_loop-Counts db context before [] index deleted c =
      with_msgs context before (rw (← append-nil before) c)
  delete_loop-Counts db context before (m ∷ rest) index deleted c =
      let m' = promote st (index + 1) m in
      let (a, q) = promote_same st (index + 1) m in
      let c' = swap-Counts context before rest m m' a q c in
      let (db', context') = message_remove db context before m' rest in
      let removed = message_remove-Counts db context before rest m' c' in
      let again = delete_loop-Counts db' context' before rest index true removed in
      let on =
        delete_loop-Counts db context (before ++ m' ∷ []) rest (index + 1) deleted
          (rw (append_assoc before (m' ∷ []) rest) c') in
      elim (Bool-cases (is_for mid dir m')) [
        | inl found ↦
            rw (found, delete_loop)
              (elim (Bool-cases (ltb st.max_inflight index)) [
                | inl full ↦ rw (full, message_remove-msgs db context before rest m') removed
                | inr free ↦ rw free again
              ])
        | inr other ↦
            rw (other, delete_loop)
              (elim (Bool-cases (ltb st.max_inflight (index + 1) && deleted)) [
                | inl full ↦ rw full (with_msgs context (before ++ m' ∷ rest) c')
                | inr free ↦ rw free on
              ])
      ]

  -- `mqtt3_db_message_delete` keeps the two counters of the queue and its pointer to the last
  -- message right, however many messages it removes and moves into the window.
  pub message_delete-IsCounted :
      (db : Db) (context : Context)
      → IsCounted context
      → IsCounted (message_delete st mid dir db context).1
  unfolding message_delete
  message_delete-IsCounted db context c = delete_loop-Counts db context [] context.msgs 0 false c
