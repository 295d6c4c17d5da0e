-- ===== src/Broker/Reset/Counts.antt =====
-- The counters of a queue behind `mqtt3_db_message_reconnect_reset`.
use wirenboard.Common.{
  ℕ, suc, ◌+◌, ◌≡◌, ◌≢◌, ◌∙◌, ◌⊎◌, inl, inr, refl, sym, ap, subst, arith, false, ◌==◌, none, some,
  List, [], ◌∷◌, ◌++◌, length, length-append, All, pos,
}
use wirenboard.Broker.State.{Direction, md_in, md_out, ClientMsg, Context, Db, Setting}
use wirenboard.Broker.Queue.{last_address, message_remove}
use wirenboard.Broker.Queue.Counts.{
  Counts, IsCounted, count12, count12-append, last_address-append, with_msgs,
}
use wirenboard.Broker.Reset.{counted, again, reset_loop, window_loop, reconnect_reset}

-- The messages that the reset keeps: the outgoing ones, and those of quality of service 2.
abbrev pub Stays : ClientMsg → Type 0
Stays m = (m.direction ≡ md_out) ⊎ (m.qos ≡ 2)

direction_cases : (d : Direction) → (d ≡ md_out) ⊎ (d ≡ md_in)
direction_cases md_out = inl refl
direction_cases md_in = inr refl

-- The counters alone.
abbrev Sums : Context → List ClientMsg → Type 0
Sums context ms = (context.msg_count ≡ pos (length ms)) × (context.msg_count12 ≡ pos (count12 ms))

counted-Counts :
    (context : Context) (before : List ClientMsg) (m m' : ClientMsg)
    → m.address ≡ m'.address
    → m.qos ≡ m'.qos
    → Sums context before
    → Counts (counted context m) (before ++ m' ∷ [])
unfolding counted
counted-Counts context before m m' a q (n, k) =
    let lengths : length (before ++ m' ∷ []) ≡ suc (length before) =
      omega (arith, length-append before (m' ∷ [])) in
    record {
      all = rw (n, lengths) refl;
      some12 = ground (arith, count12-append before (m' ∷ []));
      last = ap some a ∙ sym (last_address-append before [] m');
    }

again_same : (m : ClientMsg) → (m.address ≡ (again m).address) × (m.qos ≡ (again m).qos)
unfolding again
again_same m = ground arith

reset_loop-Counts :
    (db : Db) (context : Context) (before rest : List ClientMsg)
    → Counts context before
    → All Stays rest
    → IsCounted (reset_loop false db context before rest).1
unfolding reset_loop
reset_loop-Counts db context before [] c stays = with_msgs context before c
reset_loop-Counts db context before (m ∷ rest) c (stays, more) =
    let (a, q) = again_same m in
    let sent =
      reset_loop-Counts db (counted context m) (before ++ again m ∷ []) rest
        (counted-Counts context before m (again m) a q (c.all, c.some12)) more in
    let kept =
      reset_loop-Counts db (counted context m) (before ++ m ∷ []) rest
        (counted-Counts context before m m refl refl (c.all, c.some12)) more in
    elim stays [
      | inl out ↦ rw (out, reset_loop) sent
      | inr two ↦ (elim (direction_cases m.direction) [
        | inl out ↦ rw (out, reset_loop) sent
        | inr inward ↦ rw (inward, two, reset_loop) kept
      ])
    ]

window_lem :
    (st : Setting) (count : ℕ) (ms : List ClientMsg)
    → (length (window_loop st count ms) ≡ length ms)
      × (count12 (window_loop st count ms) ≡ count12 ms)
      × (last_address (window_loop st count ms) ≡ last_address ms)
unfolding window_loop
window_lem st count [] = (refl, refl, refl)
window_lem st count (m ∷ []) = ground arith
window_lem st count (m ∷ m' ∷ ms) = ground (arith, window_lem st (count + 1) (m' ∷ ms))

-- The first loop never looks at the pointer to the last message that it starts from, unless the
-- queue is empty.
first_loop-Counts :
    (db : Db) (context : Context)
    → (context.msgs ≡ [] → context.last_msg ≡ none)
    → All Stays context.msgs
    → IsCounted
        (reset_loop false db
          (record context { msg_count = pos 0; msg_count12 = pos 0 })
          []
          context.msgs).1
unfolding reset_loop counted
first_loop-Counts db context h stays = go context.msgs h stays
  where
    go :
        (ms : List ClientMsg)
        → (ms ≡ [] → context.last_msg ≡ none)
        → All Stays ms
        → IsCounted
            (reset_loop false db
              (record context { msg_count = pos 0; msg_count12 = pos 0 })
              []
              ms).1
    go [] h stays = record { all = refl; some12 = refl; last = h refl }
    go (m ∷ ms) h stays =
        reset_loop-Counts db
          (record context { last_msg = none; msg_count = pos 0; msg_count12 = pos 0 }) [] (m ∷ ms)
          (record { all = refl; some12 = refl; last = refl }) stays

-- Whatever the counters were before, `mqtt3_db_message_reconnect_reset` makes them, and the pointer
-- to the last message, those of the queue, if the queue has no incoming message of a quality of
-- service below 2, and an empty queue has no last message.
pub reconnect_reset-IsCounted :
    (st : Setting) (db : Db) (context : Context)
    → (context.msgs ≡ [] → context.last_msg ≡ none)
    → All Stays context.msgs
    → IsCounted (reconnect_reset st db context).1
unfolding reconnect_reset
reconnect_reset-IsCounted st db context h stays =
    let c = first_loop-Counts db context h stays in
    let start = record context { msg_count = pos 0; msg_count12 = pos 0 } in
    let (l, k, a) = window_lem st 0 (reset_loop false db start [] context.msgs).1.msgs in
    record {
      all = c.all ∙ ap pos (sym l);
      some12 = c.some12 ∙ ap pos (sym k);
      last = c.last ∙ sym a;
    }

-- A queue that the first loop leaves: its length and the counter of all messages.
abbrev HasSums : Context → ℕ → ℕ → Type 0
HasSums context n count = (length context.msgs ≡ n) × (context.msg_count ≡ pos count)

counted-sum :
    (context : Context) (m : ClientMsg) (count : ℕ)
    → context.msg_count ≡ pos count
    → (counted context m).msg_count ≡ pos (suc count)
unfolding counted
counted-sum context m count h = rw h refl

reset_loop-sums :
    (db : Db) (context : Context) (before rest : List ClientMsg) (count : ℕ)
    → context.msg_count ≡ pos count
    → All Stays rest
    → HasSums
        (reset_loop false db context before rest).1
        (length before + length rest)
        (count + length rest)
unfolding reset_loop
reset_loop-sums db context before [] count h stays = (omega arith, rw h (ap pos (omega arith)))
reset_loop-sums db context before (m ∷ rest) count h (stay, stays) =
    let on : (x : ClientMsg)
        → HasSums (reset_loop false db (counted context m) (before ++ x ∷ []) rest).1
            (length before + suc (length rest)) (count + suc (length rest)) =
      λ x.
        let r =
          reset_loop-sums db (counted context m) (before ++ x ∷ []) rest (suc count)
            (counted-sum context m count h) stays in
        (r.0 ∙ omega (arith, length-append before (x ∷ [])), r.1 ∙ ap pos (omega arith)) in
    elim stay [
      | inl out ↦ rw (out, reset_loop) (on (again m))
      | inr two ↦ (elim (direction_cases m.direction) [
        | inl out ↦ rw (out, reset_loop) (on (again m))
        | inr inward ↦ rw (inward, two, reset_loop) (on m)
      ])
    ]

removed-sum :
    (db : Db) (context : Context) (before : List ClientMsg) (m : ClientMsg) (rest : List ClientMsg)
    (count : ℕ)
    → context.msg_count ≡ pos (suc count)
    → (message_remove db context before m rest).1.msg_count ≡ pos count
unfolding message_remove
removed-sum db context before m rest count h = rw h refl

-- The removed message `a` passes over `b`.
reset_loop-skips :
    (db : Db) (context : Context) (before xs : List ClientMsg) (a b : ClientMsg)
    (ys : List ClientMsg) (count : ℕ)
    → context.msg_count ≡ pos count
    → All Stays xs
    → a.direction ≡ md_in
    → a.qos ≢ 2
    → All Stays ys
    → HasSums
        (reset_loop false db context before (xs ++ a ∷ b ∷ ys)).1
        (length before + length xs + suc (length ys))
        (count + length xs + length ys)
unfolding reset_loop
reset_loop-skips db context before [] a b ys count h xstays inward q stays =
    let context1 = counted context a in
    let (db', context') = message_remove db context1 before a (b ∷ ys) in
    let n = removed-sum db context1 before a (b ∷ ys) count (counted-sum context a count h) in
    let r = reset_loop-sums db' context' (before ++ b ∷ []) ys count n stays in
    let test : (a.qos == 2) ≡ false = ground arith in
    rw (inward, test, reset_loop)
      (r.0 ∙ omega (arith, length-append before (b ∷ [])), r.1 ∙ ap pos (omega arith))
reset_loop-skips db context before (m ∷ xs) a b ys count h (stay, xstays) inward q stays =
    let on : (x : ClientMsg)
        → HasSums (reset_loop false db (counted context m) (before ++ x ∷ []) (xs ++ a ∷ b ∷ ys)).1
            (length before + suc (length xs) + suc (length ys))
            (count + suc (length xs) + length ys) =
      λ x.
        let r =
          reset_loop-skips db (counted context m) (before ++ x ∷ []) xs a b ys (suc count)
            (counted-sum context m count h) xstays inward q stays in
        (r.0 ∙ omega (arith, length-append before (x ∷ [])), r.1 ∙ ap pos (omega arith)) in
    elim stay [
      | inl out ↦ rw (out, reset_loop) (on (again m))
      | inr two ↦ (elim (direction_cases m.direction) [
        | inl out ↦ rw (out, reset_loop) (on (again m))
        | inr to_us ↦ rw (to_us, two, reset_loop) (on m)
      ])
    ]

-- In a queue with an incoming message of a quality of service below 2 and any message next behind it,
-- where all others are outgoing or of quality of service 2: `mqtt3_db_message_reconnect_reset` leaves
-- a queue that is one message shorter, and the counter of all messages comes out one below its
-- length.
pub reconnect_reset_skips :
    (st : Setting) (db : Db) (context : Context) (xs : List ClientMsg) (a b : ClientMsg)
    (ys : List ClientMsg)
    → context.msgs ≡ xs ++ a ∷ b ∷ ys
    → All Stays xs
    → a.direction ≡ md_in
    → a.qos ≢ 2
    → All Stays ys
    → (length (reconnect_reset st db context).1.msgs ≡ length xs + suc (length ys))
      × ((reconnect_reset st db context).1.msg_count ≡ pos (length xs + length ys))
unfolding reconnect_reset
reconnect_reset_skips st db context xs a b ys ms xstays inward q stays =
    let start = record context { msg_count = pos 0; msg_count12 = pos 0 } in
    let (left, n) =
      subst
        (λ l.
          HasSums (reset_loop false db start [] l).1 (0 + length xs + suc (length ys))
            (0 + length xs + length ys))
        (sym ms) (reset_loop-skips db start [] xs a b ys 0 refl xstays inward q stays) in
    let w = window_lem st 0 (reset_loop false db start [] context.msgs).1.msgs in
    (w.0 ∙ left ∙ omega arith, n ∙ ap pos (omega arith))
