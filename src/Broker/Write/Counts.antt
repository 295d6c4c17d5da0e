-- ===== src/Broker/Write/Counts.antt =====
-- The queue behind `mqtt3_db_message_write`, and the number of passes of its loop.
use wirenboard.Common.{
  ℕ, zero, suc, ◌+◌, ◌-◌, ◌*◌, ◌≡◌, ◌≢◌, ◌⊎◌, inl, inr, refl, arith, Bool, false, not, ◌||◌, Option,
  Bytes, some, none, true, ◌≤◌, ◌<◌, ◌&&◌, ◌==◌, Bool-cases, Option-cases, List, [], ◌∷◌, ◌++◌,
  append-nil, append_assoc, All, if◌then◌else◌, length,
}
use wirenboard.Broker.State.{md_in, ClientMsg, Context, Db, Setting, MsgState, queued}
use wirenboard.Broker.Queue.{message_remove, is_queued}
use wirenboard.Broker.Queue.Counts.{
  Counts, IsCounted, with_msgs, swap-Counts, message_remove-Counts,
}
use wirenboard.Broker.Reset.Counts.{Stays}
use wirenboard.Broker.Write.{
  Step, send_remove, send_keep, leave, step_of, Written, wrote, crashes, running, kept, entered,
  count_in, comes_in, is_in, has_no_id, write_loop, message_write,
}

-- The call returns, with the property `P` of the client behind it.
abbrev pub Ends : Written → (Context → Type 0) → Type 0
Ends (wrote db context rc) P = P context
Ends crashes P = ⊥
Ends running P = ⊥

Step-cases :
    (s : Step)
    → (s ≡ leave)
      ⊎ ((s ≡ send_remove) ⊎ ((mark : Bool) × (state : MsgState) × (s ≡ send_keep mark state)))
Step-cases leave = inl refl
Step-cases send_remove = inr (inl refl)
Step-cases (send_keep mark state) = inr (inr (mark, state, refl))

entered_same : (m : ClientMsg) → (m.address ≡ (entered m).address) × (m.qos ≡ (entered m).qos)
unfolding entered
entered_same m = ground arith

kept_same :
    (st : Setting) (mark : Bool) (state : MsgState) (m : ClientMsg)
    → (m.address ≡ (kept st mark state m).address) × (m.qos ≡ (kept st mark state m).qos)
kept_same st mark state m = ground arith

-- A queued message may take a pass more than another one.
weight : ClientMsg → ℕ
weight m = if is_queued m.state then 2 else 1

weights : List ClientMsg → ℕ
weights [] = 0
weights (m ∷ ms) = weight m + weights ms

weights_bound : (ms : List ClientMsg) → weights ms ≤ 2 * length ms
unfolding weights weight
weights_bound [] = omega arith
weights_bound (m ∷ ms) = ground (arith, weights_bound ms)

weight_pos : (m : ClientMsg) → 1 ≤ weight m
unfolding weight
weight_pos m = ground arith

count_in_grows : (count : ℕ) (m : ClientMsg) → count ≤ count_in count m
unfolding count_in
count_in_grows count m = ground arith

-- A message whose passes are bounded: it has a stored message, and the reset would keep it, or the
-- window has a limit.
abbrev pub Bounded : Setting → ClientMsg → Type 0
Bounded st m = (m.store ≢ none) × (Stays m ⊎ (0 < st.max_inflight))

-- Where a message comes in, the next pass is nearer to the end, by its state or by the count.
entered_less :
    (st : Setting) (count : ℕ) (m : ClientMsg)
    → Bounded st m
    → is_queued m.state ≡ true
    → comes_in st (count_in count m) m ≡ true
    → weight (entered m) + (st.max_inflight - count_in count m)
      < weight m + (st.max_inflight - count)
unfolding weight entered count_in comes_in is_in is_queued
entered_less st count m b q c = ground arith

entered-Bounded : (st : Setting) (m : ClientMsg) → Bounded st m → Bounded st (entered m)
unfolding entered
entered-Bounded st m b = elim (Bool-cases (m.qos == 2)) [
  | inl e ↦ rw (entered, e) b
  | inr e ↦ rw (entered, e) b
]

module _ (send : ClientMsg → ℕ) (st : Setting) where
  write_loop-IsCounted :
      (passes : ℕ) (db : Db) (context : Context) (before rest : List ClientMsg) (count : ℕ)
      → weights rest + (st.max_inflight - count) ≤ passes
      → Counts context (before ++ rest)
      → All (Bounded st) rest
      → Ends (write_loop send st passes db context before rest count) IsCounted
  unfolding write_loop weights
  write_loop-IsCounted passes db context before [] count h c bs =
      with_msgs context before (rw (← append-nil before) c)
  write_loop-IsCounted zero db context before (m ∷ rest) count h c bs =
      absurd (omega (arith, weight_pos m))
  write_loop-IsCounted (suc passes) db context before (m ∷ rest) count h c (b, bs) =
      let seen = count_in count m in
      let enough : weights rest + (st.max_inflight - seen) ≤ passes =
        omega (arith, weight_pos m, count_in_grows count m) in
      let failed = with_msgs context (before ++ m ∷ rest) c in
      let on = λ (x : ClientMsg) (e : (m.address ≡ x.address) × (m.qos ≡ x.qos)).
        write_loop-IsCounted passes db context (before ++ x ∷ []) rest seen enough
          (rw (append_assoc before (x ∷ []) rest) (swap-Counts context before rest m x e.0 e.1 c))
          bs in
      let (db', context') = message_remove db context before m rest in
      let gone =
        write_loop-IsCounted passes db' context' before rest seen enough
          (message_remove-Counts db context before rest m c) bs in
      let same = entered_same m in
      elim (Bool-cases (is_queued m.state)) [
        | inl q ↦ (elim (Bool-cases (comes_in st seen m)) [
          | inl comes ↦
              (let less = entered_less st count m b q comes in
                rw (q, comes, write_loop)
                  (write_loop-IsCounted passes db context before (entered m ∷ rest) seen
                    (omega arith) (swap-Counts context before rest m (entered m) same.0 same.1 c)
                    (entered-Bounded st m b, bs)))
          | inr stays ↦ rw (q, stays, write_loop) (on m (refl, refl))
        ])
        | inr q ↦ (elim (Option-cases m.store) [
          | inl missing ↦ absurd (b.0 missing)
          | inr (a, there) ↦ (elim (Step-cases (step_of m.state)) [
            | inl e ↦ rw (q, there, e, write_loop) (on m (refl, refl))
            | inr (inl e) ↦ (elim (Bool-cases (send m == 0)) [
              | inl ok ↦ rw (q, there, e, ok, write_loop) gone
              | inr bad ↦ rw (q, there, e, bad, write_loop) failed
            ])
            | inr (inr (mark, state, e)) ↦ (elim (Bool-cases (send m == 0)) [
              | inl ok ↦
                  rw (q, there, e, ok, write_loop)
                    (on (kept st mark state m) (kept_same st mark state m))
              | inr bad ↦ rw (q, there, e, bad, write_loop) failed
            ])
          ])
        ])
      ]

-- Whatever the sending functions return, `mqtt3_db_message_write` ends within the passes that two
-- for each message and the limit of the window make, and leaves the counters and the pointer to the
-- last message those of the queue, if they were before, every message has its stored message, and
-- each message is outgoing or of quality of service 2, or the window has a limit.
pub message_write-IsCounted :
    (send : ClientMsg → ℕ) (st : Setting) (passes : ℕ) (db : Db) (context : Context) (is_new : Bool)
    → 2 * length context.msgs + st.max_inflight ≤ passes
    → IsCounted context
    → All (Bounded st) context.msgs
    → Ends (message_write send st passes db context is_new) IsCounted
unfolding message_write
message_write-IsCounted send st passes db context is_new enough c bounded =
    let loop =
      write_loop-IsCounted send st passes db context [] context.msgs 0
        (omega (arith, weights_bound context.msgs)) c bounded in
    elim (Bool-cases (not context.connected || not is_new && has_no_id context.id)) [
      | inl bad ↦ rw bad c
      | inr fine ↦ rw fine (elim (Bool-cases is_new) [ inl new ↦ rw new c | inr old ↦ rw old loop ])
    ]

has_id : (id : Option Bytes) → id ≢ none → has_no_id id ≡ false
unfolding has_no_id
has_id none h = absurd (h refl)
has_id (some i) h = refl

-- Without a limit the message comes in with every count, and stays as it is.
again_and_again :
    (st : Setting) (m : ClientMsg)
    → m.direction ≡ md_in
    → m.state ≡ queued
    → m.qos ≢ 2
    → st.max_inflight ≡ 0
    → (is_queued m.state ≡ true) × ((count : ℕ) → comes_in st count m ≡ true) × (entered m ≡ m)
unfolding comes_in is_in is_queued entered
again_and_again st m inward state q none_set = (ground arith, λ count. ground arith, ground arith)

write_loop-stays :
    (send : ClientMsg → ℕ) (st : Setting) (passes : ℕ) (db : Db) (context : Context) (m : ClientMsg)
    (ms : List ClientMsg) (count : ℕ)
    → is_queued m.state ≡ true
    → ((n : ℕ) → comes_in st n m ≡ true)
    → entered m ≡ m
    → write_loop send st passes db context [] (m ∷ ms) count ≡ running
unfolding write_loop
write_loop-stays send st zero db context m ms count q comes same = refl
write_loop-stays send st (suc passes) db context m ms count q comes same =
    rw (q, comes (count_in count m), same, write_loop)
      (write_loop-stays send st passes db context m ms (count_in count m) q comes same)

-- Where the window has no limit (`max_inflight` is 0), a connected client whose queue begins with a
-- queued incoming message of a quality of service other than 2 keeps `mqtt3_db_message_write` in its
-- loop, however many passes it is given.
pub message_write-running :
    (send : ClientMsg → ℕ) (st : Setting) (passes : ℕ) (db : Db) (context : Context) (m : ClientMsg)
    (ms : List ClientMsg)
    → context.connected ≡ true
    → context.id ≢ none
    → context.msgs ≡ m ∷ ms
    → m.direction ≡ md_in
    → m.state ≡ queued
    → m.qos ≢ 2
    → st.max_inflight ≡ 0
    → message_write send st passes db context false ≡ running
unfolding message_write
message_write-running send st passes db context m ms on id queue inward state q unlimited =
    let (is_there, comes, same) = again_and_again st m inward state q unlimited in
    simp
      (
        on,
        queue,
        has_id context.id id,
        write_loop-stays send st passes db context m ms 0 is_there comes same,
      )
      refl
