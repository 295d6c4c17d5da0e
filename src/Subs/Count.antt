-- ===== src/Subs/Count.antt =====
-- The count of a client's references to nodes of the tree, and the array that holds them, where
-- the array of `_sub_add` cannot grow.
use wirenboard.Common.{
  ℕ, suc, ◌+◌, ◌≡◌, ◌≢◌, refl, arith, Option, none, some, List, [], ◌∷◌, length, All,
}
use wirenboard.Subs.Tree.{
  Subscriber, State, no_memory, overrun, full, past, fill_slot, keep_reference, malloc,
}

abbrev pub IsTaken : List (Option ℕ) → Type 0
IsTaken = All (λ (r : Option ℕ). r ≢ none)

fill_slot_full : (a : ℕ) (ss : List (Option ℕ)) → IsTaken ss → fill_slot a (length ss) ss ≡ full
unfolding fill_slot
fill_slot_full a [] h = refl
fill_slot_full a (none ∷ ss) h = absurd (h.0 refl)
fill_slot_full a (some b ∷ ss) h = rw (fill_slot_full a ss h.1) refl

fill_slot_past :
    (a : ℕ) (ss : List (Option ℕ)) → IsTaken ss → fill_slot a (suc (length ss)) ss ≡ past
unfolding fill_slot
fill_slot_past a [] h = refl
fill_slot_past a (none ∷ ss) h = absurd (h.0 refl)
fill_slot_past a (some b ∷ ss) h = rw (fill_slot_past a ss h.1) refl

keep_reference_fails :
    (a : ℕ) (c : Subscriber) (ss : List (Option ℕ)) (s : State) (heap : List (Option ℕ))
    → c.subs ≡ some ss
    → c.sub_count ≡ length ss
    → IsTaken ss
    → s.heap ≡ none ∷ heap
    → let k = keep_reference a c s in
      (k.subscriber.subs ≡ some ss)
      × (k.subscriber.sub_count ≡ length ss + 1)
      × (k.code ≡ no_memory)
unfolding keep_reference malloc
keep_reference_fails a c ss s heap subs count taken fails =
    rw (subs, count, fill_slot_full a ss taken, fails, keep_reference, malloc)
      (subs, omega (arith, count), refl)

keep_reference_past :
    (b : ℕ) (c : Subscriber) (ss : List (Option ℕ)) (s : State)
    → c.subs ≡ some ss
    → c.sub_count ≡ suc (length ss)
    → IsTaken ss
    → (keep_reference b c s).code ≡ overrun
unfolding keep_reference
keep_reference_past b c ss s subs count taken =
    rw (subs, count, fill_slot_past b ss taken, keep_reference) refl

-- A client whose array of references has no free place, and whose array cannot grow: the call of
-- `_sub_add` fails, but the count it leaves is one more than the array has places, so the next
-- reference that the client should keep is looked for outside of the array.
pub keep_reference_overrun :
    (a b : ℕ) (c : Subscriber) (ss : List (Option ℕ)) (s s' : State) (heap : List (Option ℕ))
    → c.subs ≡ some ss
    → c.sub_count ≡ length ss
    → IsTaken ss
    → s.heap ≡ none ∷ heap
    → ((keep_reference a c s).code ≡ no_memory)
      × ((keep_reference b (keep_reference a c s).subscriber s').code ≡ overrun)
keep_reference_overrun a b c ss s s' heap subs count taken fails =
    let (same, more, failed) = keep_reference_fails a c ss s heap subs count taken fails in
    (
      failed,
      keep_reference_past b (keep_reference a c s).subscriber ss s' same (omega (arith, more))
          taken,
    )
