-- ===== src/Persist/Counters.antt =====
-- The counters of a client's queue behind `_db_client_msg_restore` of src/persist.c of
-- mosquitto-1.4.2.
use wirenboard.Common.{
  ℕ, ◌≡◌, refl, sym, ap, subst, ◌∙◌, arith, some, List, [], ◌∷◌, ◌++◌, length, length-append, pos,
  ℤ,
}
use wirenboard.Broker.State.{ClientMsg, Context}
use wirenboard.Broker.Queue.{last_address}
use wirenboard.Broker.Queue.Counts.{IsCounted}
use wirenboard.Broker.Insert.{link}
use wirenboard.Broker.Insert.Counts.{Distinct, link_lem}
use wirenboard.Persist.Input.{ok}
use wirenboard.Persist.Apply.{add_msg}

last_of : (x : ClientMsg) (ms : List ClientMsg) → (a : ℕ) × (last_address (x ∷ ms) ≡ some a)
last_of x [] = (x.address, refl)
last_of x (y ∷ ms) = last_of y ms

pos_length :
    (ms : List ClientMsg) (m : ClientMsg) (n : ℤ)
    → n ≡ pos (length ms)
    → n ≡ pos (length (ms ++ m ∷ []))
    → ⊥
pos_length ms m n e f = ground (arith, length-append ms (m ∷ []))

add_msg_first :
    (m : ClientMsg) (c : Context)
    → c.msgs ≡ []
    → add_msg m c ≡ ok (record c { msgs = m ∷ []; last_msg = some m.address })
unfolding add_msg
add_msg_first m c e = rw (add_msg, e) refl

add_msg_behind :
    (m : ClientMsg) (c : Context) (x : ClientMsg) (xs ms : List ClientMsg) (a : ℕ)
    → c.msgs ≡ x ∷ xs
    → c.last_msg ≡ some a
    → link a m (x ∷ xs) ≡ some ms
    → add_msg m c ≡ ok (record c { msgs = ms; last_msg = some m.address })
unfolding add_msg
add_msg_behind m c x xs ms a e f g = rw (add_msg, e, f, g) refl

-- A restored message comes to the end of the client's queue, of which `last_msg` is the address
-- then. It is not counted: where the counters were those of the queue, they are not any more.
pub add_msg-append :
    (m : ClientMsg) (c : Context)
    → IsCounted c
    → Distinct c.msgs
    → (c' : Context) × (add_msg m c ≡ ok c')
      × (c'.msgs ≡ c.msgs ++ m ∷ [])
      × (c'.last_msg ≡ some m.address)
      × (¬ IsCounted c')
add_msg-append m c i d = (
  record c { msgs = c.msgs ++ m ∷ []; last_msg = some m.address },
  added c.msgs refl,
  refl,
  refl,
  λ j. pos_length c.msgs m c.msg_count i.all j.all,
)
  where
    added :
        (ms : List ClientMsg)
        → c.msgs ≡ ms
        → add_msg m c ≡ ok (record c { msgs = c.msgs ++ m ∷ []; last_msg = some m.address })
    added [] e =
        add_msg_first m c e
        ∙ ap
            (λ (l : List ClientMsg).
              ok (record c { msgs = l ++ m ∷ []; last_msg = some m.address }))
            (sym e)
    added (x ∷ ms) e =
        let (a, last) = last_of x ms in
        let at_end : c.last_msg ≡ some a = i.last ∙ ap last_address e ∙ last in
        let linked : link a m (x ∷ ms) ≡ some ((x ∷ ms) ++ m ∷ []) =
          link_lem a m (x ∷ ms) (subst Distinct e d) last in
        add_msg_behind m c x ms ((x ∷ ms) ++ m ∷ []) a e at_end linked
        ∙ ap
            (λ (l : List ClientMsg).
              ok (record c { msgs = l ++ m ∷ []; last_msg = some m.address }))
            (sym e)
