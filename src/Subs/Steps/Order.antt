-- ===== src/Subs/Steps/Order.antt =====
-- Every tree that comes about is in order.
use wirenboard.Common.{ℕ, refl, subst, Option-cases, inl, inr, none, []}
use wirenboard.Subs.Tree.{Hier, end, node, State, malloc}
use wirenboard.Subs.Distinct.{IsDistinct}
use wirenboard.Subs.Search.Entries.{IsEnded}
use wirenboard.Subs.Valid.{add_subscription-IsTree, remove_subscription-IsTree}
use wirenboard.Subs.Retain.Kept.{IsHollow}
use wirenboard.Subs.Hollow.{add_subscription-IsHollow, remove_subscription-IsHollow}
use wirenboard.Subs.Steps.{
  open_roots, Call, subscribe, unsubscribe, publish, clean, Reachable, opened, called, InOrder,
}
use wirenboard.Subs.Steps.Publishing.{messages_queue-InOrder}
use wirenboard.Subs.Steps.Session.{Left, clean_session-InOrder}

in_order : (h : Hier) → IsDistinct h → IsEnded h → IsHollow h → InOrder h
in_order h d e i = record { tree = record { distinct = d; ended = e }; hollow = i }

first_InOrder :
    (a : ℕ)
    → InOrder (node (record { address = a; topic = []; subs = []; retained = none }) end end)
first_InOrder a = in_order _ (tt, tt, tt) (λ h. refl, tt, tt) (λ h. (refl, tt), tt, tt)

open_roots-InOrder : (s : State) → InOrder (open_roots s).hier
unfolding open_roots
open_roots-InOrder s = elim (Option-cases (malloc s).given) [
  | inl e ↦ rw (e, open_roots) (in_order end tt tt tt)
  | inr (a, e) ↦ (elim (Option-cases (malloc (malloc s).state).given) [
    | inl e1 ↦ rw (e, e1, open_roots) (in_order end tt tt tt)
    | inr (x, e1) ↦ (elim (Option-cases (malloc (malloc (malloc s).state).state).given) [
      | inl e2 ↦ rw (e, e1, e2, open_roots) (first_InOrder a)
      | inr (b, e2) ↦
          (elim (Option-cases (malloc (malloc (malloc (malloc s).state).state).state).given) [
            | inl e3 ↦ rw (e, e1, e2, e3, open_roots) (first_InOrder a)
            | inr (y, e3) ↦
                rw (e, e1, e2, e3, open_roots)
                  (in_order _ ((refl, tt), tt, (tt, tt, tt)) (λ h. refl, tt, (λ h. refl, tt, tt))
                    (λ h. (refl, tt), tt, (λ h. (refl, tt), tt, tt)))
          ])
    ])
  ])
]

Call-InOrder : {roots roots' : Hier} → Call roots roots' → InOrder roots → InOrder roots'
unfolding Left
Call-InOrder (subscribe id_of sub qos heap roots s c_string accepted) i = record {
  tree = add_subscription-IsTree id_of qos heap roots s sub c_string accepted i.tree;
  hollow = add_subscription-IsHollow id_of sub qos heap roots s i.hollow;
}
Call-InOrder (unsubscribe sub heap roots c s) i = record {
  tree = remove_subscription-IsTree sub heap roots c s i.tree;
  hollow = remove_subscription-IsHollow sub heap roots c s i.hollow;
}
Call-InOrder (publish m heap nodes roots d accepted) i =
    messages_queue-InOrder m heap nodes roots d accepted i
Call-InOrder (clean c c' roots roots' n n' e) i = subst Left e (clean_session-InOrder c roots n i)

-- Every tree that comes about behind `mqtt3_db_open`, by subscriptions of accepted filters,
-- unsubscriptions, publications to accepted topics and ends of sessions in any order, whatever
-- allocations fail on the way, is in order: siblings have different topics, a `#` has nothing
-- below it, and no message is retained at a `+` or below it.
pub Reachable-InOrder : {roots : Hier} → Reachable roots → InOrder roots
Reachable-InOrder (opened s) = open_roots-InOrder s
Reachable-InOrder (called r step) = Call-InOrder step (Reachable-InOrder r)
