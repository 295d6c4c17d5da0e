-- ===== src/Subs/Access.antt =====
-- Who gets a published message: only a client that access control lets read the topic.
use mathlib.Core.Option
use wirenboard.Common.{
  ℕ, ◌≡◌, ◌≢◌, ◌⊎◌, str_eq, ◌∙◌, refl, sym, arith, Bool, true, false, ◌&&◌, if◌then◌else◌, ltb,
  ◌==◌, Bool-cases, Option-cases, inl, inr, Option, none, some, List, [], ◌∷◌, Bytes,
}
use wirenboard.Topic.Levels.{plus}
use wirenboard.Packet.Outgoing.{mid_generate}
use wirenboard.Broker.State.{Context, Db, md_out}
use wirenboard.Broker.Insert.{message_insert, Outcome, returned, broken}
use wirenboard.Subs.Tokens.{Heap, tokenise}
use wirenboard.Subs.Tree.{Leaf, Node, Hier, end, node, State}
use wirenboard.Subs.Search.{visit_of, is_last, sub_search, Visit-cases}
use wirenboard.Subs.Process.{
  Client, Delivery, Access, granted, denied, failed, Publication, find_client, set_client,
  message_qos, set_retained, is_skipped, insert_for, leaf_loop, subs_process,
}
use wirenboard.Subs.Calls.{queue_loop, refer_stored, release_stored, messages_queue}

-- What every step keeps, the search keeps.
module _ {S : Type 0} (process : Bool → Node → S → Node × S) (P : S → Type 0)
    (step : (sr : Bool) (n : Node) (s : S) → P s → P (process sr n s).1) where
  process_if : (b sr : Bool) (n : Node) (s : S) → P s → P (if b then process sr n s else (n, s)).1
  process_if true sr n s p = step sr n s p
  process_if false sr n s p = p

  pub sub_search_inv :
      (h : Hier) (tokens : List Bytes) (sr : Bool) (s : S)
      → P s
      → P (sub_search process h tokens sr s).state
  unfolding sub_search
  sub_search_inv end tokens sr s p = p
  sub_search_inv (node n ch next) tokens sr s p = elim (Visit-cases (visit_of n ch tokens)) [
    | inl (ts, v) ↦
        (let sr' = if str_eq n.topic plus then false else sr in
          rw (v, sub_search)
            (sub_search_inv next tokens sr _
              (process_if (is_last ts) sr' n _ (sub_search_inv ch ts sr' s p))))
    | inr (inl v) ↦ rw (v, sub_search) (sub_search_inv next tokens sr _ (step false n s p))
    | inr (inr v) ↦ rw (v, sub_search) (sub_search_inv next tokens sr s p)
  ]

find_client-set_client_ne :
    (a : ℕ) (c : Client) (cs : List Client)
    → c.address ≢ a
    → find_client a (set_client c cs) ≡ find_client a cs
unfolding find_client set_client
find_client-set_client_ne a c [] h = refl
find_client-set_client_ne a c (x ∷ cs) h = ground (arith, find_client-set_client_ne a c cs h)

find_client-address :
    (a : ℕ) (c : Client) (cs : List Client) → find_client a cs ≡ some c → c.address ≡ a
unfolding find_client
find_client-address a c [] h = cc
find_client-address a c (x ∷ cs) h = ground (arith, find_client-address a c cs)

List-cases : (xs : List Bytes) → (xs ≡ []) ⊎ ((y : Bytes) × (ys : List Bytes) × (xs ≡ y ∷ ys))
List-cases [] = inl refl
List-cases (y ∷ ys) = inr (y, ys, refl)

same_client :
    (a b : ℕ) (x c : Client) (cs : List Client)
    → find_client b cs ≡ some x
    → find_client a cs ≡ some c
    → x.address ≡ a
    → x ≡ c
same_client a b x c cs f e same =
    let at : b ≡ a = sym (find_client-address b x cs f) ∙ same in
    let g : find_client a cs ≡ some x = rw (← at) f in cc (g, e)

-- The client at the address `a` is `c` still, unless the delivery is broken.
abbrev pub Untouched : ℕ → Client → Option Delivery → Type 0
Untouched a c none = Unit
Untouched a c (some d) = find_client a d.clients ≡ some c

abbrev Spared : ℕ → Client → Option (Delivery × ℕ) → Type 0
Spared a c none = Unit
Spared a c (some (d, rc)) = find_client a d.clients ≡ some c

Outcome-cases :
    (o : Outcome)
    → (o ≡ broken) ⊎ ((db : Db) × (context : Context) × (rc : ℕ) × (o ≡ returned db context rc))
Outcome-cases (returned db context rc) = inr (db, context, rc, refl)
Outcome-cases broken = inl refl

Access-cases : (x : Access) → (x ≡ granted) ⊎ ((x ≡ denied) ⊎ (x ≡ failed))
Access-cases granted = inl refl
Access-cases denied = inr (inl refl)
Access-cases failed = inr (inr refl)

module _ (m : Publication) (a : ℕ) (c : Client) (refused : m.access c m.topic ≢ granted) where
  insert_for-Spared :
      (l : Leaf) (x : Client) (d : Delivery)
      → x.address ≢ a
      → find_client a d.clients ≡ some c
      → Spared a c (insert_for m l x d)
  unfolding insert_for
  insert_for-Spared l x d h e =
      let qos = message_qos m l in
      let mid = if ltb 0 qos then mid_generate x.last_mid else 0 in
      let last = if ltb 0 qos then mid_generate x.last_mid else x.last_mid in
      elim (Outcome-cases (
        message_insert m.setting (m.memory x) d.db x.context mid md_out qos
          (if x.is_bridge then m.retain else false) m.stored)) [
            | inl o ↦ rw (o, insert_for) tt
            | inr (db, context, rc, o) ↦
                rw (o, insert_for)
                  (find_client-set_client_ne a (record x { last_mid = last; context = context })
                      d.clients h
                    ∙ e)
          ]

  Spared-Untouched :
      (r : Option (Delivery × ℕ)) → Spared a c r → Untouched a c (Option.map (λ p. p.0) r)
  Spared-Untouched none h = tt
  Spared-Untouched (some (d, rc)) h = h

  leaf_loop-Spared :
      (source : Bytes) (ls : List Leaf) (d : Delivery) (rc : ℕ)
      → find_client a d.clients ≡ some c
      → Spared a c (leaf_loop m source ls d rc)
  unfolding leaf_loop
  leaf_loop-Spared source [] d rc e = e
  leaf_loop-Spared source (l ∷ ls) d rc e = elim (Option-cases (find_client l.context d.clients)) [
    | inl f ↦ rw (f, leaf_loop) tt
    | inr (x, f) ↦ (elim (Bool-cases (is_skipped source x)) [
      | inl skip ↦ rw (f, skip, leaf_loop) (leaf_loop-Spared source ls d rc e)
      | inr on ↦ (elim (Access-cases (m.access x m.topic)) [
        | inr (inl y) ↦ rw (f, on, y, leaf_loop) (leaf_loop-Spared source ls d rc e)
        | inr (inr y) ↦ rw (f, on, y, leaf_loop) e
        | inl y ↦
            (let other : x.address ≢ a =
                λ same. refused (rw (← same_client a l.context x c d.clients f e same) y) in
              let s = insert_for-Spared l x d other e in
              elim (Option-cases (insert_for m l x d)) [
                | inl i ↦ rw (f, on, y, i, leaf_loop) tt
                | inr ((d', rc'), i) ↦
                    rw (f, on, y, i, leaf_loop)
                      (leaf_loop-Spared source ls d' (if rc' == 1 then 1 else rc) (rw i at s))
              ])
      ])
    ])
  ]

  set_retained_clients : (n : Node) (d : Delivery) → (set_retained m n d).1.clients ≡ d.clients
  unfolding set_retained
  set_retained_clients n d = ground arith

  retained_or_not :
      (b : Bool) (n : Node) (d : Delivery)
      → (if b then set_retained m n d else (n, d)).1.clients ≡ d.clients
  retained_or_not true n d = set_retained_clients n d
  retained_or_not false n d = refl

  subs_process-Untouched :
      (sr : Bool) (n : Node) (d : Option Delivery)
      → Untouched a c d
      → Untouched a c (subs_process m sr n d).1
  unfolding subs_process
  subs_process-Untouched sr n none e = tt
  subs_process-Untouched sr n (some d) e =
      let same = retained_or_not (m.retain && sr) n d in
      let r = if m.retain && sr then set_retained m n d else (n, d) in
      elim (Option-cases m.source_id) [
        | inl s ↦ rw (s, subs_process) (rw same e)
        | inr (source, s) ↦
            rw (s, subs_process)
              (Spared-Untouched _ (leaf_loop-Spared source r.0.subs r.1 0 (rw same e)))
      ]

  queue_loop-Untouched :
      (tokens : List Bytes) (t : Bytes) (h : Hier) (nodes : State) (d : Option Delivery)
      → Untouched a c d
      → Untouched a c (queue_loop m nodes tokens t h d).delivery
  unfolding queue_loop
  queue_loop-Untouched tokens t end nodes d e = e
  queue_loop-Untouched tokens t (node n ch next) nodes d e = elim (Bool-cases (str_eq n.topic t)) [
    | inl same ↦
        rw (same, queue_loop)
          (queue_loop-Untouched tokens t next _ _ (
            sub_search_inv (subs_process m) (Untouched a c) subs_process-Untouched _ tokens true d
              e))
    | inr differ ↦ rw (differ, queue_loop) (queue_loop-Untouched tokens t next nodes d e)
  ]

-- A client, the one at its address, that access control does not let read the topic is not touched
-- by `mqtt3_db_messages_queue`: behind the call its queue, its counters and its last message id are
-- those before, whatever the tree is and whoever subscribes to what, unless the call is broken by a
-- pointer to nothing.
pub messages_queue-Untouched :
    (m : Publication) (a : ℕ) (c : Client) (heap : Heap) (nodes : State) (roots : Hier)
    (d : Delivery)
    → m.access c m.topic ≢ granted
    → find_client a d.clients ≡ some c
    → Untouched a c (messages_queue m heap nodes roots d).0.delivery
unfolding messages_queue
messages_queue-Untouched m a c heap nodes roots d refused e =
    elim (Option-cases (tokenise m.topic heap)) [
      | inl none_made ↦ rw (none_made, messages_queue) e
      | inr (r, made) ↦ (elim (List-cases r.tokens) [
        | inl empty ↦ rw (made, empty, messages_queue) tt
        | inr (t, ts, full) ↦
            rw (made, full, messages_queue)
              (released (queue_loop m nodes (t ∷ ts) t roots (some (refer_stored m d))).delivery (
                queue_loop-Untouched m a c refused (t ∷ ts) t roots nodes (some (refer_stored m d))
                  e))
      ])
    ]
  where
    released :
        (q : Option Delivery) → Untouched a c q → Untouched a c (Option.map (release_stored m) q)
    released none u = tt
    released (some d') u = u
