-- ===== src/Persist/Writing.antt =====
-- The writers of src/persist.c of mosquitto-1.4.2 where no `fwrite` fails: they put the bytes of
-- their items behind the file.
use wirenboard.Common.{
  ℕ, ◌≡◌, subst, refl, ap, ◌∙◌, Bool, true, Option, none, some, List, [], ◌∷◌, ◌++◌, append_assoc,
  append-nil, Bytes, All, Option-cases, Bool-cases, inl, inr,
}
use wirenboard.Broker.State.{ClientMsg, MsgStore}
use wirenboard.Broker.Insert.{find_store}
use wirenboard.Subs.Tree.{Leaf, Hier, end, node}
use wirenboard.Persist.Format.{is_sys, ClientState, session_at}
use wirenboard.Persist.Output.{Out, Wrote, write_all, then_write}
use wirenboard.Persist.Write.{
  stored_fields, message_store_write, client_msg_fields, stored_id, client_messages_write,
  disconnected_at, client_fields, client_write, this_topic, sub_fields, leaves_write, retain_fields,
  retained_write, go_on, subs_retain_write,
}
use wirenboard.Persist.Items.{Item, stored, message, retained, subscribed, client, encode, Fits}
use wirenboard.Persist.Contents.{
  both, store_chunk, store_items, msg_chunk, msg_items, session_items, leaf_items, retained_items,
  tree_items,
}
use wirenboard.Persist.Emits.{
  complete, wrote, encode-append, Implements, Implements-broken, Implements-nothing,
  Implements-both, Implements-write_all, both_cases, All-both,
}
use wirenboard.Persist.Fields.{
  joined-stored_fields, joined-client_msg_fields, joined-client_fields, joined-sub_fields,
}

pub message_store_write-store_items :
    (ss : List MsgStore) → Implements (message_store_write ss) (store_items ss)
unfolding message_store_write store_items
message_store_write-store_items [] = Implements-nothing
message_store_write-store_items (s ∷ ss) = elim (Option-cases s.topic) [
  | inl e ↦ rw e Implements-broken
  | inr (t, e) ↦
      (let x = stored (store_chunk s t) in
        rw e (
          Implements-both (write_all (stored_fields s t)) (message_store_write ss) (some (x ∷ []))
            (store_items ss) (Implements-write_all (stored_fields s t) x (joined-stored_fields s t))
            (message_store_write-store_items ss)))
]

client_messages_write-msg_items :
    (id : Bytes) (stores : List MsgStore) (ms : List ClientMsg)
    → Implements (client_messages_write id stores ms) (msg_items id stores ms)
unfolding client_messages_write msg_items
client_messages_write-msg_items id stores [] = Implements-nothing
client_messages_write-msg_items id stores (m ∷ ms) =
    elim (Option-cases (stored_id stores m.store)) [
      | inl e ↦ rw (client_messages_write, msg_items, e) Implements-broken
      | inr (i, e) ↦
          (let x = message (msg_chunk id i m) in
            rw (client_messages_write, msg_items, e)
              (Implements-both (write_all (client_msg_fields id i m))
                (client_messages_write id stores ms) (some (x ∷ [])) (msg_items id stores ms)
                (Implements-write_all (client_msg_fields id i m) x
                  (joined-client_msg_fields id i m))
                (client_messages_write-msg_items id stores ms)))
    ]

pub client_write-session_items :
    (now : ℕ) (stores : List MsgStore) (ss : List ClientState)
    → Implements (client_write now stores ss) (session_items now stores ss)
unfolding client_write session_items
client_write-session_items now stores [] = Implements-nothing
client_write-session_items now stores (s ∷ ss) =
    let rest = client_write-session_items now stores ss in
    elim (Bool-cases s.clean_session) [
      | inl e ↦ rw e rest
      | inr e ↦ (elim (Option-cases s.client.context.id) [
        | inl none_id ↦ rw (e, none_id) Implements-broken
        | inr (id, some_id) ↦
            (let c = client (record {
              id = id;
              last_mid = s.client.last_mid;
              disconnect_t = disconnected_at now s;
            }) in
              let msgs = s.client.context.msgs in
              let fs = client_fields now id s in
              rw (e, some_id)
                (Implements-both
                  (λ o. then_write (write_all fs o) (client_messages_write id stores msgs))
                  (client_write now stores ss) (both (some (c ∷ [])) (msg_items id stores msgs))
                  (session_items now stores ss)
                  (Implements-both (write_all fs) (client_messages_write id stores msgs)
                    (some (c ∷ [])) (msg_items id stores msgs)
                    (Implements-write_all fs c (λ h. joined-client_fields now id s h.0.1))
                    (client_messages_write-msg_items id stores msgs))
                  rest))
      ])
    ]

leaves_write-leaf_items :
    (sessions : List ClientState) (topic : Bytes) (ls : List Leaf)
    → Implements (leaves_write sessions topic ls) (leaf_items sessions topic ls)
unfolding leaves_write leaf_items
leaves_write-leaf_items sessions topic [] = Implements-nothing
leaves_write-leaf_items sessions topic (l ∷ ls) =
    let rest = leaves_write-leaf_items sessions topic ls in
    elim (Option-cases (session_at l.context sessions)) [
      | inl absent ↦ rw (leaves_write, leaf_items, absent) Implements-broken
      | inr (s, found) ↦ (elim (Bool-cases s.clean_session) [
        | inl e ↦ rw (leaves_write, leaf_items, found, e) rest
        | inr e ↦ (elim (Option-cases s.client.context.id) [
          | inl none_id ↦ rw (leaves_write, leaf_items, found, e, none_id) Implements-broken
          | inr (id, some_id) ↦
              (let x = subscribed (record { id = id; topic = topic; qos = l.qos }) in
                let fs = sub_fields id topic l.qos in
                rw (leaves_write, leaf_items, found, e, some_id)
                  (Implements-both (write_all fs) (leaves_write sessions topic ls) (some (x ∷ []))
                    (leaf_items sessions topic ls)
                    (Implements-write_all fs x (λ h. joined-sub_fields id topic l.qos)) rest))
        ])
      ])
    ]

retained_write-retained_items :
    (stores : List MsgStore) (o : Option ℕ)
    → Implements (retained_write stores o) (retained_items stores o)
unfolding retained_write retained_items
retained_write-retained_items stores none = Implements-nothing
retained_write-retained_items stores (some a) = elim (Option-cases (find_store a stores)) [
  | inl absent ↦ rw (retained_write, retained_items, absent) Implements-broken
  | inr (s, found) ↦ (elim (Option-cases s.topic) [
    | inl none_topic ↦ rw (retained_write, retained_items, found, none_topic) Implements-broken
    | inr (t, e) ↦ (elim (Bool-cases (is_sys t)) [
      | inl sys ↦ rw (retained_write, retained_items, found, e, sys) Implements-nothing
      | inr other ↦
          rw (retained_write, retained_items, found, e, other)
            (Implements-write_all (retain_fields s.db_id) (retained s.db_id) (λ h. refl))
    ])
  ])
]

go_on_done :
    (m : Bool) (w : Wrote) (below beside : Out → Option Out) (o : Out) (f g : Bytes)
    → m ≡ true
    → w ≡ wrote f
    → below (complete f) ≡ some (complete g)
    → go_on m w below beside o ≡ beside (complete g)
unfolding go_on
go_on_done m w below beside o f g h hw b = rw (h, hw, b) refl

pub encode_parts :
    (file : Bytes) (xs ys a b c : List Item)
    → xs ≡ ys ++ c
    → ys ≡ a ++ b
    → ((file ++ encode a) ++ encode b) ++ encode c ≡ file ++ encode xs
encode_parts file xs ys a b c e f =
    rw
      (
        e,
        f,
        encode-append (a ++ b) c,
        encode-append a b,
        append_assoc (file ++ encode a) (encode b) (encode c),
        append_assoc file (encode a) (encode b ++ encode c),
        append_assoc (encode a) (encode b) (encode c),
      )
      refl

-- The same for the tree, whose writer does not tell how it ended; every node has its text.
pub subs_retain_write-tree_items :
    (memory : ℕ → Bool) (stores : List MsgStore) (sessions : List ClientState) (topic : Bytes)
    (h : Hier) (xs : List Item)
    → ((a : ℕ) → memory a ≡ true)
    → tree_items stores sessions topic h ≡ some xs
    → All Fits xs
    → (file : Bytes)
    → subs_retain_write memory stores sessions topic h (complete file)
      ≡ some (complete (file ++ encode xs))
unfolding subs_retain_write tree_items
subs_retain_write-tree_items memory stores sessions topic end [] mem e fits file =
    rw (append-nil file) refl
subs_retain_write-tree_items memory stores sessions topic end (x ∷ xs) mem e fits file = cc
subs_retain_write-tree_items memory stores sessions topic (node n ch next) xs mem e fits file =
    let t = this_topic topic n.topic in
    let here = both (leaf_items sessions t n.subs) (retained_items stores n.retained) in
    let below = tree_items stores sessions t ch in
    let r = both_cases (both here below) (tree_items stores sessions topic next) xs e in
    let q = both_cases here below r.0 r.2 in
    let f = All-both r.0 r.1 (subst (All Fits) r.4 fits) in
    let g = All-both q.0 q.1 (subst (All Fits) q.4 f.0) in
    let at_node =
      Implements-both (leaves_write sessions t n.subs) (retained_write stores n.retained)
        (leaf_items sessions t n.subs) (retained_items stores n.retained)
        (leaves_write-leaf_items sessions t n.subs)
        (retained_write-retained_items stores n.retained) q.0 q.2 g.0 file in
    let at_children =
      subs_retain_write-tree_items memory stores sessions t ch q.1 mem q.3 g.1
        (file ++ encode q.0) in
    let beside =
      subs_retain_write-tree_items memory stores sessions topic next r.1 mem r.3 f.1
        ((file ++ encode q.0) ++ encode q.1) in
    go_on_done (memory n.address) _ (subs_retain_write memory stores sessions t ch)
      (subs_retain_write memory stores sessions topic next) (complete file) _ _ (mem n.address)
      at_node at_children
    ∙ beside
    ∙ ap (λ f. some (complete f)) (encode_parts file xs r.0 q.0 q.1 r.1 r.4 q.4)
