-- ===== src/Subs/Steps/Served.antt =====
-- What publications and subscriptions find in the trees that come about.
use mathlib.Core.Option
use wirenboard.Common.{ℕ, ◌≡◌, true, false, Option, some, Bytes, List}
use wirenboard.Topic.{valid, pub_topic_check, sub_topic_check}
use wirenboard.Topic.Check.{IsCString}
use wirenboard.Subs.Tokens.{Heap, Cursor, path_of, tokenise}
use wirenboard.Subs.Tree.{Hier, State}
use wirenboard.Subs.Search.Entries.{entries, deliver}
use wirenboard.Subs.Process.{Publication, Delivery, subs_process}
use wirenboard.Subs.Calls.{refer_stored, release_stored, messages_queue}
use wirenboard.Subs.Publish.{root_of_path, messages_queue-deliver}
use wirenboard.Subs.Retain.{Request, Receiver, retain_process, retain_queue}
use wirenboard.Subs.Retain.Kept.{shelf, tally, occurrences, run}
use wirenboard.Subs.Retain.Queue.{retain_queue-tally}
use wirenboard.Subs.Steps.{Reachable}
use wirenboard.Subs.Steps.Order.{Reachable-InOrder}

-- In a tree that came about behind `mqtt3_db_open`, a topic that `mqtt3_db_messages_queue` is given
-- with `retain` not set, which `mosquitto_pub_topic_check` accepts, and whose tokens are made: what
-- happens is that the stored message is referred to, the nodes below the root of the topic's first
-- token are processed whose path matches the topic, in the order of the tree, and the reference is
-- given back.
pub messages_queue-Reachable :
    (m : Publication) (heap : Heap) (r : Cursor) (nodes : State) (roots : Hier) (d : Delivery)
    → m.retain ≡ false
    → pub_topic_check m.topic ≡ valid
    → tokenise m.topic heap ≡ some r
    → Reachable roots
    → (messages_queue m heap nodes roots d).0.delivery
      ≡ Option.map (release_stored m) (
          deliver
            (subs_process m)
            (entries (root_of_path (path_of m.topic) roots))
            (path_of m.topic)
            true
            (some (refer_stored m d)))
messages_queue-Reachable m heap r nodes roots d fresh ok made reached =
    let tree = (Reachable-InOrder reached).tree in
    messages_queue-deliver m heap r nodes roots d fresh ok made tree.distinct tree.ended

-- In a tree that came about behind `mqtt3_db_open`, a filter that `mosquitto_sub_topic_check`
-- accepts, and whose tokens are made: `mqtt3_retain_queue` gives `_retain_process` a list of
-- retained messages, one after the other, and returns 0. Each stored message is in the list as
-- often as the tree below the root of the filter's first token retains it at a path that the filter
-- matches, where a match by a `#` below the path itself counts only if the node has children, or is
-- the last of its siblings and not at the top.
pub retain_queue-Reachable :
    (q : Request) (sub : Bytes) (heap : Heap) (r : Cursor) (roots : Hier) (s : Option Receiver)
    → IsCString sub
    → sub_topic_check sub ≡ valid
    → tokenise sub heap ≡ some r
    → Reachable roots
    → (rs : List ℕ) × (retain_queue q sub heap roots s ≡ (run (retain_process q) rs s, 0))
      × ((x : ℕ)
          → occurrences x rs ≡ tally x (path_of sub) (shelf 0 (root_of_path (path_of sub) roots)))
retain_queue-Reachable q sub heap r roots s c_string accepted made reached =
    retain_queue-tally q sub heap r roots s c_string accepted made
      (Reachable-InOrder reached).hollow
