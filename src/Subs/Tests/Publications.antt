-- ===== src/Subs/Tests/Publications.antt =====
-- Publications, retained messages and sequences of calls at concrete inputs.
use wirenboard.Common.{
  ℕ, ◌≡◌, if◌then◌else◌, ◌==◌, refl, true, false, Option, none, some, List, [], ◌∷◌, Bytes, length,
  pos,
}
use mathlib.Core.Option
use wirenboard.Topic.{valid, pub_topic_check, sub_topic_check}
use wirenboard.Topic.Check.{IsCString}
use wirenboard.Topic.Levels.{hash}
use wirenboard.Broker.State.{MsgStore, Db, Setting}
use wirenboard.Broker.Insert.{find_store, message_insert}
use wirenboard.Packet.Outgoing.{mid_generate}
use wirenboard.Subs.Tokens.{tokenise, path_of}
use wirenboard.Subs.Tree.{Subscriber, no_memory, overrun, keep_reference}
use wirenboard.Subs.Search.{sub_search}
use wirenboard.Subs.Search.Entries.{entries, deliver}
use wirenboard.Subs.Process.{
  Client, Delivery, Access, granted, denied, Publication, find_client, subs_process,
}
use wirenboard.Subs.Calls.{add_subscription, messages_queue, refer_stored, release_stored}
use wirenboard.Subs.Publish.{root_of_path}
use wirenboard.Subs.Access.{Untouched, messages_queue-Untouched}
use wirenboard.Subs.Count.{keep_reference_overrun}
use wirenboard.Subs.Retain.{Request, Receiver, retain_process, retain_queue}
use wirenboard.Subs.Retain.Kept.{shelf, tally, occurrences, run}
use wirenboard.Subs.Steps.{Reachable, open_roots, subscribe, opened, called, InOrder}
use wirenboard.Subs.Steps.Order.{Reachable-InOrder}
use wirenboard.Subs.Steps.Served.{messages_queue-Reachable, retain_queue-Reachable}
use wirenboard.Subs.Tree.{sub_add, State, Hier}
use wirenboard.Subs.Tests.{letter_a, letter_b, a_hash, many, roots, id_of, state}

abbrev stored : MsgStore
stored = record {
  address = 500;
  db_id = 1;
  ref_count = pos 1;
  source_id = letter_a;
  source_mid = 1;
  topic = some letter_a;
  payload = 7 ∷ [];
  qos = 1;
  retain = false;
  dest_ids = [];
}

abbrev db : Db
db = record {
  last_db_id = 1;
  msg_store = stored ∷ [];
  msg_store_count = pos 1;
  persistence_changes = pos 0;
  allow_duplicate_messages = true;
  queue_qos0_messages = false;
  msgs_dropped = 0;
}

abbrev client : ℕ → Bytes → Client
client a id = record {
  address = a;
  is_bridge = false;
  last_mid = 4;
  context = record {
    id = some id;
    connected = true;
    bridge = none;
    is_dropping = false;
    msgs = [];
    last_msg = none;
    msg_count = pos 0;
    msg_count12 = pos 0;
  };
}

abbrev setting : Setting
setting = record { max_inflight = 5; max_queued = 5; now = 9 }

-- Access control that refuses the client at 71.
abbrev all_but_71 : ℕ → Access
all_but_71 a = if a == 71 then denied else granted

abbrev publication : Publication
publication = record {
  source_id = some letter_a;
  topic = letter_a;
  qos = 1;
  retain = false;
  stored = 500;
  has_payload = true;
  upgrade_outgoing_qos = false;
  access = λ c topic. all_but_71 c.address;
  memory = λ c. record { message = some 20; array = true; copy = true };
  setting = setting;
}

abbrev publication_71 : Publication
publication_71 = record publication { access = λ c topic. granted }

abbrev delivery : Delivery
delivery = record {
  db = db;
  clients = client 70 letter_a ∷ client 71 letter_b ∷ [];
  retained_count = pos 1;
}

made :
    tokenise letter_a many ≡ some (record { tokens = [] ∷ letter_a ∷ []; heap = true ∷ true ∷ [] })
unfolding tokenise
made = refl

accepted : pub_topic_check letter_a ≡ valid
unfolding pub_topic_check
accepted = refl

-- The client at 70 has the message, with the next message id; the one at 71 has none.
abbrev summary : Option Client → ℕ × ℕ
summary none = (0, 0)
summary (some c) = (c.last_mid, length c.context.msgs)

abbrev outcome_of : ℕ → Option Delivery → ℕ × ℕ
outcome_of a none = (0, 0)
outcome_of a (some d) = summary (find_client a d.clients)

message_comes :
    outcome_of 70 (messages_queue publication many state roots delivery).0.delivery ≡ (5, 1)
unfolding messages_queue find_client tokenise sub_search subs_process message_insert mid_generate
message_comes = refl

messages_queue-Untouched_example :
    Untouched 71
      (client 71 letter_b)
      (messages_queue publication many state roots delivery).0.delivery
unfolding find_client
messages_queue-Untouched_example =
    messages_queue-Untouched publication 71 (client 71 letter_b) many state roots delivery
      (λ e. cc e) refl

abbrev request : Request
request = record {
  qos = 1;
  access = λ c topic. granted;
  memory = λ c. record { message = some 20; array = true; copy = true };
  setting = setting;
}

abbrev receiver : Option Receiver
receiver = some (record { db = db; client = client 71 letter_b })

a_hash_accepted : sub_topic_check a_hash ≡ valid
unfolding sub_topic_check
a_hash_accepted = refl

a_hash-IsCString : IsCString a_hash
a_hash-IsCString = (λ e. cc e, (λ e. cc e, (λ e. cc e, tt)))

made_hash : tokenise a_hash many ≡ some (record { tokens = [] ∷ letter_a ∷ hash ∷ []; heap = [] })
unfolding tokenise
made_hash = refl

abbrev received : Option Receiver → ℕ
received none = 0
received (some r) = length r.client.context.msgs

-- The retained message of `a` comes for the filter `a`. For `a/#` it does not: the node has no
-- children and a sibling behind it.
retained_comes : received (retain_queue request letter_a many roots receiver).0 ≡ 1
unfolding retain_queue tokenise find_store message_insert
retained_comes = refl

retained_missed : received (retain_queue request a_hash many roots receiver).0 ≡ 0
unfolding retain_queue tokenise
retained_missed = refl

-- The tree that a subscription of `a/#` makes of the first one.
abbrev rich : State
rich = record state {
  heap =
      some 1 ∷ some 2 ∷ some 3 ∷ some 4 ∷ some 5 ∷ some 6 ∷ some 7 ∷ some 8 ∷ some 9 ∷ some 10 ∷ [];
}

abbrev reached_roots : Hier
reached_roots = (add_subscription id_of a_hash 1 many (open_roots rich).hier rich).hier

reached : Reachable reached_roots
reached =
    called (opened rich)
      (subscribe id_of a_hash 1 many (open_roots rich).hier rich a_hash-IsCString a_hash_accepted)

Reachable-InOrder_example : InOrder reached_roots
Reachable-InOrder_example = Reachable-InOrder reached

messages_queue-Reachable_example :
    (messages_queue publication many rich reached_roots delivery).0.delivery
    ≡ Option.map (release_stored publication) (
        deliver
          (subs_process publication)
          (entries (root_of_path (path_of letter_a) reached_roots))
          (path_of letter_a)
          true
          (some (refer_stored publication delivery)))
messages_queue-Reachable_example =
    messages_queue-Reachable publication many
      (record { tokens = [] ∷ letter_a ∷ []; heap = true ∷ true ∷ [] }) rich reached_roots delivery
      refl accepted made reached

retain_queue-Reachable_example :
    (rs : List ℕ) × (retain_queue request a_hash many reached_roots receiver
      ≡ (run (retain_process request) rs receiver, 0))
    × ((x : ℕ)
        → occurrences x rs
          ≡ tally x (path_of a_hash) (shelf 0 (root_of_path (path_of a_hash) reached_roots)))
retain_queue-Reachable_example =
    retain_queue-Reachable request a_hash many
      (record { tokens = [] ∷ letter_a ∷ hash ∷ []; heap = [] }) reached_roots receiver
      a_hash-IsCString a_hash_accepted made_hash reached

-- The client that subscribed to `a/#` has the message for `a`.
reached_comes :
    outcome_of 71 (messages_queue publication_71 many rich reached_roots delivery).0.delivery
    ≡ (5, 1)
unfolding messages_queue find_client tokenise sub_search subs_process message_insert mid_generate
    add_subscription open_roots sub_add
reached_comes = refl

abbrev full_client : Subscriber
full_client = record {
  address = 71;
  id = some letter_b;
  is_mqtt31 = false;
  subs = some (some 4 ∷ []);
  sub_count = 1;
}

keep_reference_overrun_example :
    ((keep_reference 3 full_client (record state { heap = none ∷ [] })).code ≡ no_memory)
    × ((keep_reference 5
          (keep_reference 3 full_client (record state { heap = none ∷ [] })).subscriber
          state).code
        ≡ overrun)
keep_reference_overrun_example =
    keep_reference_overrun 3 5 full_client (some 4 ∷ []) (record state { heap = none ∷ [] }) state
      [] refl refl (λ e. cc e, tt) refl
