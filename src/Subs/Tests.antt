-- ===== src/Subs/Tests.antt =====
-- The subscription tree at concrete inputs.
mod Publications
use wirenboard.Common.{
  ℕ, ◌≡◌, ◌≢◌, ◌∙◌, ◌&&◌, if◌then◌else◌, ◌==◌, refl, arith, inl, true, false, Bool, Option, none,
  some, List, [], ◌∷◌, Bytes, length, All, pos, ℤ, str_eq,
}
use mathlib.Core.Option
use wirenboard.Topic.Levels.{hash, plus}
use wirenboard.Broker.State.{MsgStore, ClientMsg, Context, Db, Setting}
use wirenboard.Broker.Insert.{Allocation}
use wirenboard.Subs.Tokens.{Heap, Cursor, tokenise, path_of, ready, tokenise-path_of}
use wirenboard.Subs.Tree.{
  Leaf, Node, Hier, end, node, Subscriber, State, Code, success, no_memory, overrun, client_id,
  sub_add, keep_reference,
}
use wirenboard.Subs.Prune.{sub_remove}
use wirenboard.Subs.Paths.{leaves_at, path_eq, after, sub_add-leaves_at}
use wirenboard.Subs.Distinct.{IsDistinct}
use wirenboard.Subs.Removed.{gone, sub_remove-leaves_at}
use wirenboard.Subs.Search.{sub_search}
use wirenboard.Subs.Search.Entries.{entries, deliver}
use wirenboard.Subs.Search.Order.{sub_search-deliver}
use wirenboard.Subs.Process.{
  Client, Delivery, Access, granted, denied, Publication, find_client, subs_process,
}
use wirenboard.Subs.Calls.{add_subscription, messages_queue, refer_stored, release_stored}
use wirenboard.Subs.Publish.{root_of_path, messages_queue-deliver}
use wirenboard.Subs.Access.{Untouched, messages_queue-Untouched}
use wirenboard.Subs.Count.{keep_reference_overrun}
use wirenboard.Subs.Retain.{Request, Receiver, retain_process, retain_queue}
use wirenboard.Subs.Retain.Kept.{shelf, tally, occurrences, run}
use wirenboard.Subs.Retain.Queue.{retain_queue-tally}
use wirenboard.Subs.Steps.{open_roots, subscribe, Reachable, opened, called, InOrder}
use wirenboard.Subs.Steps.Order.{Reachable-InOrder}

abbrev pub letter_a : Bytes
letter_a = b'a' ∷ []

abbrev pub letter_b : Bytes
letter_b = b'b' ∷ []

abbrev pub slash_a : Bytes
slash_a = b'/' ∷ b'a' ∷ []

abbrev pub a_hash : Bytes
a_hash = b'a' ∷ b'/' ∷ b'#' ∷ []

abbrev pub many : Heap
many = true ∷ true ∷ true ∷ true ∷ true ∷ true ∷ []

tokens_slash_a :
    tokenise slash_a many ≡ some (record { tokens = [] ∷ [] ∷ letter_a ∷ []; heap = [] })
unfolding tokenise
tokens_slash_a = refl

tokenise-path_of_example :
    ((r : Cursor) → tokenise slash_a many ≡ some r → r.tokens ≡ path_of slash_a)
    × (tokenise slash_a (ready (length (path_of slash_a)) many)
        ≡ some (record { tokens = path_of slash_a; heap = many }))
tokenise-path_of_example = tokenise-path_of slash_a many

abbrev pub bare : ℕ → Bytes → Node
bare a t = record { address = a; topic = t; subs = []; retained = none }

abbrev pub one : Leaf
one = record { context = 70; qos = 1 }

abbrev pub two : Leaf
two = record { context = 71; qos = 0 }

-- Below the empty level: the topic `a` with a client and a retained message, and a `+` with another
-- client.
abbrev pub below_empty : Hier
below_empty =
    node (record (bare 3 letter_a) { subs = one ∷ []; retained = some 500 }) end
      (node (record (bare 4 plus) { subs = two ∷ [] }) end end)

abbrev pub roots : Hier
roots = node (bare 1 []) (node (bare 2 []) below_empty end) end

abbrev pub id_of : ℕ → Option Bytes
id_of c = if c == 70 then some letter_a else if c == 71 then some letter_b else none

abbrev pub subscriber : Subscriber
subscriber = record {
  address = 71;
  id = some letter_b;
  is_mqtt31 = false;
  subs = some (some 4 ∷ []);
  sub_count = 1;
}

abbrev pub state : State
state = record {
  heap = some 30 ∷ some 31 ∷ some 32 ∷ [];
  client = some subscriber;
  subscription_count = pos 2;
}

sub_add-leaves_at_example :
    leaves_at
      ([] ∷ letter_a ∷ [])
      (sub_add id_of 2
        ([] ∷ letter_a ∷ [])
        (bare 1 [])
        (node (bare 2 []) below_empty end)
        state).node
      (sub_add id_of 2
        ([] ∷ letter_a ∷ [])
        (bare 1 [])
        (node (bare 2 []) below_empty end)
        state).children
    ≡ (if path_eq ([] ∷ letter_a ∷ []) ([] ∷ letter_a ∷ [])
        then after id_of 2
            (client_id state.client)
            (sub_add id_of 2
              ([] ∷ letter_a ∷ [])
              (bare 1 [])
              (node (bare 2 []) below_empty end)
              state).code
            (leaves_at ([] ∷ letter_a ∷ []) (bare 1 []) (node (bare 2 []) below_empty end))
        else leaves_at ([] ∷ letter_a ∷ []) (bare 1 []) (node (bare 2 []) below_empty end))
sub_add-leaves_at_example =
    sub_add-leaves_at id_of 2 ([] ∷ letter_a ∷ []) ([] ∷ letter_a ∷ []) (bare 1 [])
      (node (bare 2 []) below_empty end) state

-- The new leaf stands behind the one that is there.
sub_add_behind :
    leaves_at
      ([] ∷ letter_a ∷ [])
      (bare 1 [])
      (sub_add id_of 2
        ([] ∷ letter_a ∷ [])
        (bare 1 [])
        (node (bare 2 []) below_empty end)
        state).children
    ≡ one ∷ record { context = 71; qos = 2 } ∷ []
unfolding sub_add
sub_add_behind = refl

apart : IsDistinct (node (bare 2 []) below_empty end)
apart = (tt, ((refl, tt), tt, (tt, tt, tt)), tt)

sub_remove-leaves_at_example :
    leaves_at
      ([] ∷ plus ∷ [])
      (sub_remove
        ([] ∷ plus ∷ [])
        (bare 1 [])
        (node (bare 2 []) below_empty end)
        subscriber
        state).node
      (sub_remove
        ([] ∷ plus ∷ [])
        (bare 1 [])
        (node (bare 2 []) below_empty end)
        subscriber
        state).children
    ≡ (if path_eq ([] ∷ plus ∷ []) ([] ∷ plus ∷ [])
        then gone subscriber.address
            (leaves_at ([] ∷ plus ∷ []) (bare 1 []) (node (bare 2 []) below_empty end))
        else leaves_at ([] ∷ plus ∷ []) (bare 1 []) (node (bare 2 []) below_empty end))
sub_remove-leaves_at_example =
    sub_remove-leaves_at subscriber ([] ∷ plus ∷ []) ([] ∷ plus ∷ []) (bare 1 [])
      (node (bare 2 []) below_empty end) state apart

-- The node that is left with nothing goes.
sub_remove_prunes :
    (sub_remove
      ([] ∷ plus ∷ [])
      (bare 1 [])
      (node (bare 2 []) below_empty end)
      subscriber
      state).children
    ≡ node
        (bare 2 [])
        (node (record (bare 3 letter_a) { subs = one ∷ []; retained = some 500 }) end end)
        end
unfolding sub_remove
sub_remove_prunes = refl

note_address : Bool → Node → List ℕ → Node × List ℕ
note_address sr n s = (n, n.address ∷ s)

sub_search-deliver_example :
    (sub_search note_address (node (bare 2 []) below_empty end) ([] ∷ letter_a ∷ []) true []).state
    ≡ deliver note_address (entries (node (bare 2 []) below_empty end)) ([] ∷ letter_a ∷ []) true []
sub_search-deliver_example =
    sub_search-deliver note_address (node (bare 2 []) below_empty end) ([] ∷ letter_a ∷ []) []
      (λ h. cc h, ((λ h. refl, tt, (λ h. refl, tt, tt))), tt) (refl, (refl, tt))

search_both :
    (sub_search note_address (node (bare 2 []) below_empty end) ([] ∷ letter_a ∷ []) true []).state
    ≡ 4 ∷ 3 ∷ []
unfolding sub_search note_address
search_both = refl
