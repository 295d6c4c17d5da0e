-- ===== src/Acl/Tests.antt =====
-- Access control lists at concrete inputs.
use wirenboard.Acl.Words.{file_of}
use wirenboard.Acl.Users.{IsUser, entry_of, pwfile_parse-file_of, pwfile_parse_underrun}
use wirenboard.Acl.PasswordFile.{LineMemory, parsed, underrun, pwfile_parse}
use wirenboard.Acl.Passwords.{Unpwd, Login, connected, Clients, security_apply}
use wirenboard.Acl.Reload.{Reloaded, security_apply-Reloaded}
use wirenboard.Common.{
  ◌≡◌, ◌≢◌, refl, true, false, if◌then◌else◌, Option, none, some, [], ◌∷◌, Bytes, All, ◌++◌, map,
  List, ℕ, arith, inr,
}
use wirenboard.Topic.{topic_matches_sub}
use wirenboard.Subs.Process.{granted, denied}
use wirenboard.Acl.{
  is_supplied, Acl, AclDb, Session, count_marker, add_acl, add_acl_pattern, acl_cleanup, apply_acl,
}
use wirenboard.Acl.Decision.{expand, acl_check_default}
use wirenboard.Acl.Expand.{IsCounted}
use wirenboard.Acl.Check.{is_allowed, acl_check_default-is_allowed}

-- `p/%c`
abbrev pattern_text : Bytes
pattern_text = b'p' ∷ b'/' ∷ b'%' ∷ b'c' ∷ []

abbrev pattern_c : Acl
pattern_c = record { topic = pattern_text; access = 1; ucount = 0; ccount = 1 }

pattern_c-IsCounted : IsCounted pattern_c
unfolding count_marker
pattern_c-IsCounted = record { of_client = refl; of_user = refl }

abbrev client_x : Bytes
client_x = b'x' ∷ b'y' ∷ b'z' ∷ []

abbrev anonymous : Option Bytes
anonymous = none

expanded : expand client_x anonymous pattern_text ≡ b'p' ∷ b'/' ∷ b'x' ∷ b'y' ∷ b'z' ∷ []
unfolding expand
expanded = refl

-- What the two functions that add entries make.
abbrev empty_db : AclDb
empty_db = record { acl_list = []; acl_patterns = [] }

abbrev lists : AclDb
lists = record {
  acl_list =
      record {
        username = none;
        acl = record { topic = b'a' ∷ []; access = 1; ucount = 0; ccount = 0 } ∷ [];
      }
      ∷ [];
  acl_patterns = pattern_c ∷ [];
}

lists_added :
    (add_acl_pattern
      (some pattern_text)
      1
      (true ∷ true ∷ [])
      (add_acl none (some (b'a' ∷ [])) 1 (true ∷ true ∷ true ∷ []) empty_db).0).0
    ≡ lists
unfolding add_acl add_acl_pattern
lists_added = refl

abbrev session : Bytes → Session
session id = record { id = some id; username = none; bridge = none; acl_list = none }

acl_check_default-is_allowed_example :
    let outcome =
      acl_check_default lists
        (session client_x)
        (some (b'p' ∷ b'/' ∷ b'x' ∷ []))
        1
        (true ∷ [])
        false in
    let says = is_allowed lists (session client_x) client_x (b'p' ∷ b'/' ∷ b'x' ∷ []) 1 in
    (is_supplied 1 (true ∷ []) ≡ true → outcome ≡ some (if says then granted else denied))
    × (outcome ≡ some granted → says ≡ true)
    × (outcome ≢ none)
acl_check_default-is_allowed_example =
    acl_check_default-is_allowed lists (session client_x) client_x b'p' (b'/' ∷ b'x' ∷ []) 1
      (true ∷ []) false refl (pattern_c-IsCounted, tt)

-- A client reads the topic that has its id, and no other one; the id `#` reads them all.
own_topic :
    acl_check_default lists
      (session client_x)
      (some (b'p' ∷ b'/' ∷ b'x' ∷ b'y' ∷ b'z' ∷ []))
      1
      (true ∷ [])
      false
    ≡ some granted
unfolding acl_check_default topic_matches_sub
own_topic = refl

other_topic :
    acl_check_default lists (session client_x) (some (b'p' ∷ b'/' ∷ b'x' ∷ [])) 1 (true ∷ []) false
    ≡ some denied
unfolding acl_check_default topic_matches_sub
other_topic = refl

wildcard_id :
    acl_check_default lists
      (session (b'#' ∷ []))
      (some (b'p' ∷ b'/' ∷ b'x' ∷ []))
      1
      (true ∷ [])
      false
    ≡ some granted
unfolding acl_check_default topic_matches_sub
wildcard_id = refl

-- Without lists of users the patterns outlive the cleanup.
patterns_stay :
    (acl_cleanup (record { acl_list = []; acl_patterns = pattern_c ∷ [] }) []).0.acl_patterns
    ≡ pattern_c ∷ []
unfolding acl_cleanup
patterns_stay = refl

user_applied :
    (apply_acl lists.acl_list (session client_x)).acl_list
    ≡ some (record {
      username = none;
      acl = record { topic = b'a' ∷ []; access = 1; ucount = 0; ccount = 0 } ∷ [];
    })
unfolding apply_acl
user_applied = refl

-- A digest that puts the salt behind the password
abbrev salted : Bytes → Bytes → Option Bytes
salted p salt = some (p ++ salt)

abbrev user_x : Unpwd
user_x = record { username = client_x; password = some (5 ∷ 6 ∷ []); salt = 6 ∷ [] }

abbrev login : Login
login = record {
  session = record { id = some client_x; username = some client_x; bridge = none; acl_list = none };
  password = some (5 ∷ []);
  state = connected;
  clean_session = true;
  has_will = false;
  disconnect_t = 0;
  has_socket = true;
}

-- The same client with another password
abbrev intruder : Login
intruder = record login { password = some (7 ∷ []) }

abbrev clients : Clients
clients = record { by_id = login ∷ intruder ∷ []; for_free = [] }

security_apply-Reloaded_example :
    Reloaded salted 9 false
      (user_x ∷ [])
      lists
      clients.by_id
      clients.for_free
      (security_apply salted 9 false (user_x ∷ []) lists clients)
unfolding acl_cleanup
security_apply-Reloaded_example =
    security_apply-Reloaded salted 9 false (user_x ∷ []) empty_db lists
      (login.session ∷ intruder.session ∷ []) clients (inr refl, (inr refl, tt)) refl

abbrev users : List (Bytes × Bytes)
users = (b'a' ∷ b'b' ∷ [], b'$' ∷ b'6' ∷ []) ∷ (b'c' ∷ [], b'x' ∷ []) ∷ []

abbrev supplied : ℕ → LineMemory
supplied i = record { entry = true; name = true; secret = true }

users-IsUser : All IsUser users
users-IsUser = ground arith

pwfile_parse-file_of_example :
    pwfile_parse supplied [] (file_of users) ≡ parsed (map entry_of users) 0
pwfile_parse-file_of_example =
    pwfile_parse-file_of supplied users (λ j. (refl, refl, refl)) users-IsUser

pwfile_parse_underrun_example :
    pwfile_parse supplied [] (file_of users ++ (10 ∷ file_of users)) ≡ underrun
pwfile_parse_underrun_example =
    pwfile_parse_underrun supplied users (file_of users) (λ j. (refl, refl, refl)) users-IsUser
