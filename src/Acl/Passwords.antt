-- ===== src/Acl/Passwords.antt =====
-- The passwords of src/security_default.c of mosquitto-1.4.2, as built with TLS, and the settings
-- that the broker applies when it has read its files again. The SHA-512 digest of a password and a
-- salt is OpenSSL's, an argument; it is `none` where there is no such digest.
use wirenboard.Common.{
  ℕ, Bool, true, false, not, ◌&&◌, if◌then◌else◌, ◌==◌, Option, none, some, List, [], ◌∷◌, Bytes,
  str_eq,
}
use wirenboard.Acl.{AclDb, Session, apply_acl}

-- `struct _mosquitto_unpwd`; the password is decoded, and its length is that of the bytes.
pub record Unpwd : Type 0 where
  pub username : Bytes
  pub password : Option Bytes
  pub salt : Bytes

-- `enum mosquitto_client_state`
pub data ClientState : Type 0 where
  new connected disconnecting connect_async connect_pending connect_srv : ClientState
  disconnect_ws disconnected socks5_new socks5_start socks5_request socks5_reply : ClientState
  socks5_auth_ok socks5_userpass_reply socks5_send_userpass expiring : ClientState

-- What the functions look at in `struct mosquitto` besides the part for the lists
pub record Login : Type 0 where
  pub session : Session
  pub password : Option Bytes
  pub state : ClientState
  pub clean_session : Bool
  pub has_will : Bool
  pub disconnect_t : ℕ
  pub has_socket : Bool

-- The clients that are known by their ids, and those that wait to be freed, the last one first.
pub record Clients : Type 0 where
  pub by_id : List Login
  pub for_free : List Login

-- A client stays known, or it is for freeing.
pub data Applied : Type 0 where
  stays drops : Login → Applied

abbrev pub is_absent : Option Bytes → Bool
is_absent none = true
is_absent (some u) = false

abbrev pub is_bridge : Option (Option Bytes) → Bool
is_bridge none = false
is_bridge (some b) = true

-- `mqtt3_context_disconnect` of a client that is disconnecting, whose will is not sent.
unfoldable pub context_disconnect : (now : ℕ) → Login → Login
context_disconnect now c = record c { has_will = false; disconnect_t = now; has_socket = false }

-- `state = mosq_cs_disconnecting`, and what `do_disconnect` does in this state.
unfoldable pub disconnect : (now : ℕ) → Login → Applied
unfolding context_disconnect
disconnect now c =
    let c1 = context_disconnect now c in
    if c1.clean_session && not (is_bridge c1.session.bridge)
    then drops (record c1 { session = record c1.session { id = none }; state = disconnected })
    else stays (record c1 { state = disconnected })

module _ (digest : (password : Bytes) → (salt : Bytes) → Option Bytes) where
  -- The decision of a user's entry
  unfoldable pub entry_check : Unpwd → (password : Option Bytes) → ℕ
  entry_check u password = elim u.password [
    | none ↦ 0
    | some stored ↦ (elim password [
      | none ↦ 11
      | some p ↦ (elim (digest p u.salt) [
        | none ↦ 1
        | some hash ↦ if str_eq stored hash then 0 else 11
      ])
    ])
  ]

  unfoldable pub unpwd_loop : List Unpwd → (username : Bytes) → (password : Option Bytes) → ℕ
  unpwd_loop [] username password = 11
  unpwd_loop (u ∷ us) username password =
      let rest = unpwd_loop us username password in
      if str_eq u.username username then entry_check u password else rest

  -- `mosquitto_unpwd_check_default`: MOSQ_ERR_SUCCESS is 0, MOSQ_ERR_INVAL is 3, MOSQ_ERR_AUTH is 11.
  unfoldable pub unpwd_check :
      List Unpwd → (username : Option Bytes) → (password : Option Bytes) → ℕ
  unpwd_check [] username password = 0
  unpwd_check (u ∷ us) none password = 3
  unpwd_check (u ∷ us) (some name) password = unpwd_loop (u ∷ us) name password

  -- One client in `mosquitto_security_apply_default`, at the time `now`
  unfoldable pub apply_login :
      (now : ℕ) → (allow_anonymous : Bool) → List Unpwd → AclDb → Login → Applied
  unfolding disconnect
  apply_login now allow_anonymous unpwd db c =
      if not allow_anonymous && is_absent c.session.username
      then disconnect now c
      else if not (unpwd_check unpwd c.session.username c.password == 0)
      then disconnect now c
      else stays (record c { session = apply_acl db.acl_list c.session })

  -- The loop over the clients that are known by their ids
  unfoldable pub apply_loop :
      (now : ℕ) → (allow_anonymous : Bool) → List Unpwd → AclDb → List Login → List Login → Clients
  unfolding apply_login
  apply_loop now allow_anonymous unpwd db [] for_free = record { by_id = []; for_free = for_free }
  apply_loop now allow_anonymous unpwd db (c ∷ cs) for_free =
      elim (apply_login now allow_anonymous unpwd db c) [
        | stays c' ↦
            (let r = apply_loop now allow_anonymous unpwd db cs for_free in
              record r { by_id = c' ∷ r.by_id })
        | drops c' ↦ apply_loop now allow_anonymous unpwd db cs (c' ∷ for_free)
      ]

  -- `mosquitto_security_apply_default`
  unfoldable pub security_apply :
      (now : ℕ) → (allow_anonymous : Bool) → List Unpwd → AclDb → Clients → Clients
  unfolding apply_loop
  security_apply now allow_anonymous unpwd db clients =
      apply_loop now allow_anonymous unpwd db clients.by_id clients.for_free
