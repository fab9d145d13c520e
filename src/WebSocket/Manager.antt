-- ===== src/WebSocket/Manager.antt =====
-- app/services/websocket_manager.py. The dictionary of connections is the list of its entries in
-- the order of insertion; a socket is a number. `delivers` says of a socket whether `send_json`
-- returns or raises. Sending returns the sockets that got the message, in order. No other task runs
-- while a call awaits.
use python_fastapi_multiauth.Common.{
  ℕ, Bool, Option, none, some, List, [], ◌∷◌, ◌++◌, if◌then◌else◌, ◌==◌, delete_where, exists, save,
  has_key, length,
}

pub record Connection : Type 0 where
  pub user_id : ℕ
  pub websocket : ℕ

abbrev pub Connections : Type 0
Connections = List Connection

abbrev pub connection_user : Connection → ℕ
connection_user c = c.user_id

unfoldable pub is_connected : ℕ → Connections → Bool
is_connected user connections = exists (has_key connection_user user) connections

-- `websocket.accept()` is done. Assigning to a key that is there keeps its place.
unfoldable pub connect : (websocket user : ℕ) → Connections → Connections
unfolding is_connected
connect websocket user connections =
    let entry : Connection = record { user_id = user; websocket = websocket } in
    if is_connected user connections
    then save connection_user entry connections
    else connections ++ entry ∷ []

unfoldable pub disconnect : ℕ → Connections → Connections
disconnect user connections = delete_where (has_key connection_user user) connections

-- `active_connections[user_id]`, if the key is there.
unfoldable pub socket_of : ℕ → Connections → Option ℕ
socket_of user [] = none
socket_of user (c ∷ connections) =
    let rest = socket_of user connections in if c.user_id == user then some c.websocket else rest

module _ (delivers : ℕ → Bool) where
  unfoldable pub send_personal_message : ℕ → Connections → List ℕ × Connections
  unfolding socket_of disconnect
  send_personal_message user connections = elim (socket_of user connections) [
    | none ↦ ([], connections)
    | some websocket ↦
        if delivers websocket
        then (websocket ∷ [], connections)
        else ([], disconnect user connections)
  ]

  -- The first loop of `broadcast`: who got the message, and whose socket raised.
  unfoldable pub send_each : Connections → List ℕ × List ℕ
  send_each [] = ([], [])
  send_each (c ∷ connections) =
      let (sent, disconnected_users) = send_each connections in
      if delivers c.websocket
      then (c.websocket ∷ sent, disconnected_users)
      else (sent, c.user_id ∷ disconnected_users)

  unfoldable pub disconnect_each : List ℕ → Connections → Connections
  unfolding disconnect
  disconnect_each [] connections = connections
  disconnect_each (user ∷ users) connections = disconnect_each users (disconnect user connections)

  unfoldable pub broadcast : Connections → List ℕ × Connections
  unfolding send_each disconnect_each
  broadcast connections =
      let (sent, disconnected_users) = send_each connections in
      (sent, disconnect_each disconnected_users connections)

  unfoldable pub send_to_users : List ℕ → Connections → List ℕ × Connections
  unfolding send_personal_message
  send_to_users [] connections = ([], connections)
  send_to_users (user ∷ users) connections =
      let (sent, left) = send_personal_message user connections in
      let (more, last) = send_to_users users left in (sent ++ more, last)

unfoldable pub connection_count : Connections → ℕ
connection_count connections = length connections
