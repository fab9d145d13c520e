-- ===== src/WebSocket/Connections.antt =====
-- The dictionary over sequences of calls: one connection for each user.
use python_fastapi_multiauth.Common.{
  ℕ, ◌≡◌, ◌≢◌, refl, ◌∙◌, Bool, true, false, none, some, List, [], ◌∷◌, ◌++◌, inl, inr, ◌==◌,
  if◌then◌else◌, Bool-cases, select, select-exists, exists, has_key, save, Distinct, Distinct-save,
  Distinct-append, Distinct-delete, map, arith,
}
use python_fastapi_multiauth.WebSocket.Manager.{
  Connection, Connections, connection_user, is_connected, connect, disconnect, socket_of,
  send_personal_message, disconnect_each, send_each, broadcast, send_to_users,
}
use python_fastapi_multiauth.WebSocket.Delivery.{works, broadcast_exact, socket_of-disconnect}

-- A call on the manager, with the sockets that work during it.
pub data Call : Type 0 where
  opens : (websocket user : ℕ) → Call
  closes : (user : ℕ) → Call
  sends : (delivers : ℕ → Bool) (users : List ℕ) → Call
  broadcasts : (delivers : ℕ → Bool) → Call

unfoldable pub perform : Call → Connections → Connections
perform (opens websocket user) m = connect websocket user m
perform (closes user) m = disconnect user m
perform (sends delivers users) m = (send_to_users delivers users m).1
perform (broadcasts delivers) m = (broadcast delivers m).1

unfoldable pub run : List Call → Connections → Connections
unfolding perform
run [] m = m
run (c ∷ calls) m = run calls (perform c m)

connect-Distinct :
    (websocket user : ℕ) (m : Connections)
    → Distinct connection_user m
    → Distinct connection_user (connect websocket user m)
unfolding connect is_connected
connect-Distinct websocket user m d =
    let entry : Connection = record { user_id = user; websocket = websocket } in
    elim (Bool-cases (is_connected user m)) [
      | inl known ↦ rw known (Distinct-save connection_user entry m d)
      | inr fresh ↦ rw fresh (
          Distinct-append connection_user entry m d
            (select-exists (has_key connection_user user) m fresh))
    ]

disconnect-Distinct :
    (user : ℕ) (m : Connections)
    → Distinct connection_user m
    → Distinct connection_user (disconnect user m)
unfolding disconnect
disconnect-Distinct user m d = Distinct-delete connection_user user m d

disconnect_each-Distinct :
    (delivers : ℕ → Bool) (users : List ℕ) (m : Connections)
    → Distinct connection_user m
    → Distinct connection_user (disconnect_each delivers users m)
unfolding disconnect_each
disconnect_each-Distinct delivers [] m d = d
disconnect_each-Distinct delivers (u ∷ users) m d =
    disconnect_each-Distinct delivers users (disconnect u m) (disconnect-Distinct u m d)

send-Distinct :
    (delivers : ℕ → Bool) (user : ℕ) (m : Connections)
    → Distinct connection_user m
    → Distinct connection_user (send_personal_message delivers user m).1
unfolding send_personal_message
send-Distinct delivers user m d = ground (arith, disconnect-Distinct user m d)

send_to_users-Distinct :
    (delivers : ℕ → Bool) (users : List ℕ) (m : Connections)
    → Distinct connection_user m
    → Distinct connection_user (send_to_users delivers users m).1
unfolding send_to_users
send_to_users-Distinct delivers [] m d = d
send_to_users-Distinct delivers (u ∷ users) m d =
    send_to_users-Distinct delivers users _ (send-Distinct delivers u m d)

perform-Distinct :
    (c : Call) (m : Connections)
    → Distinct connection_user m
    → Distinct connection_user (perform c m)
unfolding perform broadcast
perform-Distinct (opens websocket user) m d = connect-Distinct websocket user m d
perform-Distinct (closes user) m d = disconnect-Distinct user m d
perform-Distinct (sends delivers users) m d = send_to_users-Distinct delivers users m d
perform-Distinct (broadcasts delivers) m d =
    disconnect_each-Distinct delivers (send_each delivers m).1 m d

run-Distinct :
    (calls : List Call) (m : Connections)
    → Distinct connection_user m
    → Distinct connection_user (run calls m)
unfolding run
run-Distinct [] m d = d
run-Distinct (c ∷ calls) m d = run-Distinct calls (perform c m) (perform-Distinct c m d)

-- After any sequence of calls on a manager without connections, a broadcast reaches exactly the
-- connected sockets that work, each once for its connection and in the order of the connections, and
-- leaves exactly their connections.
pub broadcast_reaches :
    (calls : List Call) (delivers : ℕ → Bool)
    → let m = run calls [] in
      Distinct connection_user m
      × (broadcast delivers m
          ≡ (map (λ c. c.websocket) (select (works delivers) m), select (works delivers) m))
broadcast_reaches calls delivers =
    let d = run-Distinct calls [] tt in (d, broadcast_exact delivers (run calls []) d)

socket_of-save_other :
    (v websocket user : ℕ) (m : Connections)
    → (v == user) ≡ false
    → socket_of v (save connection_user (record { user_id = user; websocket = websocket }) m)
      ≡ socket_of v m
unfolding socket_of
socket_of-save_other v websocket user [] h = refl
socket_of-save_other v websocket user (c ∷ m) h =
    ground (arith, socket_of-save_other v websocket user m)

socket_of-save :
    (v websocket user : ℕ) (m : Connections)
    → exists (has_key connection_user user) m ≡ true
    → socket_of v (save connection_user (record { user_id = user; websocket = websocket }) m)
      ≡ (if v == user then some websocket else socket_of v m)
unfolding socket_of
socket_of-save v websocket user [] h = ground arith
socket_of-save v websocket user (c ∷ m) h =
    ground (arith, socket_of-save v websocket user m, socket_of-save_other v websocket user m)

socket_of-append :
    (v websocket user : ℕ) (m : Connections)
    → exists (has_key connection_user user) m ≡ false
    → socket_of v (m ++ record { user_id = user; websocket = websocket } ∷ [])
      ≡ (if v == user then some websocket else socket_of v m)
unfolding socket_of
socket_of-append v websocket user [] h = ground arith
socket_of-append v websocket user (c ∷ m) h = ground (arith, socket_of-append v websocket user m)

connect-socket_of :
    (v websocket user : ℕ) (m : Connections)
    → socket_of v (connect websocket user m) ≡ (if v == user then some websocket else socket_of v m)
unfolding connect is_connected
connect-socket_of v websocket user m = elim (Bool-cases (exists (has_key connection_user user) m)) [
  | inl known ↦ rw known (socket_of-save v websocket user m known)
  | inr fresh ↦ rw fresh (socket_of-append v websocket user m fresh)
]

-- A user's new connection takes the place of an older one. When the task that served the older one
-- then ends and disconnects the user, the new connection is forgotten although it is open, and no
-- message reaches it. The connections of the other users stay as they were.
replaced_connection :
    (newer older user : ℕ) (delivers : ℕ → Bool) (m : Connections)
    → let both = connect newer user (connect older user m) in
      (socket_of user both ≡ some newer)
      × (send_personal_message delivers user (disconnect user both) ≡ ([], disconnect user both))
      × ((v : ℕ) → v ≢ user → socket_of v (disconnect user both) ≡ socket_of v m)
unfolding send_personal_message
replaced_connection newer older user delivers m =
    let once = connect older user m in
    let both = connect newer user once in
    let gone : socket_of user (disconnect user both) ≡ none =
      socket_of-disconnect user user both ∙ ground arith in
    (
      connect-socket_of user newer user once ∙ ground arith,
      ground (arith, gone),
      λ v ne.
          socket_of-disconnect v user both
          ∙ rw (connect-socket_of v newer user once, connect-socket_of v older user m)
              (ground arith),
    )
