-- ===== src/WebSocket/Delivery.antt =====
-- Who gets a message, and which connections are left after it.
use python_fastapi_multiauth.Common.{
  ℕ, ◌≡◌, refl, ◌∙◌, ap, Bool, false, Option, none, some, List, [], ◌∷◌, ◌++◌, inl, inr,
  if◌then◌else◌, ◌==◌, Bool-cases, Option-cases, select, delete_where-none, has_key, Distinct, map,
  exists, arith,
}
use python_fastapi_multiauth.WebSocket.Manager.{
  Connection, Connections, connection_user, disconnect, socket_of, send_personal_message, send_each,
  disconnect_each, broadcast, send_to_users,
}

disconnect-other :
    (user : ℕ) (c : Connection) (m : Connections)
    → (user == c.user_id) ≡ false
    → disconnect user (c ∷ m) ≡ c ∷ disconnect user m
unfolding disconnect
disconnect-other user c m h = ground arith

-- The entry of a user is the only one.
disconnect-own :
    (c : Connection) (m : Connections)
    → select (has_key connection_user c.user_id) m ≡ []
    → disconnect c.user_id (c ∷ m) ≡ m
unfolding disconnect
disconnect-own c m h = ground (arith, delete_where-none (has_key connection_user c.user_id) m)

pub socket_of-disconnect :
    (v user : ℕ) (m : Connections)
    → socket_of v (disconnect user m) ≡ (if v == user then none else socket_of v m)
unfolding socket_of disconnect
socket_of-disconnect v user [] = ground arith
socket_of-disconnect v user (c ∷ m) = ground (arith, socket_of-disconnect v user m)

module _ (delivers : ℕ → Bool) where
  abbrev pub works : Connection → Bool
  works c = delivers c.websocket

  -- A user without an entry is not among those whose socket raised.
  failed-absent :
      (user : ℕ) (m : Connections)
      → select (has_key connection_user user) m ≡ []
      → select (λ u. u == user) (send_each delivers m).1 ≡ []
  unfolding send_each
  failed-absent user [] h = refl
  failed-absent user (c ∷ m) h = ground (arith, failed-absent user m)

  disconnect_each-other :
      (users : List ℕ) (c : Connection) (m : Connections)
      → select (λ u. u == c.user_id) users ≡ []
      → disconnect_each delivers users (c ∷ m) ≡ c ∷ disconnect_each delivers users m
  unfolding disconnect_each disconnect
  disconnect_each-other [] c m h = refl
  disconnect_each-other (u ∷ users) c m h = elim (Bool-cases (u == c.user_id)) [
    | inl same ↦ absurd (ground arith)
    | inr different ↦
        ap (disconnect_each delivers users) (disconnect-other u c m different)
        ∙ disconnect_each-other users c (disconnect u m) (ground arith)
  ]

  disconnect_each-failed :
      (m : Connections)
      → Distinct connection_user m
      → disconnect_each delivers (send_each delivers m).1 m ≡ select works m
  unfolding send_each disconnect_each disconnect
  disconnect_each-failed [] d = refl
  disconnect_each-failed (c ∷ m) d = elim (Bool-cases (delivers c.websocket)) [
    | inl sent ↦ rw sent (
        disconnect_each-other (send_each delivers m).1 c m (failed-absent c.user_id m d.0)
        ∙ ap (λ l. c ∷ l) (disconnect_each-failed m d.1))
    | inr raised ↦ rw raised (
        ap (disconnect_each delivers (send_each delivers m).1) (disconnect-own c m d.0)
        ∙ disconnect_each-failed m d.1)
  ]

  send_each-sent :
      (m : Connections) → (send_each delivers m).0 ≡ map (λ c. c.websocket) (select works m)
  unfolding send_each
  send_each-sent [] = refl
  send_each-sent (c ∷ m) = ground (arith, send_each-sent m)

  -- Where no user has two entries, a broadcast reaches exactly the sockets that work, in the order of
  -- the connections, and leaves exactly their connections, in that order.
  pub broadcast_exact :
      (m : Connections)
      → Distinct connection_user m
      → broadcast delivers m ≡ (map (λ c. c.websocket) (select works m), select works m)
  unfolding broadcast
  broadcast_exact m d = rw (send_each-sent m, disconnect_each-failed m d) refl

  -- What a user's socket gets of a message, and what is left of it.
  abbrev pub received : Option ℕ → List ℕ
  received none = []
  received (some s) = if delivers s then s ∷ [] else []

  abbrev pub surviving : Option ℕ → Option ℕ
  surviving none = none
  surviving (some s) = if delivers s then some s else none

  -- What a list of users gets if every one is looked up in the same connections.
  abbrev pub received_by : List ℕ → Connections → List ℕ
  received_by [] m = []
  received_by (user ∷ users) m = received (socket_of user m) ++ received_by users m

  socket_of-send :
      (v user : ℕ) (m : Connections)
      → socket_of v (send_personal_message delivers user m).1
        ≡ (if v == user then surviving (socket_of v m) else socket_of v m)
  unfolding send_personal_message
  socket_of-send v user m = elim (Option-cases (socket_of user m)) [
    | inl absent ↦ ground arith
    | inr (s, present) ↦ ground (arith, socket_of-disconnect v user m)
  ]

  sent-received :
      (user : ℕ) (m : Connections)
      → (send_personal_message delivers user m).0 ≡ received (socket_of user m)
  unfolding send_personal_message
  sent-received user m = elim (Option-cases (socket_of user m)) [
    | inl absent ↦ ground arith
    | inr (s, present) ↦ ground arith
  ]

  received-surviving : (o : Option ℕ) → received (surviving o) ≡ received o
  received-surviving none = refl
  received-surviving (some s) = ground arith

  surviving-twice : (o : Option ℕ) → surviving (surviving o) ≡ surviving o
  surviving-twice none = refl
  surviving-twice (some s) = ground arith

  received-send :
      (v user : ℕ) (m : Connections)
      → received (socket_of v (send_personal_message delivers user m).1) ≡ received (socket_of v m)
  received-send v user m =
      ap received (socket_of-send v user m) ∙ ground (arith, received-surviving (socket_of v m))

  received_by-send :
      (users : List ℕ) (user : ℕ) (m : Connections)
      → received_by users (send_personal_message delivers user m).1 ≡ received_by users m
  received_by-send [] user m = refl
  received_by-send (v ∷ users) user m =
      rw (received-send v user m, received_by-send users user m) refl

  send_to_users-received :
      (users : List ℕ) (m : Connections) → (send_to_users delivers users m).0 ≡ received_by users m
  unfolding send_to_users
  send_to_users-received [] m = refl
  send_to_users-received (user ∷ users) m =
      let left = (send_personal_message delivers user m).1 in
      rw (sent-received user m, send_to_users-received users left, received_by-send users user m)
        refl

  send_to_users-left :
      (users : List ℕ) (v : ℕ) (m : Connections)
      → socket_of v (send_to_users delivers users m).1
        ≡ (if exists (λ u. v == u) users then surviving (socket_of v m) else socket_of v m)
  unfolding send_to_users
  send_to_users-left [] v m = refl
  send_to_users-left (user ∷ users) v m =
      let left = (send_personal_message delivers user m).1 in
      send_to_users-left users v left
      ∙ rw (socket_of-send v user m) (ground (arith, surviving-twice (socket_of v m)))

  -- Sending to a list of users reaches, in its order and as often as it names them, the users whose
  -- sockets work, although the loop removes connections as it goes; a user on the list keeps a
  -- connection exactly if its socket works, and the other users keep theirs.
  sending_to_users :
      (users : List ℕ) (m : Connections)
      → ((send_to_users delivers users m).0 ≡ received_by users m)
        × ((v : ℕ)
            → socket_of v (send_to_users delivers users m).1
              ≡ (if exists (λ u. v == u) users then surviving (socket_of v m) else socket_of v m))
  sending_to_users users m = (send_to_users-received users m, λ v. send_to_users-left users v m)
