-- ===== src/WebSocket/Tests.antt =====
-- Runs with the users 1, 2 and 3 on the sockets 10, 20 and 30, of which 20 is broken.
use python_fastapi_multiauth.Common.{
  ℕ, ◌≡◌, refl, Bool, List, [], ◌∷◌, ◌==◌, not, map, select, Distinct,
}
use python_fastapi_multiauth.WebSocket.Manager.{Connections, connection_user, broadcast, connect}
use python_fastapi_multiauth.WebSocket.Delivery.{works}
use python_fastapi_multiauth.WebSocket.Connections.{Call, opens, closes, run, broadcast_reaches}

abbrev delivers : ℕ → Bool
delivers s = not (s == 20)

abbrev calls : List Call
calls = opens 10 1 ∷ opens 20 2 ∷ opens 30 3 ∷ closes 1 ∷ opens 11 1 ∷ []

abbrev connections : Connections
connections = run calls []

reached : broadcast delivers connections ≡ (
  30 ∷ 11 ∷ [],
  record { user_id = 3; websocket = 30 } ∷ record { user_id = 1; websocket = 11 } ∷ [],
)
unfolding run broadcast connect
reached = refl

broadcast_reaches_example :
    Distinct connection_user (run calls [])
    × (broadcast delivers (run calls []) ≡ (
      map (λ c. c.websocket) (select (works delivers) (run calls [])),
      select (works delivers) (run calls []),
    ))
broadcast_reaches_example = broadcast_reaches calls delivers
