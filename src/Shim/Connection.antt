-- ===== src/Shim/Connection.antt =====
-- `EngineConnection` of packages/ipc-client/src/connection.ts: how the bytes of the socket become
-- responses. `DecisionResponse.fromJson` of a line is an argument; it throws where it is `none`.
use loopstorm_guard.Common.{
  ℕ, Bool, true, false, Option, none, some, List, [], ◌∷◌, ◌++◌, ltb, ◌==◌, length, if◌then◌else◌,
}
use loopstorm_guard.Shim.Guard.{DecisionResponse}

abbrev pub Bytes : Type 0
Bytes = List ℕ

abbrev pub max_message_size : ℕ
max_message_size = 65_536

-- What the socket reports while a response is awaited.
pub data Arrival : Type 0 where
  chunk : Bytes → Arrival
  socket_error : Arrival
  socket_closed : Arrival
  timeout : Arrival

pub data Received : Type 0 where
  response : DecisionResponse → Received
  -- The promise is rejected.
  malformed : Received
  too_large : ℕ → Received
  unavailable : Received
  closed : Received
  -- A listener of the socket throws, and the promise stays open.
  uncaught : Received
  pending : Received

pub record EngineConnection : Type 0 where
  pub connected : Bool
  pub buffer : Bytes

abbrev with_byte : ℕ → Option (Bytes × Bytes) → Option (Bytes × Bytes)
with_byte b none = none
with_byte b (some (line, rest)) = some (b ∷ line, rest)

-- `indexOf(0x0a)` and the two calls of `subarray`.
unfoldable pub split_line : Bytes → Option (Bytes × Bytes)
split_line [] = none
split_line (b ∷ bs) = elim (b == 0x0a) [
  | true ↦ some ([], bs)
  | false ↦ with_byte b (split_line bs)
]

-- What a line becomes, in the promise itself or in a listener.
abbrev pub outcome : Received → Option DecisionResponse → Received
outcome failure none = failure
outcome failure (some r) = response r

module _ (from_json : Bytes → Option DecisionResponse) where
  -- The listeners `onData`, `onError`, `onClose` and `onTimeout`, and the buffer that they leave.
  -- What is reported after the wait has ended is lost: its end removes the listeners, and the socket
  -- goes on flowing.
  unfoldable pub await_line : Bytes → List Arrival → Bytes × Received
  unfolding split_line
  await_line buffer [] = (buffer, pending)
  await_line buffer (socket_error ∷ later) = (buffer, unavailable)
  await_line buffer (socket_closed ∷ later) = (buffer, closed)
  await_line buffer (timeout ∷ later) = (buffer, unavailable)
  await_line buffer (chunk bytes ∷ later) =
      let buffer' = buffer ++ bytes in
      let waited = await_line buffer' later in
      if ltb max_message_size (length buffer')
      then (buffer', too_large (length buffer'))
      else elim (split_line buffer') [
        | none ↦ waited
        | some (line, rest) ↦ (rest, outcome uncaught (from_json line))
      ]

  -- Without a line in the buffer the listeners are set up.
  abbrev from_buffer : Bytes → List Arrival → Option (Bytes × Bytes) → Bytes × Received
  from_buffer buffer arrivals none = await_line buffer arrivals
  from_buffer buffer arrivals (some (line, rest)) = (rest, outcome malformed (from_json line))

  -- `recvResponse`, with what the socket reports from its call to the next one. The first call also
  -- gets what has come before it, since the socket only begins to flow then.
  unfoldable pub recv_response : List Arrival → EngineConnection → EngineConnection × Received
  recv_response arrivals c =
      let (buffer, received) = from_buffer c.buffer arrivals (split_line c.buffer) in
      if c.connected then (record c { buffer = buffer }, received) else (c, unavailable)

  -- Several waits, one after the other.
  unfoldable pub recv_many : List (List Arrival) → EngineConnection → List Received
  recv_many [] c = []
  recv_many (arrivals ∷ later) c =
      let (c', received) = recv_response arrivals c in received ∷ recv_many later c'

-- `connect` and `close`; a new socket starts with an empty buffer.
abbrev pub connect : EngineConnection
connect = record { connected = true; buffer = [] }

abbrev pub close : EngineConnection → EngineConnection
close c = if c.connected then record { connected = false; buffer = [] } else c
