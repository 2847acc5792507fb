-- ===== src/Net.antt =====
-- The blocking transfers of src/net.c over an open connection. What the socket will answer is
-- part of the connection: the results of the coming calls of `recv` and of `send`, in order.
-- `none` is a call that has not returned, because the socket has given no answer yet.
pub mod Stream
pub mod Delivery
mod Tests
use lib_ftn.Common.{
  ℕ, zero, suc, ◌+◌, ◌%◌, ◌^◌, ◌-◌, Bool, true, false, Option, none, some, length, take, drop,
}
use lib_ftn.Common.{List, [], ◌∷◌, ◌++◌, ◌==◌, if◌then◌else◌, min}
use lib_ftn.Error.{FtnError, ok, network, not_connected, connection_closed, would_block}

-- One answer of `recv`: data that has arrived (no data is the end of the stream), `EAGAIN`,
-- which is also what a receive timeout gives, or another error.
pub data RecvEvent : Type 0 where
  arrived : List ℕ → RecvEvent
  recv_again recv_failed : RecvEvent

-- One answer of `send`: room for so many bytes, `EAGAIN`, or another error.
pub data SendEvent : Type 0 where
  accepts : ℕ → SendEvent
  send_again send_failed : SendEvent

pub record Connection : Type 0 where
  pub connected : Bool
  pub incoming : List RecvEvent
  pub outgoing : List SendEvent
  pub sent : List ℕ
  pub bytes_sent : ℕ
  pub bytes_received : ℕ

-- Data that a call leaves unread stays in front.
unfoldable pub unread : List ℕ → List RecvEvent → List RecvEvent
unread [] events = events
unread (b ∷ bs) events = arrived (b ∷ bs) ∷ events

recv_event : RecvEvent → List RecvEvent → Connection → ℕ → FtnError × List ℕ × Connection
recv_event recv_again events conn len = (would_block, [], record conn { incoming = events })
recv_event recv_failed events conn len = (network, [], record conn { incoming = events })
recv_event (arrived []) events conn len =
    (connection_closed, [], record conn { connected = false; incoming = events })
recv_event (arrived (b ∷ bs)) events conn len =
    let got = take len (b ∷ bs) in
    (
      ok,
      got,
      record conn {
        incoming = unread (drop len (b ∷ bs)) events;
        bytes_received = (conn.bytes_received + length got) % 2 ^ 64;
      },
    )

next_recv : List RecvEvent → Connection → ℕ → Option (FtnError × List ℕ × Connection)
next_recv [] conn len = none
next_recv (e ∷ events) conn len = some (recv_event e events conn len)

-- `ftn_net_recv`: the code, the bytes stored, and the connection after it.
unfoldable pub net_recv : Connection → ℕ → Option (FtnError × List ℕ × Connection)
unfolding next_recv recv_event unread
net_recv conn len =
    if conn.connected then next_recv conn.incoming conn len else some (not_connected, [], conn)

-- The loop of `ftn_net_recv_all`. Each round but the last takes up an answer of the socket.
unfoldable pub recv_loop : ℕ → Connection → ℕ → List ℕ → Option (FtnError × List ℕ × Connection)
recv_loop fuel conn zero got = some (ok, got, conn)
recv_loop zero conn (suc remaining) got = none
recv_loop (suc fuel) conn (suc remaining) got = elim (net_recv conn (suc remaining)) [
  | none ↦ none
  | some (would_block, bytes, c) ↦ recv_loop fuel c (suc remaining) got
  | some (ok, [], c) ↦ some (connection_closed, got, c)
  | some (ok, b ∷ bytes, c) ↦
      recv_loop fuel c (suc remaining - length (b ∷ bytes)) (got ++ (b ∷ bytes))
  | some (error, bytes, c) ↦ some (error, got, c)
]

unfoldable pub net_recv_all : Connection → ℕ → Option (FtnError × List ℕ × Connection)
net_recv_all conn len = recv_loop (suc (length conn.incoming)) conn len []

send_event : SendEvent → List SendEvent → Connection → List ℕ → FtnError × ℕ × Connection
send_event send_again events conn bytes = (would_block, 0, record conn { outgoing = events })
send_event send_failed events conn bytes = (network, 0, record conn { outgoing = events })
send_event (accepts room) events conn bytes =
    let count = min room (length bytes) in
    (
      ok,
      count,
      record conn {
        outgoing = events;
        sent = conn.sent ++ take count bytes;
        bytes_sent = (conn.bytes_sent + count) % 2 ^ 64;
      },
    )

next_send : List SendEvent → Connection → List ℕ → Option (FtnError × ℕ × Connection)
next_send [] conn bytes = none
next_send (e ∷ events) conn bytes = some (send_event e events conn bytes)

-- `ftn_net_send`: the code, the number of bytes taken, and the connection after it.
unfoldable pub net_send : Connection → List ℕ → Option (FtnError × ℕ × Connection)
unfolding next_send send_event
net_send conn bytes =
    if conn.connected then next_send conn.outgoing conn bytes else some (not_connected, 0, conn)

-- The loop of `ftn_net_send_all` over the bytes that remain.
unfoldable pub send_loop : ℕ → Connection → List ℕ → Option (FtnError × Connection)
send_loop fuel conn [] = some (ok, conn)
send_loop zero conn (b ∷ bytes) = none
send_loop (suc fuel) conn (b ∷ bytes) = elim (net_send conn (b ∷ bytes)) [
  | none ↦ none
  | some (would_block, count, c) ↦ send_loop fuel c (b ∷ bytes)
  | some (ok, count, c) ↦ send_loop fuel c (drop count (b ∷ bytes))
  | some (error, count, c) ↦ some (error, c)
]

unfoldable pub net_send_all : Connection → List ℕ → Option (FtnError × Connection)
net_send_all conn bytes = send_loop (suc (length conn.outgoing)) conn bytes
