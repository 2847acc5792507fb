-- ===== src/Net/Delivery.antt =====
-- What `ftn_net_send_all` of src/net.c puts into the stream to the peer.
use lib_ftn.Common.{
  ℕ, zero, suc, ◌+◌, ◌%◌, ◌^◌, ◌≤◌, ◌<◌, min, arith, ◌≡◌, refl, sym, ap, ◌∙◌, true, Option, some,
}
use lib_ftn.Common.{
  List, [], ◌∷◌, ◌++◌, length, take, drop, length-take, length-append, take-append-drop,
}
use lib_ftn.Error.{FtnError, ok}
use lib_ftn.Net.{
  SendEvent, accepts, send_again, send_failed, Connection, send_event, next_send, net_send,
}
use lib_ftn.Net.{send_loop, net_send_all}
use mathlib.Core.List.{append-nil, append_assoc}

-- The bytes that the socket will take, if it does not fail.
abbrev pub capacity : List SendEvent → ℕ
capacity [] = 0
capacity (accepts room ∷ es) = room + capacity es
capacity (send_again ∷ es) = capacity es
capacity (send_failed ∷ es) = capacity es

abbrev pub IsWilling : List SendEvent → Type 0
IsWilling [] = Unit
IsWilling (accepts room ∷ es) = IsWilling es
IsWilling (send_again ∷ es) = IsWilling es
IsWilling (send_failed ∷ es) = ⊥

-- A normal return, with the text sent in all.
pub record IsSent (text : List ℕ) (result : Option (FtnError × Connection)) : Type 0 where
  pub after : Connection
  pub returns : result ≡ some (ok, after)
  pub delivered : after.sent ≡ text

abbrev ready : Connection → List SendEvent → Connection
ready conn events = record conn { connected = true; outgoing = events }

-- The connection after it took `n` of the bytes.
abbrev took : Connection → ℕ → List ℕ → Connection
took conn n bytes = record conn {
  sent = conn.sent ++ take n bytes;
  bytes_sent = (conn.bytes_sent + n) % 2 ^ 64;
}

send_loop_step :
    (room : ℕ) (es : List SendEvent) (fuel : ℕ) (conn : Connection) (b : ℕ) (bs : List ℕ)
    → let n = min room (length (b ∷ bs)) in
      send_loop (suc fuel) (ready conn (accepts room ∷ es)) (b ∷ bs)
      ≡ send_loop fuel (ready (took conn n (b ∷ bs)) es) (drop n (b ∷ bs))
unfolding send_loop net_send next_send send_event
send_loop_step room es fuel conn b bs = refl

send_loop_again :
    (es : List SendEvent) (fuel : ℕ) (conn : Connection) (b : ℕ) (bs : List ℕ)
    → send_loop (suc fuel) (ready conn (send_again ∷ es)) (b ∷ bs)
      ≡ send_loop fuel (ready conn es) (b ∷ bs)
unfolding send_loop net_send next_send send_event
send_loop_again es fuel conn b bs = refl

length-rest : (n : ℕ) (bytes : List ℕ) → n ≤ length bytes → n + length (drop n bytes) ≡ length bytes
length-rest n bytes h = omega (
  arith,
  length-take n bytes,
  length-append (take n bytes) (drop n bytes),
  ap (λ (s : List ℕ). length s) (take-append-drop n bytes),
)

IsSent-took :
    (conn : Connection) (n : ℕ) (bytes : List ℕ) {result : Option (FtnError × Connection)}
    → IsSent ((took conn n bytes).sent ++ drop n bytes) result
    → IsSent (conn.sent ++ bytes) result
IsSent-took conn n bytes r = record {
  after = r.after;
  returns = r.returns;
  delivered =
      r.delivered
      ∙ append_assoc conn.sent (take n bytes) (drop n bytes)
      ∙ ap (λ s. conn.sent ++ s) (take-append-drop n bytes);
}

send_loop-IsSent :
    (events : List SendEvent) (fuel : ℕ) (conn : Connection) (bytes : List ℕ)
    → length events < fuel
    → IsWilling events
    → length bytes ≤ capacity events
    → IsSent (conn.sent ++ bytes) (send_loop fuel (ready conn events) bytes)
send_loop-IsSent es fuel conn [] hf hw hc = record {
  after = ready conn es;
  returns = unfold send_loop in refl;
  delivered = sym (append-nil conn.sent);
}
send_loop-IsSent es zero conn (b ∷ bs) hf hw hc = absurd (omega arith)
send_loop-IsSent [] (suc fuel) conn (b ∷ bs) hf hw hc = absurd (omega arith)
send_loop-IsSent (send_failed ∷ es) (suc fuel) conn (b ∷ bs) hf hw hc = absurd hw
send_loop-IsSent (send_again ∷ es) (suc fuel) conn (b ∷ bs) hf hw hc =
    rw (send_loop_again es fuel conn b bs)
      (send_loop-IsSent es fuel conn (b ∷ bs) (omega arith) hw hc)
send_loop-IsSent (accepts room ∷ es) (suc fuel) conn (b ∷ bs) hf hw hc =
    let n = min room (length (b ∷ bs)) in
    let left : n + length (drop n (b ∷ bs)) ≡ length (b ∷ bs) =
      length-rest n (b ∷ bs) (omega arith) in
    rw (send_loop_step room es fuel conn b bs) (
      IsSent-took conn n (b ∷ bs) (
        send_loop-IsSent es fuel (took conn n (b ∷ bs)) (drop n (b ∷ bs)) (omega arith) hw
          (omega (arith, left, hc))))

-- On a connected socket that does not fail and takes as many bytes as there are, in whatever pieces
-- and however often it has to be asked again, `ftn_net_send_all` returns normally, with all the bytes
-- sent in their order behind those sent before.
pub net_send_all-IsSent :
    (conn : Connection) (bytes : List ℕ)
    → conn.connected ≡ true
    → IsWilling conn.outgoing
    → length bytes ≤ capacity conn.outgoing
    → IsSent (conn.sent ++ bytes) (net_send_all conn bytes)
unfolding net_send_all
net_send_all-IsSent conn bytes hc hw room =
    rw (← same)
      (send_loop-IsSent conn.outgoing (suc (length conn.outgoing)) conn bytes (omega arith) hw room)
  where
    same : ready conn conn.outgoing ≡ conn
    same = rw (← hc) refl
