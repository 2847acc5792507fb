-- ===== src/Net/Stream.antt =====
-- What `ftn_net_recv_all` makes of a stream that comes in pieces.
use lib_ftn.Common.{
  ℕ, zero, suc, ◌+◌, ◌%◌, ◌^◌, ◌-◌, ◌≤◌, ◌<◌, Bool, true, Option, none, some, arith, ◌≡◌,
}
use lib_ftn.Common.{
  refl, sym, ◌∙◌, List, [], ◌∷◌, ◌++◌, length, take, drop, length-take, length-append,
}
use lib_ftn.Common.{take-append_front, take-append_back, drop-append_front, drop-append_back}
use lib_ftn.Common.{take_all, drop_all, ◌≢◌, false, if◌then◌else◌}
use lib_ftn.Error.{FtnError, ok, timeout, not_connected}
use lib_ftn.Net.{RecvEvent, arrived, recv_again, recv_failed, Connection, unread, next_recv}
use lib_ftn.Net.{net_recv, recv_loop, net_recv_all}
use mathlib.Core.List.{append_assoc, append-nil}
use native.Mathlib.Decide.{dec_le}

-- The bytes that the peer sends, and that it neither closes the stream nor breaks it.
abbrev pub stream : List RecvEvent → List ℕ
stream [] = []
stream (arrived bs ∷ es) = bs ++ stream es
stream (recv_again ∷ es) = stream es
stream (recv_failed ∷ es) = stream es

abbrev pub IsOpen : List RecvEvent → Type 0
IsOpen [] = Unit
IsOpen (arrived [] ∷ es) = ⊥
IsOpen (arrived (b ∷ bs) ∷ es) = IsOpen es
IsOpen (recv_again ∷ es) = IsOpen es
IsOpen (recv_failed ∷ es) = ⊥

-- `result` is a normal return with the first `n` bytes of the stream, and leaves the others.
pub record IsReceived (events : List RecvEvent) (n : ℕ) (got : List ℕ)
    (result : Option (FtnError × List ℕ × Connection)) : Type 0 where
  pub after : Connection
  pub returns : result ≡ some (ok, got ++ take n (stream events), after)
  pub rest : stream after.incoming ≡ drop n (stream events)
  pub still_open : IsOpen after.incoming
  pub still_connected : after.connected ≡ true

stream-unread : (bs : List ℕ) (es : List RecvEvent) → stream (unread bs es) ≡ bs ++ stream es
unfolding unread
stream-unread [] es = refl
stream-unread (b ∷ bs) es = refl

IsOpen-unread : (bs : List ℕ) (es : List RecvEvent) → IsOpen es → IsOpen (unread bs es)
unfolding unread
IsOpen-unread [] es h = h
IsOpen-unread (b ∷ bs) es h = h

-- A connection that is up, with the given answers to come.
abbrev up : Connection → List RecvEvent → Connection
up conn events = record conn { connected = true; incoming = events }

-- The connection after `k` bytes of the data in front have been read.
abbrev past : Connection → List ℕ → ℕ → List RecvEvent → Connection
past conn bs k es = record conn {
  connected = true;
  incoming = unread (drop k bs) es;
  bytes_received = (conn.bytes_received + length (take k bs)) % 2 ^ 64;
}

recv_loop_step :
    (b : ℕ) (bs : List ℕ) (es : List RecvEvent) (fuel : ℕ) (conn : Connection) (n : ℕ)
    (got : List ℕ)
    → recv_loop (suc fuel) (up conn (arrived (b ∷ bs) ∷ es)) (suc n) got
      ≡ recv_loop fuel
          (past conn (b ∷ bs) (suc n) es)
          (suc n - suc (length (take n bs)))
          (got ++ (b ∷ take n bs))
unfolding recv_loop net_recv
recv_loop_step b bs es fuel conn n got = refl

recv_loop_beyond :
    (b : ℕ) (bs : List ℕ) (es : List RecvEvent) (fuel : ℕ) (conn : Connection) (n : ℕ)
    (got : List ℕ)
    → length bs ≤ n
    → recv_loop (suc fuel) (up conn (arrived (b ∷ bs) ∷ es)) (suc n) got
      ≡ recv_loop fuel (up (past conn (b ∷ bs) (suc n) es) es) (n - length bs) (got ++ (b ∷ bs))
unfolding unread
recv_loop_beyond b bs es fuel conn n got h =
    let all : take n bs ≡ bs = take_all n bs h in
    let gone : drop n bs ≡ [] = drop_all n bs h in
    let left : suc n - suc (length bs) ≡ n - length bs = omega arith in
    recv_loop_step b bs es fuel conn n got ∙ rw (all, gone, left)

recv_loop_again :
    (es : List RecvEvent) (fuel : ℕ) (conn : Connection) (n : ℕ) (got : List ℕ)
    → recv_loop (suc fuel) (up conn (recv_again ∷ es)) (suc n) got
      ≡ recv_loop fuel (up conn es) (suc n) got
unfolding recv_loop net_recv
recv_loop_again es fuel conn n got = refl

IsReceived-again :
    (es : List RecvEvent) (n : ℕ) (got : List ℕ) {result : Option (FtnError × List ℕ × Connection)}
    → IsReceived es n got result
    → IsReceived (recv_again ∷ es) n got result
IsReceived-again es n got r = record {
  after = r.after;
  returns = r.returns;
  rest = r.rest;
  still_open = r.still_open;
  still_connected = r.still_connected;
}

IsReceived-beyond :
    (b : ℕ) (bs : List ℕ) (es : List RecvEvent) (n : ℕ) (got : List ℕ)
    {result : Option (FtnError × List ℕ × Connection)}
    → length bs ≤ n
    → IsReceived es (n - length bs) (got ++ (b ∷ bs)) result
    → IsReceived (arrived (b ∷ bs) ∷ es) (suc n) got result
IsReceived-beyond b bs es n got h r = record {
  after = r.after;
  returns =
      r.returns
      ∙ rw (
        take-append_back n bs (stream es) h,
        append_assoc got (b ∷ bs) (take (n - length bs) (stream es)),
      );
  rest = r.rest ∙ sym (drop-append_back n bs (stream es) h);
  still_open = r.still_open;
  still_connected = r.still_connected;
}

recv_loop-IsReceived :
    (events : List RecvEvent) (fuel : ℕ) (conn : Connection) (n : ℕ) (got : List ℕ)
    → length events < fuel
    → IsOpen events
    → n ≤ length (stream events)
    → IsReceived events n got (recv_loop fuel (up conn events) n got)
recv_loop-IsReceived es fuel conn zero got hf ho hn = record {
  after = up conn es;
  returns = unfold recv_loop in rw append-nil;
  rest = refl;
  still_open = ho;
  still_connected = refl;
}
recv_loop-IsReceived es zero conn (suc n) got hf ho hn = absurd (omega arith)
recv_loop-IsReceived [] (suc fuel) conn (suc n) got hf ho hn = absurd (omega arith)
recv_loop-IsReceived (recv_failed ∷ es) (suc fuel) conn (suc n) got hf ho hn = absurd ho
recv_loop-IsReceived (arrived [] ∷ es) (suc fuel) conn (suc n) got hf ho hn = absurd ho
recv_loop-IsReceived (recv_again ∷ es) (suc fuel) conn (suc n) got hf ho hn =
    rw (recv_loop_again es fuel conn n got) (
      IsReceived-again es (suc n) got
        (recv_loop-IsReceived es fuel conn (suc n) got (omega arith) ho hn))
recv_loop-IsReceived (arrived (b ∷ bs) ∷ es) (suc fuel) conn (suc n) got hf ho hn =
    elim (dec_le n (length bs)) [
      | yes inside ↦
          let stop : suc n - suc (length (take n bs)) ≡ 0 = omega (arith, length-take n bs) in
          record {
            after = past conn (b ∷ bs) (suc n) es;
            returns =
                recv_loop_step b bs es fuel conn n got
                ∙ rw (stop, take-append_front n bs (stream es) inside) (unfold recv_loop in refl);
            rest = stream-unread (drop n bs) es ∙ sym (drop-append_front n bs (stream es) inside);
            still_open = IsOpen-unread (drop n bs) es ho;
            still_connected = refl;
          }
      | no beyond ↦
          let bound : n - length bs ≤ length (stream es) =
            omega (arith, length-append {0} bs (stream es)) in
          rw (recv_loop_beyond b bs es fuel conn n got (omega arith)) (
            IsReceived-beyond b bs es n got (omega arith) (
              recv_loop-IsReceived es fuel (past conn (b ∷ bs) (suc n) es) (n - length bs)
                (got ++ (b ∷ bs)) (omega arith) ho bound))
    ]

-- On a connection that stays open long enough, `ftn_net_recv_all` stores the next `n` bytes of the
-- stream, however they are cut into pieces, and the stream goes on behind them.
pub net_recv_all-IsReceived :
    (conn : Connection) (n : ℕ)
    → conn.connected ≡ true
    → IsOpen conn.incoming
    → n ≤ length (stream conn.incoming)
    → IsReceived conn.incoming n [] (net_recv_all conn n)
unfolding net_recv_all
net_recv_all-IsReceived conn n hc ho hn =
    rw (← same) (
      recv_loop-IsReceived conn.incoming (suc (length conn.incoming)) conn n [] (omega arith) ho hn)
  where
    same : up conn conn.incoming ≡ conn
    same = λ i. record conn { connected = sym hc i; incoming = conn.incoming }

-- No answer of the socket is a timeout: an elapsed receive timeout is `EAGAIN`.
net_recv-ne-timeout :
    (conn : Connection) (n : ℕ) (bytes : List ℕ) (c : Connection)
    → net_recv conn n ≢ some (timeout, bytes, c)
unfolding net_recv
net_recv-ne-timeout conn n bytes c = go conn.connected conn.incoming
  where
    go :
        (b : Bool) (es : List RecvEvent)
        → (if b then next_recv es conn n else some (not_connected, [], conn))
          ≢ some (timeout, bytes, c)
    go false es h = cc
    go true [] h = cc
    go true (recv_again ∷ es) h = cc
    go true (recv_failed ∷ es) h = cc
    go true (arrived [] ∷ es) h = cc
    go true (arrived (b ∷ bs) ∷ es) h = cc

recv_loop-ne-timeout :
    (fuel : ℕ) (conn : Connection) (n : ℕ) (got bytes : List ℕ) (c : Connection)
    → recv_loop fuel conn n got ≢ some (timeout, bytes, c)
unfolding recv_loop
recv_loop-ne-timeout fuel conn zero got bytes c h = cc
recv_loop-ne-timeout zero conn (suc n) got bytes c h = cc
recv_loop-ne-timeout (suc fuel) conn (suc n) got bytes c h =
    go (net_recv conn (suc n)) refl (λ c' m g. recv_loop-ne-timeout fuel c' m g bytes c) h
  where
    go :
        (r : Option (FtnError × List ℕ × Connection))
        → net_recv conn (suc n) ≡ r
        → ((c' : Connection) (m : ℕ) (g : List ℕ)
            → recv_loop fuel c' m g ≢ some (timeout, bytes, c))
        → recv_loop (suc fuel) conn (suc n) got ≢ some (timeout, bytes, c)
    go none e ih = rw (e, recv_loop) (λ h. cc)
    go (some (FtnError.would_block, bs, c')) e ih = rw (e, recv_loop) (ih c' (suc n) got)
    go (some (FtnError.ok, [], c')) e ih = rw (e, recv_loop) (λ h. cc)
    go (some (FtnError.ok, b ∷ bs, c')) e ih =
        rw (e, recv_loop) (ih c' (suc n - length (b ∷ bs)) (got ++ (b ∷ bs)))
    go (some (FtnError.timeout, bs, c')) e ih = absurd (net_recv-ne-timeout conn (suc n) bs c' e)
    go (some (code, bs, c')) e ih = rw (e, recv_loop) (λ h. cc)

-- `ftn_net_recv_all` never returns `FTN_ERROR_TIMEOUT`, whatever the socket answers.
pub net_recv_all-ne-timeout :
    (conn : Connection) (n : ℕ) (bytes : List ℕ) (c : Connection)
    → net_recv_all conn n ≢ some (timeout, bytes, c)
unfolding net_recv_all
net_recv_all-ne-timeout conn n bytes c =
    recv_loop-ne-timeout (suc (length conn.incoming)) conn n [] bytes c
