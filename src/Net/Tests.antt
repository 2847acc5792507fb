-- ===== src/Net/Tests.antt =====
-- Runs of `ftn_net_recv_all` and `ftn_net_send_all` over streams in pieces.
use lib_ftn.Common.{true, [], ◌∷◌, codes, refl, arith}
use lib_ftn.Net.{Connection, arrived, recv_again, net_recv_all, accepts, send_again, net_send_all}
use lib_ftn.Net.Delivery.{IsSent, net_send_all-IsSent}
use lib_ftn.Net.Stream.{IsReceived, net_recv_all-IsReceived}

abbrev pieces : Connection
pieces = record {
  connected = true;
  incoming = arrived (codes "ab") ∷ recv_again ∷ arrived (codes "cde") ∷ [];
  outgoing = accepts 2 ∷ send_again ∷ accepts 5 ∷ [];
  sent = [];
  bytes_sent = 0;
  bytes_received = 0;
}

net_recv_all-IsReceived_example : IsReceived pieces.incoming 4 [] (net_recv_all pieces 4)
net_recv_all-IsReceived_example = net_recv_all-IsReceived pieces 4 refl tt (omega arith)

net_send_all-IsSent_example : IsSent (codes "hello") (net_send_all pieces (codes "hello"))
net_send_all-IsSent_example = net_send_all-IsSent pieces (codes "hello") refl tt (omega arith)
