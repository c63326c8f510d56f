-- ===== src/Router/Tests.antt =====
-- The theorems about the router at concrete addresses, tables and packets.
use cs.Prelude.{
  ℕ, ◌+◌, ◌*◌, ◌^◌, ◌<◌, ◌≡◌, ◌≢◌, ◌↔◌, ◌⊎◌, refl, true, false, some, List, [], ◌∷◌, map, arith,
  All, keep,
}
use cs.Prelude.Exec.{Result, ok, state_of}
use cs.Prelude.Dict.{Dict, lookup, Distinct}
use cs.Router.Packet.{ConnectionType}
use cs.Prelude.{inl, inr, ◌/◌}
use cs.Router.Address.{post_init, split_into_octets, network_gateway, stringify_octets}
use cs.Prelude.Text.{split_on, decimal, int_of_text}
use cs.Router.State.{send}
use cs.Router.Address.{
  IsAddress, IpAddress, QuadrupleOctet, QuadrupleOctet_eq, prefix_shift_amount, mask_length,
}
use cs.Router.Packet.{
  customer, peer, provider, UpdateMsg, UpdateMsg_eq, local, unknown, PacketType, content,
  update_msg, update_ping, withdrawals, full_table, Packet,
}
use cs.Router.State.{Router, Socket}
use cs.Router.State.Neighbors.{IsNeighbor, IsConnected, addressed, gateway_of, sending}
use cs.Router.Inform.{inform_neighbors}
use cs.Router.Inform.Export.{is_told, notice, inform_neighbors_lem}
use cs.Router.Update
use cs.Router.Update.{announcement}
use cs.Router.Update.Learned.{IsSound, learned, update_process}
use cs.Router.Withdraw
use cs.Router.Withdraw.{is_withdrawn, remove_withdrawn}
use cs.Router.Withdraw.Told.{unlearned, withdraw_process}
use cs.Router.Withdraw.Spared.{network_of, Spared, OneRouteEach, remove_withdrawn-Spared}
use cs.Router.Withdraw.Stale.{withdraw_leaves_second}
use cs.Router.Forward
use cs.Router.Forward.{Best, route, no_route, best_loop, determine_best_route}
use cs.Router.Forward.Match.{Matches}
use cs.Router.Forward.Longest.{Found, Unrouted, IsBestEntry, best_loop_lem}
use cs.Router.Forward.Policy.{decision, forward_process}
use cs.Router.Forward.Ties.{tied_origins}
use cs.Router.Dump
use cs.Router.Dump.{is_match, calculate_aggregation, aggregate_msg_group, dump_entry}
use cs.Router.Dump.Merge.{Carried, aggregate_msg_group_lem}
use cs.Router.Dump.Exact.{prefix, aggregation_exact}
use cs.Router.Dump.Answer.{shown_as, Shown, dump_process}
use cs.Router.Run.{update_handler, dump_handler, data_handler, withdraw_handler, run_handlers}
use cs.Router.State.{init}
use cs.Router.Run
use cs.Router.Run.{start}
use cs.Router.Run.Opening.{handshake}
use cs.Router.Run.Start.{Connections, start_lem}
use cs.Router.Run.Whole.{IsReceived, Ended, run_lem}
use cs.Router.Run.Safety.{IsRunning}

abbrev addr : ℕ → ℕ → ℕ → ℕ → QuadrupleOctet
addr a b c d = record { binary = a * 2 ^ 24 + b * 2 ^ 16 + c * 2 ^ 8 + d }

-- The three neighbours of a router of AS 7.
abbrev customer_ip : IpAddress
customer_ip = addr 1 0 0 2

abbrev provider_ip : IpAddress
provider_ip = addr 2 0 0 2

abbrev peer_ip : IpAddress
peer_ip = addr 3 0 0 2

-- A route for `network`/`netmask`.
abbrev entry : QuadrupleOctet → QuadrupleOctet → List ℕ → UpdateMsg
entry net mask path = record {
  network = net;
  netmask = mask;
  as_path = path;
  localpref = 100;
  self_origin = false;
  origin = local;
}

-- 192.168.0.0/24, 192.168.1.0/24 and 192.168.0.0/16
abbrev low_half : UpdateMsg
low_half = entry (addr 192 168 0 0) (addr 255 255 255 0) (1 ∷ [])

abbrev high_half : UpdateMsg
high_half = entry (addr 192 168 1 0) (addr 255 255 255 0) (1 ∷ [])

abbrev wide : UpdateMsg
wide = entry (addr 192 168 0 0) (addr 255 255 0 0) (1 ∷ 4 ∷ [])

abbrev table : Dict UpdateMsg IpAddress
table = (wide, provider_ip) ∷ (low_half, customer_ip) ∷ []

abbrev with_table : Dict UpdateMsg IpAddress → Router
with_table t = record {
  asn = 7;
  ip_conn_type_map = (customer_ip, customer) ∷ (provider_ip, provider) ∷ (peer_ip, peer) ∷ [];
  ip_socket_map = (customer_ip, 4) ∷ (provider_ip, 5) ∷ (peer_ip, 6) ∷ [];
  ip_port_map = (customer_ip, 8001) ∷ (provider_ip, 8002) ∷ (peer_ip, 8003) ∷ [];
  forwarding_table = t;
  revoked_addresses = [];
  sent = [];
}

customer_known : (t : Dict UpdateMsg IpAddress) → IsNeighbor (with_table t) customer_ip
customer_known t = (omega arith, (customer, refl), (4, refl), (8001, refl))

provider_known : (t : Dict UpdateMsg IpAddress) → IsNeighbor (with_table t) provider_ip
provider_known t = (omega arith, (provider, refl), (5, refl), (8002, refl))

peer_known : (t : Dict UpdateMsg IpAddress) → IsNeighbor (with_table t) peer_ip
peer_known t = (omega arith, (peer, refl), (6, refl), (8003, refl))

sockets_known :
    (t : Dict UpdateMsg IpAddress)
    → All (λ (e : IpAddress × Socket). IsNeighbor (with_table t) e.0) (with_table t).ip_socket_map
sockets_known t = (customer_known t, (provider_known t, (peer_known t, tt)))

table-IsConnected : IsConnected (with_table table)
table-IsConnected = (sockets_known table, (provider_known table, (customer_known table, tt)))

table-IsSound : IsSound (with_table table)
table-IsSound = (table-IsConnected, ground arith)

table-IsRunning : IsRunning (with_table table)
table-IsRunning = (table-IsSound, (omega arith, (omega arith, tt)))

abbrev to_low : Packet
to_low = record {
  src = peer_ip;
  dst = addr 192 168 0 9;
  type = PacketType.data_packet;
  msg = content (b'h' ∷ b'i' ∷ []);
}

best_loop_lem_example :
    (b : Best) × (best_loop (addr 192 168 0 9) table no_route ≡ ok b)
    × Found (addr 192 168 0 9) table b
best_loop_lem_example = best_loop_lem (addr 192 168 0 9) table

-- The route with the longer mask is the one found.
longest_wins : best_loop (addr 192 168 0 9) table no_route ≡ ok (route customer_ip low_half)
unfolding best_loop prefix_shift_amount mask_length
longest_wins = refl

forward_process_example :
    (Unrouted (addr 192 168 0 9) table
      × (Forward.process peer_ip to_low (with_table table) ≡ (ok tt, with_table table)))
    ⊎ ((u : UpdateMsg) × (ip : IpAddress) × IsBestEntry (addr 192 168 0 9) table u ip
        × (Forward.process peer_ip to_low (with_table table) ≡ (
          ok tt,
          sending (with_table table) (decision (with_table table) peer_ip to_low ip ∷ []),
        )))
forward_process_example =
    forward_process (with_table table) peer_ip to_low table-IsConnected (peer_known table)

aggregate_msg_group_lem_example :
    (out : List UpdateMsg) × (aggregate_msg_group (low_half ∷ high_half ∷ []) ≡ some (ok out))
    × All (Carried out) (low_half ∷ high_half ∷ [])
aggregate_msg_group_lem_example =
    aggregate_msg_group_lem (low_half ∷ high_half ∷ []) (omega arith)
      (omega arith, (omega arith, tt))

update_process_example :
    (Update.process customer_ip high_half (with_table table) ≡ (
      ok tt,
      sending (learned (with_table table) customer_ip high_half) (
          map
            (notice (with_table table) PacketType.update (
              update_ping (record {
                network = high_half.network;
                netmask = high_half.netmask;
                as_path = 7 ∷ high_half.as_path;
              })))
            (keep
              (is_told (with_table table) customer_ip customer)
              (with_table table).ip_socket_map)),
    ))
    × (lookup high_half
          (state_of (Update.process customer_ip high_half (with_table table))).forwarding_table
        ≡ some customer_ip)
    × IsSound (state_of (Update.process customer_ip high_half (with_table table)))
update_process_example =
    update_process (with_table table) customer_ip high_half table-IsSound (customer_known table)

withdraw_process_example :
    (Withdraw.process customer_ip (network_of low_half ∷ []) (with_table table) ≡ (
      ok tt,
      sending (unlearned (with_table table) customer_ip (network_of low_half ∷ [])) (
          map
            (notice (with_table table) PacketType.withdraw (withdrawals (network_of low_half ∷ [])))
            (keep
              (is_told (with_table table) customer_ip customer)
              (with_table table).ip_socket_map)),
    ))
    × IsSound
        (state_of (Withdraw.process customer_ip (network_of low_half ∷ []) (with_table table)))
withdraw_process_example =
    withdraw_process (with_table table) customer_ip (network_of low_half ∷ []) table-IsSound
      (customer_known table)

dump_process_example :
    (shown : Dict UpdateMsg IpAddress) × (Dump.process peer_ip (with_table table)
      ≡ some (
        ok tt,
        sending (with_table table) (
            addressed (with_table table) peer_ip (record {
              src = gateway_of peer_ip;
              dst = peer_ip;
              type = PacketType.table;
              msg = full_table (map shown_as shown);
            })
            ∷ []),
      ))
    × All (λ (e : UpdateMsg × IpAddress). Shown shown e.0) table
dump_process_example =
    dump_process (with_table table) peer_ip (omega arith, (omega arith, tt)) (peer_known table)

halves_match : is_match low_half high_half ≡ true
unfolding prefix_shift_amount mask_length
halves_match = refl

halves_differ : prefix low_half ≢ prefix high_half
unfolding mask_length
halves_differ = omega arith

long_mask : 0 < mask_length low_half.netmask
unfolding mask_length
long_mask = omega arith

aggregation_exact_example :
    (w : UpdateMsg) × (calculate_aggregation (low_half ∷ high_half ∷ []) ≡ ok w)
    × (mask_length w.netmask + 1 ≡ mask_length low_half.netmask)
    × ((d : IpAddress) → Matches d w ↔ (Matches d low_half ⊎ Matches d high_half))
aggregation_exact_example =
    aggregation_exact low_half high_half halves_match long_mask halves_differ

table-Distinct : Distinct table
table-Distinct = ground arith

other_ips : ¬ (provider_ip ≡ customer_ip)
other_ips = λ e. absurd (ground arith)

one_route : OneRouteEach customer_ip table
one_route = (λ e. absurd (other_ips e), (λ e. tt, tt))

remove_withdrawn-Spared_example :
    All
      (λ d.
        All
          (Spared customer_ip d)
          (remove_withdrawn customer_ip (network_of low_half ∷ network_of wide ∷ []) table))
      (network_of low_half ∷ network_of wide ∷ [])
remove_withdrawn-Spared_example =
    remove_withdrawn-Spared customer_ip (network_of low_half ∷ network_of wide ∷ []) table
      table-Distinct one_route

wide-Spared : Spared customer_ip (network_of low_half) (wide, provider_ip)
wide-Spared same = absurd (other_ips same)

inform_neighbors_lem_example :
    inform_neighbors provider_ip PacketType.withdraw
      (withdrawals (network_of wide ∷ []))
      (with_table table)
    ≡ (
      ok tt,
      sending (with_table table) (
          map (notice (with_table table) PacketType.withdraw (withdrawals (network_of wide ∷ []))) (
            keep
              (is_told (with_table table) provider_ip provider)
              (with_table table).ip_socket_map)),
    )
inform_neighbors_lem_example =
    inform_neighbors_lem provider_ip PacketType.withdraw (withdrawals (network_of wide ∷ []))
      (with_table table) table-IsConnected (provider_known table)

abbrev of_unknown : UpdateMsg
of_unknown = record low_half { origin = unknown }

tied_origins_example :
    determine_best_route (some of_unknown) (some provider_ip) low_half customer_ip
    ≡ ok (route provider_ip of_unknown)
tied_origins_example =
    tied_origins of_unknown low_half provider_ip customer_ip (refl, refl, refl) (ground arith)

-- The same network with a longer path.
abbrev low_again : UpdateMsg
low_again = record low_half { as_path = 1 ∷ 9 ∷ [] }

no_routes-IsSound : IsSound (with_table [])
no_routes-IsSound = ((sockets_known [], tt), tt)

low_differ : low_half ≢ low_again
low_differ = λ e. absurd (ground arith)

withdraw_leaves_second_example :
    ((state_of (
        Withdraw.process customer_ip (network_of low_half ∷ []) (
          state_of (
            Update.process customer_ip low_again
              (state_of (Update.process customer_ip low_half (with_table []))))))).forwarding_table
      ≡ (low_again, customer_ip) ∷ [])
    × (is_withdrawn customer_ip (network_of low_half) low_again customer_ip ≡ true)
withdraw_leaves_second_example =
    withdraw_leaves_second (with_table []) customer_ip low_half low_again no_routes-IsSound
      (customer_known []) refl low_differ refl

-- The connections of a router of AS 7, and the sockets that the system gives it.
abbrev two_connections : List (ℕ × IpAddress × ConnectionType)
two_connections = (7833, customer_ip, customer) ∷ (2374, provider_ip, provider) ∷ []

abbrev socket_of : IpAddress → Socket
socket_of ip = ip.binary / 2 ^ 24 + 3

two_connections-fit : Connections IsAddress two_connections
two_connections-fit = (omega arith, (omega arith, tt))

start_lem_example :
    (r : Router) × (start socket_of (init 7 two_connections) ≡ (ok tt, r))
    × IsRunning r
    × Connections (IsNeighbor r) two_connections
    × (r.sent ≡ map (handshake socket_of r) r.ip_conn_type_map)
start_lem_example = start_lem socket_of 7 two_connections two_connections-fit

-- An update by the socket of the customer, then data by that of the provider.
abbrev two_batches : List (List (Socket × Result Packet))
two_batches =
    ((
      4,
      ok (record {
        src = customer_ip;
        dst = addr 1 0 0 1;
        type = PacketType.update;
        msg = update_msg wide;
      }),
    )
      ∷ [])
    ∷ ((
      5,
      ok (record {
        src = provider_ip;
        dst = addr 192 168 0 9;
        type = PacketType.data_packet;
        msg = content [];
      }),
    )
        ∷ [])
    ∷ []

two_batches-come :
    All
      (All (IsReceived (state_of (start socket_of (init 7 two_connections))).ip_socket_map))
      two_batches
unfolding Run.start init post_init split_into_octets network_gateway split_on stringify_octets
    decimal int_of_text send
two_batches-come = (((inl refl, (wide, refl, omega arith)), tt), (((inr (inl refl), tt), tt), tt))

run_lem_example : Ended two_batches (Run.run socket_of two_batches (init 7 two_connections))
run_lem_example =
    run_lem socket_of 7 two_connections two_batches two_connections-fit two_batches-come
