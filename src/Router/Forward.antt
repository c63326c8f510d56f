-- ===== src/Router/Forward.antt =====
-- `DataPacketHandler` of 3700Router/networks/request_handler.py.
pub mod Match
pub mod Longest
pub mod Policy
pub mod Ties
use cs.Prelude.{
  ℕ, ◌+◌, ◌-◌, ◌/◌, ◌^◌, Bool, true, false, not, ◌&&◌, ◌||◌, Option, none, some, List, [], ◌∷◌, ltb,
  length, if◌then◌else◌,
}
use cs.Prelude.Eq.{◌==◌, ℕ_eq}
use cs.Prelude.Exec.{Exec, Result, ok, err, attribute_error, bind, pure, lift, gets, ◌>>=◌, ◌>>◌}
use cs.Prelude.Dict.{Dict}
use cs.Router.Address.{IpAddress, mask_length, prefix_shift_amount, network_gateway}
use cs.Router.Packet.{
  ConnectionType, peer, provider, customer, connection_beq, Origin, origin_gt, origin_lt, UpdateMsg,
  PacketType, Message, empty, Packet,
}
use cs.Router.State.{Router, fetch, send}

-- `Handler.matched_subnet`
unfoldable pub matched_subnet : IpAddress → UpdateMsg → Option ℕ
matched_subnet destination_ip entry =
    let match_shift = prefix_shift_amount entry.netmask in
    if (entry.network.binary / 2 ^ match_shift) == (destination_ip.binary / 2 ^ match_shift)
    then some (mask_length entry.netmask)
    else none

-- The three variables of the loop: the best route so far.
pub record Best : Type 0 where
  pub largest_ip : Option IpAddress
  pub largest_update : Option UpdateMsg
  pub largest_mask : ℕ

abbrev pub route : IpAddress → UpdateMsg → Best
route ip u = record {
  largest_ip = some ip;
  largest_update = some u;
  largest_mask = mask_length u.netmask;
}

-- The last test of `_determine_best_route`, on the addresses of the neighbours.
abbrev pub lowest_neighbor : Best → Best → Option IpAddress → IpAddress → Result Best
lowest_neighbor largest contending none ip = err attribute_error
lowest_neighbor largest contending (some largest_ip) ip =
    if ltb largest_ip.binary ip.binary then ok largest else ok contending

-- `_determine_best_route` from its third line on, with both triples formed.
unfoldable pub compare_routes :
    Best → Best → UpdateMsg → Option IpAddress → UpdateMsg → IpAddress → Result Best
compare_routes largest contending l l_ip c c_ip =
    if ltb c.localpref l.localpref
    then ok largest
    else if ltb l.localpref c.localpref
    then ok contending
    else if not (l.self_origin && c.self_origin) && l.self_origin
    then ok largest
    else if not (l.self_origin && c.self_origin) && c.self_origin
    then ok contending
    else if ltb (length l.as_path) (length c.as_path)
    then ok largest
    else if ltb (length c.as_path) (length l.as_path)
    then ok contending
    else if origin_lt l.origin c.origin
    then ok largest
    else if origin_gt l.origin c.origin
    then ok contending
    else lowest_neighbor largest contending l_ip c_ip

-- `_determine_best_route`
unfoldable pub determine_best_route :
    Option UpdateMsg → Option IpAddress → UpdateMsg → IpAddress → Result Best
unfolding compare_routes
determine_best_route none l_ip c c_ip = err attribute_error
determine_best_route (some l) l_ip c c_ip =
    let largest : Best = record {
      largest_ip = l_ip;
      largest_update = some l;
      largest_mask = mask_length l.netmask;
    } in
    compare_routes largest (route c_ip c) l l_ip c c_ip

abbrev pub is_none : Option UpdateMsg → Bool
is_none none = true
is_none (some u) = false

-- The body of the loop, after the entry has matched.
unfoldable pub consider : Best → UpdateMsg → IpAddress → ℕ → Result Best
unfolding determine_best_route
consider b u ip mask_match =
    if ltb b.largest_mask mask_match
      || ((mask_match == 0) && ((b.largest_mask == 0) && is_none b.largest_update))
    then ok (record { largest_ip = some ip; largest_update = some u; largest_mask = mask_match })
    else if mask_match == b.largest_mask
    then determine_best_route b.largest_update b.largest_ip u ip
    else ok b

unfoldable pub best_step : IpAddress → Best → UpdateMsg → IpAddress → Result Best
unfolding matched_subnet consider
best_step destination b u ip = elim (matched_subnet destination u) [
  | none ↦ ok b
  | some m ↦ consider b u ip m
]

-- The loop of `process` over the forwarding table.
unfoldable pub best_loop : IpAddress → Dict UpdateMsg IpAddress → Best → Result Best
unfolding best_step
best_loop destination [] b = ok b
best_loop destination ((u, ip) ∷ rest) b =
    bind (best_step destination b u ip) (λ b'. best_loop destination rest b')

abbrev pub no_route : Best
no_route = record { largest_ip = none; largest_update = none; largest_mask = 0 }

abbrev pub is_transit : ConnectionType → Bool
is_transit c = connection_beq c peer || connection_beq c provider

-- The packet that goes on, and the one that tells the sender that there is no route.
abbrev pub pass_on : IpAddress → Packet → IpAddress → Exec Router Unit
pass_on sender_ip packet next_ip = do
  gateway ← lift (network_gateway sender_ip)
  send next_ip
      (record { src = gateway; dst = packet.dst; type = PacketType.data_packet; msg = packet.msg })

abbrev pub refuse : IpAddress → Exec Router Unit
refuse sender_ip = do
  gateway ← lift (network_gateway sender_ip)
  send sender_ip
      (record { src = gateway; dst = sender_ip; type = PacketType.routeless; msg = empty })

-- `_forward_packet`
unfoldable pub forward_packet : IpAddress → Packet → IpAddress → Exec Router Unit
forward_packet sender_ip packet next_ip = do
  source_relation ← fetch (λ r. r.ip_conn_type_map) sender_ip
  if connection_beq source_relation customer then pass_on sender_ip packet next_ip else do
    destination_relation ← fetch (λ r. r.ip_conn_type_map) next_ip
    if is_transit source_relation && is_transit destination_relation
        then refuse sender_ip
        else pass_on sender_ip packet next_ip

abbrev pub forward_best : IpAddress → Packet → Option IpAddress → Exec Router Unit
forward_best sender_ip packet none = pure tt
forward_best sender_ip packet (some next_ip) = forward_packet sender_ip packet next_ip

-- `DataPacketHandler.process`
unfoldable pub process : IpAddress → Packet → Exec Router Unit
unfolding best_loop forward_packet
process sender_ip packet = do
  table ← gets (λ (r : Router). r.forwarding_table)
  best ← lift (best_loop packet.dst table no_route)
  forward_best sender_ip packet best.largest_ip
