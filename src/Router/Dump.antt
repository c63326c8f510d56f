-- ===== src/Router/Dump.antt =====
-- `DumpPacketHandler` of 3700Router/networks/request_handler.py: the table with adjacent networks
-- put together.
pub mod Rounds
pub mod Merge
pub mod Ends
pub mod Exact
pub mod Answer
use cs.Prelude.{
  ℕ, zero, suc, ◌+◌, ◌-◌, ◌*◌, ◌/◌, ◌^◌, Bool, true, false, not, ◌&&◌, Option, none, some, List, [],
  ◌∷◌, ◌++◌, map, keep, length, ltb, if◌then◌else◌,
}
use cs.Prelude.Eq.{◌==◌, ℕ_eq, Bool_eq, List_eq}
use cs.Prelude.Exec.{
  Exec, Result, ok, err, index_error, value_error, bind, pure, lift, gets, ◌>>=◌, ◌>>◌,
}
use cs.Prelude.Dict.{Dict, lookup, insert}
use cs.Prelude.Sort.{sorted}
use cs.Router.Address.{
  IpAddress, SubnetMask, QuadrupleOctet_eq, prefix_shift_amount, from_binary, network_gateway,
}
use cs.Router.Packet.{
  UpdateMsg, UpdateMsg_eq, Origin_eq, origin_lt, DumpPing, PacketType, full_table, Packet,
}
use cs.Router.State.{Router, send}

-- The `<` of lists of numbers.
abbrev pub path_lt : List ℕ → List ℕ → Bool
path_lt [] [] = false
path_lt [] (y ∷ ys) = true
path_lt (x ∷ xs) [] = false
path_lt (x ∷ xs) (y ∷ ys) = let rest = path_lt xs ys in if x == y then rest else ltb x y

abbrev pub flag_lt : Bool → Bool → Bool
flag_lt a b = not a && b

-- The `<` of the dataclass `UpdateMsg`: the first field in which two messages differ decides.
abbrev pub update_lt : UpdateMsg → UpdateMsg → Bool
update_lt a b =
    if not (a.network == b.network)
    then ltb a.network.binary b.network.binary
    else if not (a.netmask == b.netmask)
    then ltb a.netmask.binary b.netmask.binary
    else if not (a.as_path == b.as_path)
    then path_lt a.as_path b.as_path
    else if not (a.localpref == b.localpref)
    then ltb a.localpref b.localpref
    else if not (a.self_origin == b.self_origin)
    then flag_lt a.self_origin b.self_origin
    else if not (a.origin == b.origin)
    then origin_lt a.origin b.origin
    else false

-- The test of the loop in `_find_matching_messages`.
abbrev pub is_match : UpdateMsg → UpdateMsg → Bool
is_match reference element =
    (reference == record element { network = reference.network })
    && ((reference.network.binary / 2 ^ (prefix_shift_amount reference.netmask + 1))
        == (element.network.binary / 2 ^ (prefix_shift_amount reference.netmask + 1)))

-- `_find_matching_messages`
unfoldable pub find_matching_messages : UpdateMsg → List UpdateMsg → List UpdateMsg
find_matching_messages reference options = keep (is_match reference) options

-- `SubnetMask('255.255.255.255').binary`
abbrev pub full_mask : ℕ
full_mask = 2 ^ 32 - 1

-- `_calculate_aggregation` from its second line on
abbrev pub aggregate_smallest : List UpdateMsg → Result UpdateMsg
aggregate_smallest [] = err index_error
aggregate_smallest (smallest ∷ others) =
    let bit_shift_count = prefix_shift_amount smallest.netmask + 1 in
    bind (from_binary (full_mask / 2 ^ bit_shift_count * 2 ^ bit_shift_count))
      λ updated_netmask. ok (record smallest { netmask = updated_netmask })

-- `_calculate_aggregation`
unfoldable pub calculate_aggregation : List UpdateMsg → Result UpdateMsg
calculate_aggregation matches = aggregate_smallest (sorted update_lt matches)

-- `l.remove(x)`
abbrev pub remove : UpdateMsg → List UpdateMsg → Result (List UpdateMsg)
remove x [] = err value_error
remove x (y ∷ ys) =
    let rest = remove x ys in if y == x then ok ys else bind rest (λ zs. ok (y ∷ zs))

-- The loop that removes the combinations.
unfoldable pub remove_all : List UpdateMsg → List UpdateMsg → Result (List UpdateMsg)
remove_all [] xs = ok xs
remove_all (c ∷ cs) xs = bind (remove c xs) (λ ys. remove_all cs ys)

-- `last_edited = first_element` where there is none yet
abbrev pub first_edited : Option UpdateMsg → UpdateMsg → UpdateMsg
first_edited none first = first
first_edited (some last) first = last

abbrev pub is_last : UpdateMsg → Option UpdateMsg → Bool
is_last u none = false
is_last u (some last) = u == last

-- One round of the `while` of `_aggregate_msg_group`: the list and `last_edited` after it.
abbrev pub round_with :
    List UpdateMsg
    → UpdateMsg
    → List UpdateMsg
    → Option UpdateMsg
    → Result (List UpdateMsg × UpdateMsg)
round_with [] first rest last = ok (rest ++ (first ∷ []), first_edited last first)
round_with (c ∷ cs) first rest last = bind (remove_all (c ∷ cs) rest) λ kept.
    bind (calculate_aggregation (first ∷ c ∷ cs)) λ merged. ok (kept ++ (merged ∷ []), merged)

unfoldable pub round :
    UpdateMsg → List UpdateMsg → Option UpdateMsg → Result (List UpdateMsg × UpdateMsg)
unfolding find_matching_messages remove_all calculate_aggregation
round first rest last = round_with (find_matching_messages first rest) first rest last

-- The `while` of `_aggregate_msg_group` with fuel; `none` means that the fuel ran out.
unfoldable pub aggregate_loop :
    ℕ → List UpdateMsg → Option UpdateMsg → Option (Result (List UpdateMsg))
aggregate_loop zero parsed last = none
aggregate_loop (suc fuel) [] last = some (err index_error)
aggregate_loop (suc fuel) (first ∷ rest) last = elim (is_last first last) [
  | true ↦ some (ok (first ∷ rest))
  | false ↦ elim (round first rest last) [
    | err e ↦ some (err e)
    | ok (parsed, last') ↦ aggregate_loop fuel parsed (some last')
  ]
]

-- Enough rounds for a group: see Router/Dump/Ends.
abbrev pub group_fuel : List UpdateMsg → ℕ
group_fuel group = length group * length group + length group + 1

-- `_aggregate_msg_group`
unfoldable pub aggregate_msg_group : List UpdateMsg → Option (Result (List UpdateMsg))
unfolding aggregate_loop round
aggregate_msg_group group = aggregate_loop (group_fuel group) group none

-- `ip_filters[ip].append(msg)` of a `defaultdict(list)`
abbrev pub append_to :
    IpAddress → UpdateMsg → Dict IpAddress (List UpdateMsg) → Dict IpAddress (List UpdateMsg)
append_to ip msg filters = elim (lookup ip filters) [
  | none ↦ insert ip (msg ∷ []) filters
  | some group ↦ insert ip (group ++ (msg ∷ [])) filters
]

-- The loop that sorts the entries by next hop.
unfoldable pub group_entries :
    Dict UpdateMsg IpAddress → Dict IpAddress (List UpdateMsg) → Dict IpAddress (List UpdateMsg)
group_entries [] filters = filters
group_entries ((msg, ip) ∷ rest) filters = group_entries rest (append_to ip msg filters)

abbrev pub add_all :
    List UpdateMsg → IpAddress → Dict UpdateMsg IpAddress → Dict UpdateMsg IpAddress
add_all [] ip table = table
add_all (msg ∷ rest) ip table = add_all rest ip (insert msg ip table)

-- The loop over the groups.
unfoldable pub aggregate_groups :
    Dict IpAddress (List UpdateMsg)
    → Dict UpdateMsg IpAddress
    → Option (Result (Dict UpdateMsg IpAddress))
unfolding aggregate_msg_group
aggregate_groups [] table = some (ok table)
aggregate_groups ((ip, group) ∷ rest) table = elim (aggregate_msg_group group) [
  | none ↦ none
  | some (err e) ↦ some (err e)
  | some (ok aggregated) ↦ aggregate_groups rest (add_all aggregated ip table)
]

-- `_aggregate_forwarding_table`
unfoldable pub aggregate_forwarding_table :
    Dict UpdateMsg IpAddress → Option (Result (Dict UpdateMsg IpAddress))
unfolding group_entries aggregate_groups
aggregate_forwarding_table table = aggregate_groups (group_entries table []) []

abbrev pub dump_entry : UpdateMsg × IpAddress → DumpPing
dump_entry (u, ip) = record {
  network = u.network;
  netmask = u.netmask;
  as_path = u.as_path;
  localpref = u.localpref;
  self_origin = u.self_origin;
  origin = u.origin;
  peer = ip;
}

-- `DumpPacketHandler.process`; `none` means that a group's fuel ran out.
unfoldable pub process : IpAddress → Router → Option (Result (Unit {0}) × Router)
unfolding aggregate_forwarding_table
process sender_ip r = elim (aggregate_forwarding_table r.forwarding_table) [
  | none ↦ none
  | some result ↦ some (
      (do
        aggregated ← lift result
        gateway ← lift (network_gateway sender_ip)
        send sender_ip (record {
          src = gateway;
          dst = sender_ip;
          type = PacketType.table;
          msg = full_table (map dump_entry aggregated);
        }))
        r)
]
