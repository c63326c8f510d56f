-- ===== src/Router/Run.antt =====
-- 3700Router/networks/router.py: from a received packet to its handler, the start, and the run.
pub mod Safety
pub mod Opening
pub mod Start
pub mod Whole
use cs.Prelude.{ℕ, Bool, true, false, Option, none, some, List, [], ◌∷◌}
use cs.Prelude.Exec.{
  Exec, Result, ok, err, bind, type_error, key_error, or_raise, pure, lift, gets, modify, ◌>>=◌,
  ◌>>◌,
}
use cs.Prelude.Dict.{Dict, insert}
use cs.Router.Address.{IpAddress, QuadrupleOctet_eq, network_gateway}
use cs.Router.Packet.{
  ConnectionType, NetworkDescription, UpdateMsg, PacketType, Message, update_msg, withdrawals,
  empty, Packet,
}
use cs.Router.State.{Router, Socket, send, select_src_ip}
use cs.Router.Update
use cs.Router.Withdraw
use cs.Router.Forward
use cs.Router.Dump

-- The handlers, with the arguments of their constructors. That the field `msg` has the class which
-- its type says is the work of `Packet.deserialize`.
pub data Handler : Type 0 where
  update_handler : IpAddress → Message → Handler
  dump_handler : IpAddress → Handler
  data_handler : IpAddress → Packet → Handler
  withdraw_handler : IpAddress → Message → Handler

-- `Router._assign_handler`
unfoldable pub assign_handler : IpAddress → Packet → Option Handler
assign_handler source packet = elim packet.type [
  | PacketType.update ↦ some (update_handler source packet.msg)
  | PacketType.dump ↦ some (dump_handler source)
  | PacketType.data_packet ↦ some (data_handler source packet)
  | PacketType.withdraw ↦ some (withdraw_handler source packet.msg)
  | _ ↦ none
]

-- `handler.process(router)`; `none` means that the fuel of an aggregation ran out.
unfoldable pub handle : Handler → Router → Option (Result (Unit {0}) × Router)
handle (update_handler sender (update_msg m)) r = some (Update.process sender m r)
handle (update_handler sender _) r = some (err type_error, r)
handle (dump_handler sender) r = Dump.process sender r
handle (data_handler sender packet) r = some (Forward.process sender packet r)
handle (withdraw_handler sender (withdrawals ds)) r = some (Withdraw.process sender ds r)
handle (withdraw_handler sender _) r = some (err type_error, r)

-- The `for` over the handlers in `run`: a raise ends the router.
unfoldable pub run_handlers : List Handler → Router → Option (Result (Unit {0}) × Router)
unfolding handle
run_handlers [] r = some (ok tt, r)
run_handlers (h ∷ hs) r = elim (handle h r) [
  | none ↦ none
  | some (err e, r') ↦ some (err e, r')
  | some (ok _, r') ↦ run_handlers hs r'
]

-- The loop of `run` that opens the sockets, which the system numbers, and shakes hands.
unfoldable pub start_loop : (IpAddress → Socket) → Dict IpAddress ConnectionType → Exec Router Unit
start_loop open_socket [] = pure tt
start_loop open_socket ((ip_address, relation) ∷ rest) = do
  modify (λ (r : Router). record r {
    ip_socket_map = insert ip_address (open_socket ip_address) r.ip_socket_map;
  })
  gateway ← lift (network_gateway ip_address)
  send ip_address
      (record { src = gateway; dst = ip_address; type = PacketType.handshake; msg = empty })
  start_loop open_socket rest

-- The first part of `run`.
unfoldable pub start : (IpAddress → Socket) → Exec Router Unit
unfolding start_loop
start open_socket = do
  items ← gets (λ (r : Router). r.ip_conn_type_map)
  start_loop open_socket items

abbrev pub added : Option Handler → List Handler → List Handler
added none handlers = handlers
added (some h) handlers = h ∷ handlers

-- `Router._select_handlers` for what came by the sockets that are ready: each with what reading its
-- datagram, `json.loads` and `Packet.deserialize`, gave, a packet or an exception, which then ends the
-- call. A socket that `select` returns is one of the map; without an address the handler would fail to look
-- up its sender.
unfoldable pub select_handlers :
    List (Socket × Result Packet) → Dict IpAddress Socket → Result (List Handler)
unfolding assign_handler select_src_ip
select_handlers [] ip_socket_map = ok []
select_handlers ((conn, read) ∷ rest) ip_socket_map =
    bind (or_raise key_error (select_src_ip conn ip_socket_map)) λ srcif. bind read λ packet.
      bind (select_handlers rest ip_socket_map)
        λ handlers. ok (added (assign_handler srcif packet) handlers)

-- The `while` of `run` over the batches that come, up to the one that raises
unfoldable pub run_batches :
    List (List (Socket × Result Packet)) → Router → Option (Result (Unit {0}) × Router)
unfolding select_handlers run_handlers
run_batches [] r = some (ok tt, r)
run_batches (batch ∷ rest) r = elim (select_handlers batch r.ip_socket_map) [
  | err e ↦ some (err e, r)
  | ok handlers ↦ elim (run_handlers handlers r) [
    | none ↦ none
    | some (err e, r') ↦ some (err e, r')
    | some (ok _, r') ↦ run_batches rest r'
  ]
]

-- `run`
unfoldable pub run :
    (IpAddress → Socket)
    → List (List (Socket × Result Packet))
    → Router
    → Option (Result (Unit {0}) × Router)
unfolding start run_batches
run open_socket batches r =
    let (result, r') = start open_socket r in
    elim result [ err e ↦ some (err e, r') | ok _ ↦ run_batches batches r' ]
