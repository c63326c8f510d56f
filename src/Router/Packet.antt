-- ===== src/Router/Packet.antt =====
-- 3700Router/networks/packet.py and the connection types of utils.py: the messages of the router
-- and the order on origins.
use cs.Prelude.{ℕ, ◌≡◌, ◌↔◌, Bool, true, false, ◌&&◌, ◌||◌, List, arith, if◌then◌else◌}
use cs.Prelude.Eq.{Eq, ◌==◌, ℕ_eq, Bool_eq, List_eq, bool_eq_iff, list_eq_iff}
use cs.Prelude.Text.{Text}
use cs.Router.Address.{IpAddress, SubnetMask, QuadrupleOctet_eq, address_beq_iff}

pub data ConnectionType : Type 0 where
  peer provider customer : ConnectionType

abbrev pub connection_beq : ConnectionType → ConnectionType → Bool
connection_beq peer peer = true
connection_beq provider provider = true
connection_beq customer customer = true
connection_beq _ _ = false

pub data PacketType : Type 0 where
  update withdraw data_packet routeless dump table handshake : PacketType

-- `AutonomousSystemOrigin`: "IGP", "EGP" and "UNK"
pub data Origin : Type 0 where
  local remote unknown : Origin

abbrev pub origin_beq : Origin → Origin → Bool
origin_beq local local = true
origin_beq remote remote = true
origin_beq unknown unknown = true
origin_beq _ _ = false

pub origin_beq_iff : (a b : Origin) → (origin_beq a b ≡ true) ↔ (a ≡ b)
origin_beq_iff a b = (λ h. ground arith, λ h. ground arith)

instance abbrev pub Origin_eq : Eq Origin
Origin_eq = record { beq = origin_beq; beq_iff = origin_beq_iff }

-- `AutonomousSystemOrigin.__gt__`, test by test
abbrev pub origin_gt : Origin → Origin → Bool
origin_gt self other =
    if self == other
    then false
    else if self == local
    then true
    else if other == remote
    then false
    else if self == remote
    then true
    else false

-- `AutonomousSystemOrigin.__lt__`
abbrev pub origin_lt : Origin → Origin → Bool
origin_lt self other = if (self == other) || origin_gt self other then false else true

-- `NetworkDescription`
pub record NetworkDescription : Type 0 where
  pub network : IpAddress
  pub netmask : SubnetMask

abbrev pub description_beq : NetworkDescription → NetworkDescription → Bool
description_beq a b = (a.network == b.network) && (a.netmask == b.netmask)

pub description_beq_iff : (a b : NetworkDescription) → (description_beq a b ≡ true) ↔ (a ≡ b)
description_beq_iff a b = (
  λ h. ground (arith, address_beq_iff a.network b.network, address_beq_iff a.netmask b.netmask),
  λ h. ground (arith, address_beq_iff a.network b.network, address_beq_iff a.netmask b.netmask),
)

instance abbrev pub NetworkDescription_eq : Eq NetworkDescription
NetworkDescription_eq = record { beq = description_beq; beq_iff = description_beq_iff }

-- `UpdatePing`: what is told to the neighbours
pub record UpdatePing : Type 0 where
  pub network : IpAddress
  pub netmask : SubnetMask
  pub as_path : List ℕ

-- `UpdateMsg`, with the fields that it inherits
pub record UpdateMsg : Type 0 where
  pub network : IpAddress
  pub netmask : SubnetMask
  pub as_path : List ℕ
  pub localpref : ℕ
  pub self_origin : Bool
  pub origin : Origin

-- The `==` of the dataclass compares the fields in their order.
abbrev pub update_beq : UpdateMsg → UpdateMsg → Bool
update_beq a b =
    (a.network == b.network)
    && ((a.netmask == b.netmask)
        && ((a.as_path == b.as_path)
            && ((a.localpref == b.localpref)
                && ((a.self_origin == b.self_origin) && (a.origin == b.origin)))))

pub update_beq_iff : (a b : UpdateMsg) → (update_beq a b ≡ true) ↔ (a ≡ b)
update_beq_iff a b = (
  λ h. ground (
    arith,
    address_beq_iff a.network b.network,
    address_beq_iff a.netmask b.netmask,
    list_eq_iff a.as_path b.as_path,
    bool_eq_iff a.self_origin b.self_origin,
    origin_beq_iff a.origin b.origin,
  ),
  λ h. ground (
    arith,
    address_beq_iff a.network b.network,
    address_beq_iff a.netmask b.netmask,
    list_eq_iff a.as_path b.as_path,
    bool_eq_iff a.self_origin b.self_origin,
    origin_beq_iff a.origin b.origin,
  ),
)

instance abbrev pub UpdateMsg_eq : Eq UpdateMsg
UpdateMsg_eq = record { beq = update_beq; beq_iff = update_beq_iff }

-- `DumpPing`: an entry of the table that answers a dump
pub record DumpPing : Type 0 where
  pub network : IpAddress
  pub netmask : SubnetMask
  pub as_path : List ℕ
  pub localpref : ℕ
  pub self_origin : Bool
  pub origin : Origin
  pub peer : IpAddress

-- The values of the field `msg`, by the type of the packet: an `UpdateMsg` is received and an
-- `UpdatePing` is sent under `update`; the content of a data packet is never read, so it is a text.
pub data Message : Type 0 where
  update_msg : UpdateMsg → Message
  update_ping : UpdatePing → Message
  withdrawals : List NetworkDescription → Message
  full_table : List DumpPing → Message
  content : Text → Message
  empty : Message

pub record Packet : Type 0 where
  pub src : IpAddress
  pub dst : IpAddress
  pub type : PacketType
  pub msg : Message
