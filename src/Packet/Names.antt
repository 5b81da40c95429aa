-- ===== src/Packet/Names.antt =====
-- net/json_packet.cc: the tables of names, and the constants of the C library's headers that the
-- file uses.
use cheaproute.Prelude.{ℕ, Option, none, some, List, [], ◌∷◌, replicate, ascii, get_or}
use Prim.Native.String.{String}

abbrev pub Name : Type 0
Name = Option (List ℕ)

abbrev name : String → Name
name s = some (ascii s)

-- `kProtocolNames`
abbrev pub protocol_names : List Name
protocol_names =
    name "HOPOPT"
    ∷ name "ICMP"
    ∷ name "IGMP"
    ∷ name "GGP"
    ∷ name "IP"
    ∷ name "ST"
    ∷ name "TCP"
    ∷ name "CBT"
    ∷ name "EGP"
    ∷ name "IGP"
    ∷ name "BBN-RCC-MON"
    ∷ name "NVP-II"
    ∷ name "PUP"
    ∷ name "ARGUS"
    ∷ name "EMCON"
    ∷ name "XNET"
    ∷ name "CHAOS"
    ∷ name "UDP"
    ∷ name "MUX"
    ∷ name "DCN-MEAS"
    ∷ name "HMP"
    ∷ name "PRM"
    ∷ name "XNS-IDP"
    ∷ name "TRUNK-1"
    ∷ name "TRUNK-2"
    ∷ name "LEAF-1"
    ∷ name "LEAF-2"
    ∷ name "RDP"
    ∷ name "IRTP"
    ∷ name "ISO-TP4"
    ∷ name "NETBLT"
    ∷ name "MFE-NSP"
    ∷ name "MERIT-INP"
    ∷ name "DCCP"
    ∷ name "3PC"
    ∷ name "IDPR"
    ∷ name "XTP"
    ∷ name "DDP"
    ∷ name "IDPR-CMTP"
    ∷ name "TP++"
    ∷ name "IL"
    ∷ name "IPv6"
    ∷ name "SDRP"
    ∷ name "IPv6-Route"
    ∷ name "IPv6-Frag"
    ∷ name "IDRP"
    ∷ name "RSVP"
    ∷ name "GRE"
    ∷ name "MHRP"
    ∷ name "BNA"
    ∷ name "ESP"
    ∷ name "AH"
    ∷ name "I-NLSP"
    ∷ name "SWIPE"
    ∷ name "NARP"
    ∷ name "MOBILE"
    ∷ name "TLSP"
    ∷ name "SKIP"
    ∷ name "IPv6-ICMP"
    ∷ name "IPv6-NoNxt"
    ∷ name "IPv6-Opts"
    ∷ none
    ∷ name "CFTP"
    ∷ none
    ∷ name "SAT-EXPAK"
    ∷ name "KRYPTOLAN"
    ∷ name "RVD"
    ∷ name "IPPC"
    ∷ none
    ∷ name "SAT-MON"
    ∷ name "VISA"
    ∷ name "IPCV"
    ∷ name "CPNX"
    ∷ name "CPHB"
    ∷ name "WSN"
    ∷ name "PVP"
    ∷ name "BR-SAT-MON"
    ∷ name "SUN-ND"
    ∷ name "WB-MON"
    ∷ name "WB-EXPAK"
    ∷ name "ISO-IP"
    ∷ name "VMTP"
    ∷ name "SECURE-VMTP"
    ∷ name "VINES"
    ∷ name "TTP"
    ∷ name "NSFNET-IGP"
    ∷ name "DGP"
    ∷ name "TCF"
    ∷ name "EIGRP"
    ∷ name "OSPF"
    ∷ name "Sprite-RPC"
    ∷ name "LARP"
    ∷ name "MTP"
    ∷ name "AX.25"
    ∷ name "IPIP"
    ∷ name "MICP"
    ∷ name "SCC-SP"
    ∷ name "ETHERIP"
    ∷ name "ENCAP"
    ∷ none
    ∷ name "GMTP"
    ∷ name "IFMP"
    ∷ name "PNNI"
    ∷ name "PIM"
    ∷ name "ARIS"
    ∷ name "SCPS"
    ∷ name "QNX"
    ∷ name "A/N"
    ∷ name "IPComp"
    ∷ name "SNP"
    ∷ name "Compaq-Peer"
    ∷ name "IPX-in-IP"
    ∷ name "VRRP"
    ∷ name "PGM"
    ∷ none
    ∷ name "L2TP"
    ∷ name "DDX"
    ∷ name "IATP"
    ∷ name "STP"
    ∷ name "SRP"
    ∷ name "UTI"
    ∷ name "SMP"
    ∷ name "SM"
    ∷ name "PTP"
    ∷ none
    ∷ name "FIRE"
    ∷ name "CRTP"
    ∷ name "CRUDP"
    ∷ name "SSCOPMCE"
    ∷ name "IPLT"
    ∷ name "SPS"
    ∷ name "PIPE"
    ∷ name "SCTP"
    ∷ name "FC"
    ∷ none
    ∷ none
    ∷ none
    ∷ none
    ∷ name "manet"
    ∷ name "HIP"
    ∷ name "Shim6"
    ∷ replicate 115 none

-- `kTcpFlags`
abbrev pub tcp_flags : List Name
tcp_flags =
    name "FIN"
    ∷ name "SYN"
    ∷ name "RST"
    ∷ name "PSH"
    ∷ name "ACK"
    ∷ name "URG"
    ∷ name "ECE"
    ∷ name "CWR"
    ∷ name "NS"
    ∷ []

-- `kTcpOptions`
abbrev pub tcp_options : List Name
tcp_options =
    name "EOL"
    ∷ name "NOP"
    ∷ name "maxSegmentSize"
    ∷ name "windowScale"
    ∷ name "sackPermitted"
    ∷ name "selectedAck"
    ∷ none
    ∷ none
    ∷ name "timestamp"
    ∷ []

-- `kIcmpTypeNames`
abbrev pub icmp_type_names : List Name
icmp_type_names =
    name "echoReply"
    ∷ none
    ∷ name "destinationUnreachable"
    ∷ name "sourceQuench"
    ∷ name "redirectMessage"
    ∷ none
    ∷ none
    ∷ none
    ∷ name "echoRequest"
    ∷ name "routerAdvertisement"
    ∷ name "routerSolicitation"
    ∷ name "timeExceeded"
    ∷ name "badIpHeader"
    ∷ name "timestamp"
    ∷ name "timestampReply"
    ∷ name "infoRequest"
    ∷ name "infoReply"
    ∷ name "addressMaskRequest"
    ∷ name "addressMaskReply"
    ∷ none
    ∷ none
    ∷ none
    ∷ none
    ∷ none
    ∷ none
    ∷ none
    ∷ none
    ∷ none
    ∷ none
    ∷ none
    ∷ name "traceroute"
    ∷ replicate 1 none

-- `kIcmpDestinationUnreachableCodeNames`
abbrev pub icmp_unreachable_names : List Name
icmp_unreachable_names =
    name "destinationNetworkUnreachable"
    ∷ name "destinationHostUnreachable"
    ∷ name "destinationProtocolUnreachable"
    ∷ name "destinationPortUnreachable"
    ∷ name "fragmentationRequired"
    ∷ name "sourceRouteFailed"
    ∷ name "destinationNetworkUnknown"
    ∷ name "destinationHostUnknown"
    ∷ name "sourceHostIsolated"
    ∷ name "networkAdministrativelyProhibited"
    ∷ name "hostAdministrativelyProhibited"
    ∷ name "networkUnreachableForTos"
    ∷ name "communicationAdministrativelyProhibited"
    ∷ []

-- `kIcmpRedirectMessageCodeNames`
abbrev pub icmp_redirect_names : List Name
icmp_redirect_names =
    name "redirectDatagramForHost"
    ∷ name "redirectDatagramForNetwork"
    ∷ name "redirectDatagramForTosAndNetwork"
    ∷ name "redirectDatagramForTosAndHost"
    ∷ []

-- `kIcmpBadIpHeaderCodeNames`
abbrev pub icmp_bad_header_names : List Name
icmp_bad_header_names =
    name "pointerIndicatesTheError" ∷ name "missingARequiredOption" ∷ name "badLength" ∷ []

-- Read past the end there is no name, as `WriteFriendlyStringOrInt` tests.
unfoldable pub name_at : List Name → ℕ → Name
name_at names i = get_or names i none
