-- ===== src/Tests/Boots.antt =====
-- A `DNet` on a system on which every call succeeds, and on one without a socket.
use dnet_core.Base.{ap, ℕ, ◌≤◌, length, ◌≡◌, refl, arith, List, [], ◌∷◌, some}
use dnet_core.Words.{bytes32}
use dnet_core.Words.Laws.{IsWord32}
use dnet_core.Addr.{Ipv4Address}
use dnet_core.Addr.Text.{
  Parsed, parsed, invalid, undefined, parse_ipv4, parse_mac, ipv4_text, of_bytes,
}
use dnet_core.Addr.TextLaws.{parse_ipv4-ipv4_text}
use dnet_core.Dns.Table.{registered, register_dns_records}
use dnet_core.Dns.Register.{register_generic, register_a, register_cname}
use dnet_core.Memory.{read_bytes}
use dnet_core.Text.{codes}
use dnet_core.Net.{Net, emit, load, dnet_assert, driver_send}
use dnet_core.L2
use dnet_core.L2.Send.{EtherType, to_ether_type, to_frame}
use dnet_core.L2.Send as L2Send
use dnet_core.L3.Output.{frame_from}
use dnet_core.Arp
use dnet_core.Arp.{message, arp_response, to_opcode}
use dnet_core.Arp.Payload.{to_payload, bytes_payload}
use dnet_core.Addr.{contains}
use dnet_core.Driver.{receive, caught}
use dnet_core.Os.{Kernel, Call, Answer, failed, done, not_valid, Trace, still_open}
use dnet_core.Driver.{do_listen}
use dnet_core.Driver.Device.{
  Device, new_device, init_dev, with_tap, set_up, add_route, set_route, start_listen, stop_listen,
  terminated,
}
use dnet_core.Driver.Device.Descriptors.{init_dev-still_open}
use dnet_core.Boot.{started, Config, layers, construct, open_device, build}
use dnet_core.Boot.Laws.{listening, Started, construct-Started}
use dnet_core.Boot.Serve.{construct-stop_listen}
use dnet_core.Driver.Read.{listen}
use dnet_core.Sound.Loop.{construct-listen}
use dnet_core.Tests.Rounds.{rounds, rounds-AllBring}
use dnet_core.Tests.{our_mac, addr, arrives, us, peer_mac, framed, arp_question}

parse_ipv4-ipv4_text_example : parse_ipv4 (ipv4_text (addr 10 0 0 255)) ≡ parsed (addr 10 0 0 255)
parse_ipv4-ipv4_text_example = parse_ipv4-ipv4_text (addr 10 0 0 255) (omega arith)

abbrev config : Config
config = record {
  ifname = codes "dnet0";
  mtu = 1500;
  mac = codes "11:45:14:19:19:81";
  dest_ip = codes "10.0.0.0";
  gen_mask = codes "255.255.255.0";
}

-- What every call returns: the number 3, and the name or the hardware address that was asked for.
abbrev reply : Trace → Call → Answer
reply t (Call.tun_set_iff fd name flags) = done 3 name
reply t (Call.get_hwaddr fd name) = done 3 (2 ∷ 0 ∷ 0 ∷ 0 ∷ 0 ∷ 9 ∷ [])
reply t c = done 3 []

abbrev quad : Parsed Ipv4Address → List ℕ
quad (parsed a) = bytes32 a
quad invalid = 255 ∷ 255 ∷ 255 ∷ 255 ∷ []
quad undefined = 255 ∷ 255 ∷ 255 ∷ 255 ∷ []

abbrev kernel : Kernel
kernel = record { answer = reply; inet_pton = λ _. not_valid; inet_addr = λ s. quad (parse_ipv4 s) }

none_fails : (t : Trace) (c : Call) → (n : ℕ) × (s : List ℕ) × (reply t c ≡ done n s)
none_fails t Call.open_tap = (_, _, refl)
none_fails t Call.open_socket = (_, _, refl)
none_fails t (Call.tun_set_iff fd name flags) = (_, _, refl)
none_fails t (Call.set_flags fd name flags) = (_, _, refl)
none_fails t (Call.get_hwaddr fd name) = (_, _, refl)
none_fails t (Call.set_hwaddr fd name addr) = (_, _, refl)
none_fails t (Call.set_addr fd name addr) = (_, _, refl)
none_fails t (Call.set_netmask fd name addr) = (_, _, refl)
none_fails t (Call.add_rt fd name dest mask flags metric) = (_, _, refl)
none_fails t (Call.close fd) = (_, _, refl)

quads : (a : Ipv4Address) → IsWord32 a → kernel.inet_addr (ipv4_text a) ≡ bytes32 a
quads a h = ap quad (parse_ipv4-ipv4_text a h)

mac_parsed : parse_mac config.mac ≡ parsed our_mac
unfolding parse_mac of_bytes
mac_parsed = refl

network_parsed : parse_ipv4 config.dest_ip ≡ parsed (addr 10 0 0 0)
unfolding parse_ipv4
network_parsed = refl

mask_parsed : parse_ipv4 config.gen_mask ≡ parsed (addr 255 255 255 0)
unfolding parse_ipv4
mask_parsed = refl

construct-listen_example :
    (n n' : Net) × (d : Device) × ((construct kernel config []).0 ≡ started n d)
    × (listen n rounds ≡ some n')
    × (length n'.sent ≤ 4)
construct-listen_example =
    construct-listen kernel config [] rounds mac_parsed network_parsed mask_parsed none_fails quads
      rounds-AllBring

abbrev device : Device
device = listening (record (new_device config.ifname 1500) {
  fd = some 3;
  mac = record { b0 = 2; b1 = 0; b2 = 0; b3 = 0; b4 = 0; b5 = 9 };
})

abbrev net : Net
net = layers our_mac (addr 10 0 0 0) (addr 255 255 255 0) device registered

booted : (construct kernel config []).0 ≡ started net device
unfolding construct open_device init_dev with_tap set_up add_route set_route parse_mac parse_ipv4
    of_bytes build register_dns_records register_generic read_bytes register_a start_listen
    register_cname
booted = refl

construct-Started_example : Started kernel config [] net device
construct-Started_example = construct-Started kernel config [] quads booted

-- A host on its subnet asks for its address.
abbrev answered : Net
answered =
    emit
      (frame_from net peer_mac EtherType.arp
        (bytes_payload (message arp_response our_mac us peer_mac (addr 10 0 0 9))))
      (record net { now = 1000; rand = 77 })

listened : do_listen net (arrives (framed 6 arp_question) ∷ []) ≡ some answered
unfolding do_listen receive caught load dnet_assert driver_send L2.on_recv to_frame L2.dispatch
    to_ether_type Arp.on_recv to_payload Arp.handle to_opcode contains Arp.send_response L2Send.send
listened = refl

-- No socket: the TAP device was made, and is not closed.
abbrev no_socket : Trace → Call → Answer
no_socket t Call.open_socket = failed
no_socket t c = reply t c

abbrev socketless : Kernel
socketless = record kernel { answer = no_socket }

init_dev-still_open_example :
    still_open socketless (init_dev socketless (new_device config.ifname 1500) []).1 ≡ 3 ∷ []
init_dev-still_open_example = init_dev-still_open socketless (new_device config.ifname 1500) []

construct-stop_listen_example : stop_listen device ≡ terminated
construct-stop_listen_example = construct-stop_listen kernel config [] booted
