-- ===== src/Lib.antt =====
-- DNet-core: a TCP/IP stack in user space behind a Linux TAP device, as a library of its operations
-- and of what holds of them.
--
-- The program. One `DNet` object (DNet.h, DNet.cpp) owns the layers, which call each other through it.
-- A thread reads Ethernet frames from the device and hands each to `L2::on_recv`; the frame goes down
-- through ARP or IPv4, and from there to ICMP, UDP, TCP or the name server, whose replies go back
-- through `L3::send` and `L2::send` to the device. A failed `DNET_ASSERT` throws up to the thread, which
-- drops the frame and goes on.
--
-- The model. `Net` is what the `DNet` object and its layers keep: the configuration, the ARP cache, the
-- table of connections, what the clock and `rand()` say, and the frames sent. An operation is a function
-- of the monad `M`, and ends normally, with a thrown error, or with `fault`: what C++ leaves undefined,
-- such as a copy from outside an object. What was done before an error is kept. A pointer into a received
-- frame is the list of the bytes from there to the end of the object, apart from the `size` that the code
-- is told, and sizes wrap round as `size_t` does. Bit-fields lie as on x86-64.
--
--   Base, Base.Tests, Base.Lists   library names passed on, Boolean tests, lists
--   Text                           what the sources use of `std::stringstream` and, in Scan, `sscanf`
--   Words, Addr                    defs.h: `uint16_be`, `uint32_be`, addresses and subnets; Addr.Text:
--                                  `to_string` and `parse_string`
--   Dict                           association lists for the tables of the standard library
--   Checksum                       util/util.cpp: `checksum_16bit_be`. Fold: its closed form;
--                                  Reference: RFC 1071; Fill: a checksum field
--   Queue, RingBuffer              layers/L4/tcp/TCP.h: `RingBuffer`, and the queue it implements.
--                                  Abstract: buffers up to the bytes they hold
--   Memory                         reads through pointers
--   Net                            DNet.h, DNet.cpp, `DNET_ASSERT`; Net.Rules and Net.Advance: what one
--                                  frame can do to the state; Net.Ends: operations that end
--   L2                             layers/L2: `L2::send`, `L2::on_recv`
--   Arp                            layers/L2/arp: `ARP::on_recv`, `ARP::lookup`, the requests and answers
--   L3                             layers/L3: `L3::on_recv`, `L3::send`. Output: what is sent;
--                                  Accept: which headers are taken
--   Icmp                           layers/L3/icmp: `ICMP::on_recv`, `ICMP::send`
--   L4, Udp                        layers/L4: `L4::on_recv`, `UDP::on_recv`, `UDP::send`
--   Tcp                            layers/L4/tcp: `TCP::on_recv`. Handshake, Data, Stream, Runs,
--                                  Session, Isolation, Interleaved: its states, and the bytes that they
--                                  take; Acks, Replies: what it answers; Invariant, Safe: the table
--                                  between two frames
--   Dns                            layers/L7: `DNS::on_recv` and the macros that register records.
--                                  NameLaws: names; Answer, Sections, Total, Response: responses; Serve:
--                                  from a question to its answer; Table: the records of
--                                  layers/L7/DNSRecord.h; Table.Zone: what they answer
--   Layout                         the headers as they are written and read back. Inside: when they are
--                                  read; Behind: what follows them in memory
--   Layers                         every `on_recv` together; Ping, Datagrams, Question, Exchange: requests
--                                  from the frame that brings them to the frame that answers them;
--                                  Delivery: a packet from one stack to another. Effects: what the layers
--                                  below TCP do to the state; Carried, Elsewhere: frames with a segment
--                                  of a connection, and without
--   Sound                          the frames that are handled without undefined behaviour, from the
--                                  layers up to the loop. Traffic, Session: a connection among others
--   Os                             the system calls of the driver, and what may answer them
--   Driver                         driver/driver.cpp: `driver::do_listen`; Device: `init_dev`, `add_ip`,
--                                  `add_route`, and the thread; Read: `driver::read` and the array that
--                                  a round reads into
--   Boot                           DNet.cpp: the constructor. Laws: how it ends; Serve: when it succeeds,
--                                  and what the stack does after it
--   Hash                           defs.h, layers/L4/tcp/TCP.h: the hashes of keys; Buckets: look-ups by hash
--   Log                            util/util.cpp, util/util.h: texts in hexadecimal, and the `to_string` and
--                                  `operator<<` of the headers
--   Entry                          main.cpp
--   Tests                          runs on concrete frames
--
-- A send is a function of the bytes sent: a buffer and its length in the source are one list. The
-- tables of the standard library are association lists, whose order the program never depends on but
-- for records with equal keys. Among those the standard leaves the place of a new one open; it goes in
-- front, as libstdc++ has it. The clock and `rand()` are fields of the state, set anew for each frame,
-- since handling one frame reads each at most once. What a constructor leaves uninitialised is zero
-- where the code writes it before it reads it.
--
-- The operating system is a parameter, a `Kernel`: what each call returns may depend on every call before
-- it. The set-up of the device is a function from the calls made so far to its result and the calls made
-- then, so that what it asks for, and which descriptors it leaves open, can be stated. `inet_addr` and
-- `inet_pton` belong to that parameter as well. `sscanf` and `std::stringstream` are written out for the
-- formats that the program uses; a number that does not fit into its object is undefined.
--
-- Bounds. The loop over the labels of a name runs on fuel, `label_fuel`, 257 rounds: a round writes two
-- bytes or more into the 512 of `query_name`, so that after 256 only the end can follow. `max_len`, 128
-- KiB, bounds the buffers that are summed, so that the 32-bit accumulator of the checksum does not wrap;
-- no IPv4 packet is as long.
--
-- `digits` prints a number n on n + 1 rounds, each of which divides what is left by the radix.
--
-- A frame is well formed, in Sound, when every layer's header lies inside the size that the layer is told,
-- that size inside the memory, and no size falls below the header that is subtracted from it. A question
-- to the name server has at least one label, none of them empty, and leaves room in `response_buf` for
-- every record of the table. A type or a protocol without a layer may carry anything, and for ARP the
-- memory holds a message, whatever the size says.
--
-- Not modelled: `DNET_DEBUG` and `DNET_ERROR`, which only print; that the thread runs beside the caller of
-- the constructor, and that `main` destroys the `DNet` object under it; the seeding of `rand()`.
pub mod Base
pub mod Words
pub mod Dict
pub mod Text
pub mod Addr
pub mod Checksum
pub mod Queue
pub mod RingBuffer
pub mod Sound
pub mod Os
pub mod Memory
pub mod Net
pub mod L2
pub mod Arp
pub mod L3
pub mod Icmp
pub mod Tcp
pub mod L4
pub mod Udp
pub mod Dns
pub mod Hash
pub mod Driver
pub mod Layout
pub mod Layers
pub mod Boot
pub mod Log
pub mod Entry
mod Tests
