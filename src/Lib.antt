-- ===== src/Lib.antt =====
-- A user-space network stack in C: devices and their drivers, ARP, IPv4, ICMP, UDP, and sockets.
--
-- A driver hands a frame, by way of `ether_poll_helper` (src/lib/ether.c), to `network_input_handler`
-- (src/lib/net.c), which queues its payload for the protocol of its type; the software interrupt takes
-- the packets from the queues to `arp_input` (src/lib/arp.c) and to `ip_input` (src/lib/ip.c), and the
-- latter hands its payload to `icmp_input` (src/lib/icmp.c) or to `udp_input` (src/lib/udp.c), which
-- queues datagrams for the readers. The other way, `udp_sendto` and `icmp_output` call `ip_send_packet`,
-- which finds the route, asks `arp_resolve` for the hardware address and gives the packet to
-- `network_device_output`.
--
-- The files, with paths from the repository's root:
--   Util.Endian, Util.Packed, Util.Checksum   byte order, packed structures and `cksum16` of src/lib/util.c
--   Util.Queue     the linked queue of src/lib/util.c on a heap of cells
--   Util.Hexdump   its `hexdump`
--   Net            devices and interfaces of src/lib/net.c; Net.Protocol: its protocol table and input queues;
--                  Net.Timer: its timers and events
--   Arp            src/lib/arp.c: the cache, the messages, input and resolution; Arp.Cache.Book and
--                  Arp.Cache.Refine: the cache as a map, without the places of its entries
--   Ip             src/lib/ip.c: text forms, routes and interfaces, packets
--   Icmp           src/lib/icmp.c
--   Sched          handler/synchronize.c: the contexts that blocking calls sleep on; Sched.Threads: the
--                  threads that call it, as steps in any order
--   Udp            src/lib/udp.c: control blocks, datagrams, the calls of the user
--   Ether          src/lib/ether.c and device/loopback.c
--   Intr           handler/interrupt.c: the table of interrupt handlers and what a signal calls
--   Driver         handler/tap.c and handler/pcap.c: file descriptors, the interrupt handlers, the devices
--   Stack          the state of all of these together: what `transmit` and the handlers in the tables do,
--                  the software interrupt, the start and the stop, one round of the interrupt thread,
--                  the runs of the stack, and an echo request from its frame to the reply's
--   Sock           src/lib/sock.c
--   App            apps/udp_app.c: the setup and a round of the echo server; App.Main: its `main`
--   Dump           the text that `icmp_dump`, `arp_dump`, `ether_dump` and `udp_dump` of src/lib write
--   Base, Tests    shared helpers; runs at concrete inputs
--
-- State is passed explicitly: a table is a list and an entry is named by its place, a pointer to a device is
-- its index, the linked queue lives on a heap, and everywhere else a queue is the list that it is refined to.
-- What a critical section does is one function, and a call that waits is cut in two at the wait; threads
-- interleave as sequences of such steps. In Stack.Sound.Reached a round of the interrupt thread and a call of
-- `udp_sendto` are each a single step, though src/lib/arp.c gives the mutex up inside of them; what can then come
-- in between is shown in Arp.Resolve.Race. A number of w bits is a native number with its wrap-around written
-- out, and bytes in memory are lists. The byte order of the machine, the driver, the time, the success of an
-- allocation and the results of the threads library are arguments.
--
-- The loop of `cksum16` on the carries runs on fuel, and three rounds are enough for a sum of 32 bits; the
-- walk over a queue and the draining of the protocols' queues run on fuel, and one round more than the packets
-- that wait is enough where no device is a loopback, as are two rounds for a datagram through that device.
-- Every other loop is a structural recursion.
--
-- Not modelled: the log, `ip_dump` and the names of protocols that it prints, which write text; the other
-- applications, whose sockets are the operating system's; and the mutexes, since what is done under one
-- is a single step; and reading beyond the end of a buffer, where `ip_input` hands on a length that is greater
-- than the packet's: the model then sees the packet to its end. The calls of the operating system are parameters: what they return is an argument.
pub mod Base
pub mod Util
pub mod Net
pub mod Ip
pub mod Arp
pub mod Sched
pub mod Icmp
pub mod Sock
pub mod Ether
pub mod Intr
pub mod Udp
pub mod Driver
pub mod Dump
pub mod Stack
pub mod App
pub mod Tests
