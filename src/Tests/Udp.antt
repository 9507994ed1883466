-- ===== src/Tests/Udp.antt =====
-- The theorems on src/lib/udp.c at concrete inputs.
use llnstack.Base.{
  ℕ, ◌+◌, ◌≡◌, ◌≢◌, refl, ap, true, false, List, [], ◌∷◌, ◌++◌, take, min, length, arith,
}
use llnstack.Util.Endian.{little}
use llnstack.Util.Checksum.{cksum16, fold_carries, add_words}
use llnstack.Ip.Text.{Endpoint}
use llnstack.Udp.Pcb.{UdpPcb, open_, blank, empty_pcbs, udp_pcb_select, select_from}
use llnstack.Udp.Datagram.{pseudo_sum, udp_message, udp_input, bad_datagram, datagram_of}
use llnstack.Udp.Datagram.RoundTrip.{delivered, udp_input-udp_message}
use llnstack.Udp.User.{udp_open, udp_bind, received, recv_start}
use llnstack.Udp.User.Steps.{Reached, start, next, opens, binds}
use llnstack.Udp.User.Delivery.{input_receive}

abbrev greeting : List ℕ
greeting = 104 ∷ 105 ∷ []

abbrev client : Endpoint
client = record { address = 151126208; port = 40963 }

abbrev server : Endpoint
server = record { address = 33685696; port = 1792 }

-- One block, bound to the server's port at any address.
abbrev bound : UdpPcb
bound = record blank { state = open_; local = record { address = 0; port = 1792 } }

abbrev pcbs : List UdpPcb
pcbs = blank ∷ bound ∷ []

udp_input-udp_message_example :
    udp_input little true true
      (udp_message little client server greeting ++ (0 ∷ []))
      10
      client.address
      server.address
      pcbs
    ≡ delivered
        (udp_pcb_select server.address server.port pcbs)
        (record { foreign = client; bytes = greeting })
        pcbs
udp_input-udp_message_example =
    udp_input-udp_message little client server greeting (omega arith) (omega arith)
      (omega arith, (omega arith, tt)) (omega arith) (0 ∷ []) pcbs

-- A run that opens a block and binds it.
abbrev opened : List UdpPcb
opened = (udp_open empty_pcbs).1

abbrev run : Reached (udp_bind 0 server opened).1
run =
    next opened (udp_bind 0 server opened).1 (next empty_pcbs opened start (opens empty_pcbs))
      (binds 0 server opened)

-- The message "hi" from the client to the server.
abbrev message : List ℕ
message = 3 ∷ 160 ∷ 0 ∷ 7 ∷ 0 ∷ 10 ∷ 15 ∷ 190 ∷ 104 ∷ 105 ∷ []

message_built : udp_message little client server greeting ≡ message
unfolding udp_message cksum16 fold_carries add_words pseudo_sum
message_built = refl

message_good : bad_datagram little message 10 client.address server.address ≡ false
unfolding cksum16 fold_carries add_words pseudo_sum
message_good = refl

input_receive_example :
    let d = datagram_of little message 10 client.address in
    recv_start 1 1 (udp_input little true true message 10 client.address server.address pcbs)
    ≡ (received d.foreign (take (min 1 (length d.bytes)) d.bytes), pcbs)
unfolding udp_pcb_select select_from
input_receive_example =
    input_receive little message 10 client.address server.address 1 1 bound pcbs message_good refl
      refl

queued : List UdpPcb → ℕ
queued [] = 0
queued (x ∷ rest) = length x.queue + queued rest

message_changes : udp_input little true true message 10 client.address server.address pcbs ≢ pcbs
unfolding udp_input cksum16 fold_carries add_words pseudo_sum udp_pcb_select select_from queued
message_changes e = absurd (omega (arith, ap queued e))
