-- ===== src/Stack/Written.antt =====
-- A packet whose next hop has a known hardware address, from `network_device_output` to the frame that the driver
-- of an Ethernet writes.
use llnstack.Base.{
  ℕ, ◌≤◌, ◌≡◌, sym, ap, true, false, List, ◌++◌, length, take, take-append, take_all, replicate,
  ltb, arith,
}
use llnstack.Util.Endian.{Host, store16, hton16}
use llnstack.Util.Packed.{copy_into}
use llnstack.Net.{
  Device, is_up, network_device_type_ethernet, network_protocol_type_ip, network_device_output,
}
use llnstack.Arp.Cache.{ether_addr_len}
use llnstack.Ip.Packet.{network_device_addr_len}
use llnstack.Ether.{ether_frame, ether_transmit_helper, padded}
use llnstack.Stack.{Wire, Env, put_frame, transmit}

-- The first address_len bytes of what `arp_resolve` copied are the hardware address.
copied :
    (ha : List ℕ)
    → length ha ≡ 6
    → let known = take ether_addr_len ha in
      take ether_addr_len (copy_into (replicate network_device_addr_len 0) known (length known))
      ≡ take ether_addr_len ha
copied ha e =
    let all : take ether_addr_len ha ≡ ha = take_all 6 ha (omega (arith, e)) in
    rw (all, e, all) (take-append ha (replicate 10 0) 6 (sym e))

frame_copied :
    (h : Host) (packet ha address : List ℕ)
    → length ha ≡ 6
    → let known = take ether_addr_len ha in
      ether_frame h network_protocol_type_ip packet
        (copy_into (replicate network_device_addr_len 0) known (length known))
        address
      ≡ ether_frame h network_protocol_type_ip packet ha address
unfolding ether_frame
frame_copied h packet ha address e =
    ap
      (λ t.
        ((t ++ take ether_addr_len address) ++ store16 h (hton16 h network_protocol_type_ip))
        ++ padded packet)
      (copied ha e)

module _ {O : Type 0} (env : Env O) where
  -- A device that is up, for a packet that fits its MTU.
  pub output_written :
      (dev : Device) (packet ha : List ℕ) (w : Wire O)
      → dev.type ≡ network_device_type_ethernet
      → is_up dev ≡ true
      → length packet ≤ dev.mtu
      → length ha ≡ 6
      → let known = take ether_addr_len ha in
        (network_device_output
          (transmit env)
          dev
          network_protocol_type_ip
          packet
          (copy_into (replicate network_device_addr_len 0) known (length known))
          w).1
        ≡ record w {
          os =
              (env.write dev.index
                (ether_frame env.host network_protocol_type_ip packet ha dev.address)
                w.os).1;
        }
  unfolding network_device_output transmit put_frame ether_transmit_helper
  output_written dev packet ha w t u m l =
      let small : ltb dev.mtu (length packet) ≡ false = ground arith in
      rw (u, small, t, network_device_output, transmit)
        (ap (λ frame. record w { os = (env.write dev.index frame w.os).1 })
          (frame_copied env.host packet ha dev.address l))
