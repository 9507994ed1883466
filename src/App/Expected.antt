-- ===== src/App/Expected.antt =====
-- The static variables, a machine on which every call succeeds, and what `setup` of apps/udp_app.c makes of
-- the constants of src/include/params.h there.
use llnstack.Base.{ℕ, Bool, true, false, List, [], ◌∷◌, bit_and, replicate}
use llnstack.Util.Endian.{Host, little, big}
use llnstack.Net.{Interface, Device}
use llnstack.Net.Timer.{Timeval}
use llnstack.Arp.Cache.{empty_caches}
use llnstack.Udp.Pcb.{empty_pcbs}
use llnstack.Ip.Route.{Route, new_interface}
use llnstack.Stack.{Stack}
use llnstack.Stack.Start.{Opens}
use llnstack.Driver.Init.{ethernet_with}
use llnstack.App.{Machine}

-- The static variables when the program starts; `os` is the system behind the file descriptors.
abbrev pub static_storage : {O : Type 0} → O → Stack O
static_storage os = record {
  devices = record { devices = []; next_index = 0 };
  ip_protocols = [];
  timers = [];
  events = [];
  tables = record { ifaces = []; routes = [] };
  sending = record {
    next_id = 128;
    caches = empty_caches;
    driver = record { protocols = []; pending = false; os = os };
  };
  pcbs = empty_pcbs;
  irqs = record { irq_vec = []; sigmask = [] };
}

-- A machine on which every call succeeds, but perhaps those whose failure is not looked at.
abbrev pub generous : Host → Bool → Bool → ℕ → Timeval → Opens → Machine
generous h event irq sigrtmin now drive = record {
  host = h;
  network = record {
    arp = true;
    arp_timer = true;
    ip = true;
    icmp = true;
    udp = true;
    udp_event = event;
  };
  tap = record { device = true; priv = true; irq = irq };
  iface = true;
  route = true;
  gateway = true;
  sigrtmin = sigrtmin;
  now = now;
  masked = 0;
  created = 0;
  drive = drive;
}

-- 192.0.2.2, 255.255.255.0 and 192.0.2.1 as the host reads them.
abbrev pub own : Host → ℕ
own little = 33685696
own big = 3221225986

abbrev pub mask : Host → ℕ
mask little = 16777215
mask big = 4294967040

abbrev pub gateway : Host → ℕ
gateway little = 16908480
gateway big = 3221225985

abbrev pub interface_of : Host → Interface
interface_of h = new_interface (own h) (mask h)

-- 00:00:5e:00:53:01 in the array of the device.
abbrev pub hw_addr : List ℕ
hw_addr = 0 ∷ 0 ∷ 94 ∷ 0 ∷ 83 ∷ 1 ∷ replicate 10 0

abbrev pub tap_device : Host → Device
tap_device h = record (ethernet_with 0 hw_addr) { interfaces = interface_of h ∷ [] }

abbrev pub both_routes : Host → List Route
both_routes h =
    record { network = 0; netmask = 0; nexthop = gateway h; iface = interface_of h }
    ∷ record {
      network = bit_and (own h) (mask h);
      netmask = mask h;
      nexthop = 0;
      iface = interface_of h;
    }
    ∷ []
