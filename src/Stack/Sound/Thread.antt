-- ===== src/Stack/Sound/Thread.antt =====
-- Each round of the interrupt thread keeps the state of the stack sound.
use llnstack.Base.{ℕ, Bool, Option, none, some, List, [], ◌∷◌, ◌==◌, length, ltb, not, kept_if}
use llnstack.Util.Endian.{Host}
use llnstack.Net.{Status, Device}
use llnstack.Net.Protocol.{Protocol}
use llnstack.Net.Timer.{Timer, interval_lt_diff, network_timer_handler, network_event_handler}
use llnstack.Arp.Cache.Distinct.{arp_timer-Distinct}
use llnstack.Udp.User.Receive.{event-IsValid}
use llnstack.Ether.{ether_hdr_size, is_for, ether_poll_helper}
use llnstack.Driver.{Poll, interrupted, failed, idle, ready, ether_read, ether_isr}
use llnstack.Driver.Tap.{ether_tap_isr}
use llnstack.Driver.Pcap.{ether_pcap_isr}
use llnstack.Intr.{IrqEntry, sigusr1, sigusr2, sigalrm, call_irq, intr_dispatch}
use llnstack.Stack.{
  ProtocolHandler, IrqHandler, tap_isr, pcap_isr, TimerHandler, arp_timer_handler, EventHandler,
  udp_event_handler, Env, Stack, device_at, call_timer, timer_interrupt, call_event,
  event_interrupt,
}
use llnstack.Stack.Signals.{after_isr, call_isr, on_protocol, intr_thread}
use llnstack.Stack.Sound.{IsTable, IsSound, IsSoundIfSome}
use llnstack.Stack.Sound.Handlers.{input-IsTable, soft_interrupt-IsSound}

poll-IsTable :
    (h : Host) (alloc alloc_link : Bool) (dev : Device) (bytes : Option (List ℕ))
    (protocols : List (Protocol ProtocolHandler))
    → IsTable protocols
    → IsTable (ether_poll_helper h alloc alloc_link dev bytes protocols).1
unfolding ether_poll_helper
poll-IsTable h alloc alloc_link dev none protocols t = t
poll-IsTable h alloc alloc_link dev (some frame) protocols t =
    kept_if After (ltb (length frame) ether_hdr_size) _ _ t (
      kept_if After (not (is_for dev frame)) _ _ t
        (input-IsTable alloc alloc_link _ _ dev.index protocols t))
  where
    After : Status × List (Protocol ProtocolHandler) × Bool → Type 0
    After r = IsTable r.1

isr-IsTable :
    (h : Host) (alloc alloc_link : Bool) (dev : Device) (polls : List Poll)
    (protocols : List (Protocol ProtocolHandler)) (raised : Bool)
    → IsTable protocols
    → IsTable (ether_isr h alloc alloc_link dev polls (protocols, raised)).1
unfolding ether_isr
isr-IsTable h alloc alloc_link dev [] protocols raised t = t
isr-IsTable h alloc alloc_link dev (interrupted ∷ polls) protocols raised t =
    isr-IsTable h alloc alloc_link dev polls protocols raised t
isr-IsTable h alloc alloc_link dev (failed ∷ polls) protocols raised t = t
isr-IsTable h alloc alloc_link dev (idle ∷ polls) protocols raised t = t
isr-IsTable h alloc alloc_link dev (ready bytes ∷ polls) protocols raised t =
    isr-IsTable h alloc alloc_link dev polls _ _
      (poll-IsTable h alloc alloc_link dev (ether_read bytes) protocols t)

module _ {O : Type 0} (env : Env O) where
  called : (handler : TimerHandler) (s : Stack O) → IsSound s → IsSound (call_timer env handler s)
  called arp_timer_handler s v = record {
    caches = arp_timer-Distinct env.now s.sending.caches v.caches;
    pcbs = v.pcbs;
    irqs = v.irqs;
    protocols = v.protocols;
  }

  timers-IsSound :
      (timers : List (Timer TimerHandler)) (s : Stack O)
      → IsSound s
      → IsSound (network_timer_handler (λ st. env.now) (call_timer env) timers s).1
  unfolding network_timer_handler
  timers-IsSound [] s v = v
  timers-IsSound (timer ∷ rest) s v = timers-IsSound rest _ (
      kept_if (IsSound {O = O}) (interval_lt_diff timer.interval env.now timer.last) _ _
        (called timer.handler s v) v)

  events-IsSound :
      (events : List EventHandler) (s : Stack O)
      → IsSound s
      → IsSound (network_event_handler (call_event env) events s)
  unfolding network_event_handler
  events-IsSound [] s v = v
  events-IsSound (udp_event_handler ∷ rest) s v =
      events-IsSound rest (call_event env udp_event_handler s) (record {
        caches = v.caches;
        pcbs = event-IsValid s.pcbs v.pcbs;
        irqs = v.irqs;
        protocols = v.protocols;
      })

  pub timer_interrupt-IsSound : (s : Stack O) → IsSound s → IsSound (timer_interrupt env s)
  unfolding timer_interrupt
  timer_interrupt-IsSound s v =
      let w = timers-IsSound s.timers s v in
      record { caches = w.caches; pcbs = w.pcbs; irqs = w.irqs; protocols = w.protocols }

  module _ (fuel : ℕ) (polls : ℕ → List Poll) where
    after_isr-IsSound :
        (s : Stack O) (r : Option Status × List (Protocol ProtocolHandler) × Bool)
        → IsSound s
        → IsTable r.1
        → IsSoundIfSome (after_isr env fuel polls s r)
    unfolding after_isr
    after_isr-IsSound s (none, protocols, raised) v t = tt
    after_isr-IsSound s (some status, protocols, raised) v t = record {
      caches = v.caches;
      pcbs = v.pcbs;
      irqs = v.irqs;
      protocols = t;
    }

    call_isr-IsSound :
        (handler : IrqHandler) (irq dev : ℕ) (s : Option (Stack O))
        → IsSoundIfSome s
        → IsSoundIfSome (call_isr env fuel polls handler irq dev s)
    unfolding call_isr ether_tap_isr ether_pcap_isr
    call_isr-IsSound tap_isr irq dev none v = tt
    call_isr-IsSound tap_isr irq dev (some s) v = after_isr-IsSound s _ v (
        isr-IsTable env.host env.alloc env.alloc_link (device_at s.devices.devices dev) (polls dev)
          s.sending.driver.protocols s.sending.driver.pending v.protocols)
    call_isr-IsSound pcap_isr irq dev none v = tt
    call_isr-IsSound pcap_isr irq dev (some s) v = after_isr-IsSound s _ v (
        isr-IsTable env.host env.alloc env.alloc_link (device_at s.devices.devices dev) (polls dev)
          s.sending.driver.protocols s.sending.driver.pending v.protocols)

    call_irq-IsSound :
        (sig : ℕ) (entries : List (IrqEntry IrqHandler)) (s : Option (Stack O))
        → IsSoundIfSome s
        → IsSoundIfSome (call_irq (call_isr env fuel polls) sig entries s)
    unfolding call_irq
    call_irq-IsSound sig [] s v = v
    call_irq-IsSound sig (entry ∷ rest) s v = call_irq-IsSound sig rest _ (
        kept_if IsSoundIfSome (entry.irq == sig) _ _
          (call_isr-IsSound entry.handler entry.irq entry.dev s v) v)

    pub intr_thread-IsSound :
        (sig : ℕ) (s : Stack O) → IsSound s → IsSoundIfSome (intr_thread env fuel polls sig s)
    unfolding intr_thread intr_dispatch on_protocol event_interrupt
    intr_thread-IsSound sig s v =
        kept_if IsSoundIfSome (sig == sigusr1) _ _
          (soft_interrupt-IsSound env fuel _
            (record { caches = v.caches; pcbs = v.pcbs; irqs = v.irqs; protocols = v.protocols }))
          (kept_if IsSoundIfSome (sig == sigusr2) _ _ (events-IsSound s.events s v) (
            kept_if IsSoundIfSome (sig == sigalrm) _ _ (timer_interrupt-IsSound s v)
              (call_irq-IsSound sig s.irqs.irq_vec (some s) v)))
