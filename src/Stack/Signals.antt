-- ===== src/Stack/Signals.antt =====
-- The interrupt thread of handler/interrupt.c on the whole stack: one round of its loop.
use llnstack.Base.{ℕ, Bool, false, Option, none, some, List}
use llnstack.Net.Protocol.{Protocol}
use llnstack.Intr.{intr_dispatch}
use llnstack.Net.{Status}
use llnstack.Driver.{Poll}
use llnstack.Driver.Tap.{ether_tap_isr}
use llnstack.Driver.Pcap.{ether_pcap_isr}
use llnstack.Stack.{
  IrqHandler, tap_isr, pcap_isr, ProtocolHandler, Env, Stack, device_at, soft_interrupt,
  timer_interrupt, event_interrupt,
}

module _ {O : Type 0} (env : Env O) (fuel : ℕ) (polls : ℕ → List Poll) where
  -- What `poll` reports is given for each device; `none` while the handler does not end.
  unfoldable pub after_isr :
      Stack O → Option Status × List (Protocol ProtocolHandler) × Bool → Option (Stack O)
  after_isr s (none, protocols, raised) = none
  after_isr s (some r, protocols, raised) = some (record s {
    sending = record s.sending {
      driver = record s.sending.driver { protocols = protocols; pending = raised };
    };
  })

  unfoldable pub call_isr : IrqHandler → ℕ → ℕ → Option (Stack O) → Option (Stack O)
  call_isr handler irq dev none = none
  call_isr tap_isr irq dev (some s) = after_isr s (
      ether_tap_isr env.host env.alloc env.alloc_link (device_at s.devices.devices dev) (polls dev)
        (s.sending.driver.protocols, s.sending.driver.pending))
  call_isr pcap_isr irq dev (some s) = after_isr s (
      ether_pcap_isr env.host env.alloc env.alloc_link (device_at s.devices.devices dev) (polls dev)
        (s.sending.driver.protocols, s.sending.driver.pending))

  -- `sigwait` has taken the signal, so the software interrupt is no longer pending.
  unfoldable pub on_protocol : Option (Stack O) → Option (Stack O)
  on_protocol none = none
  on_protocol (some s) = soft_interrupt env fuel (record s {
    sending = record s.sending { driver = record s.sending.driver { pending = false } };
  })

  abbrev pub on_stack : (Stack O → Stack O) → Option (Stack O) → Option (Stack O)
  on_stack f none = none
  on_stack f (some s) = some (f s)

  -- `none` means that a handler has not ended.
  unfoldable pub intr_thread : ℕ → Stack O → Option (Stack O)
  intr_thread sig s =
      intr_dispatch call_isr on_protocol (on_stack (event_interrupt env))
        (on_stack (timer_interrupt env)) sig s.irqs (some s)
