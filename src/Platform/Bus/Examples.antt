-- ===== src/Platform/Bus/Examples.antt =====
-- The bus on concrete inputs.
use systemscope.Base.{ok, err, ◌≡◌, ◌↔◌, refl, true, false, none, some, [], ◌∷◌, arith}
use systemscope.Rv32i.Memory.{MemMsg, WriteOutcome}
use systemscope.Rv32i.Cpu.State.{MemReq}
use systemscope.Platform.Ram.Examples.{blank, blank-IsRam, checked, checked-AccessLaws}
use systemscope.Platform.Bus.{
  Region, AddressBus, BusFault, BusEvent, failed, route, bus_event, bus_response,
}
use systemscope.Platform.Bus.New.{BusConfigError, has_name, bus_new}
use systemscope.Platform.Bus.New.Built.{IsBuilt, bus_new-IsBuilt}
use systemscope.Platform.Bus.New.Routes.{Spans, route-bus_new}
use systemscope.Platform.Bus.Relay.{IsAnswered, bus_event-IsAnswered}

abbrev device : Region
device = record { name = "uart"; base = 0x100; size = 0x10 }

abbrev memory : Region
memory = record { name = "ram"; base = 0x1000; size = 0x2000 }

abbrev idle : AddressBus
idle = record { regions = device ∷ memory ∷ []; outstanding = [] }

bus_new-IsBuilt_example : (bus_new idle.regions ≡ ok idle) ↔ IsBuilt idle.regions idle
bus_new-IsBuilt_example = bus_new-IsBuilt idle.regions idle

idle_built : bus_new idle.regions ≡ ok idle
unfolding bus_new has_name
idle_built = refl

-- Two regions with one byte in common.
overlapping :
    bus_new (device ∷ record memory { base = 0x10f } ∷ [])
    ≡ err (BusConfigError.overlap "uart" "ram")
unfolding bus_new has_name
overlapping = refl

route-bus_new_example :
    (route idle.regions 0x1ffe 0x2001 ≡ some (1, memory))
    ↔ Spans idle.regions 0x1ffe 0x2001 1 memory
route-bus_new_example = route-bus_new idle.regions idle 0x1ffe 0x2001 1 memory idle_built

past_the_device : route idle.regions 0x10e 0x111 ≡ none
unfolding route
past_the_device = refl

bus_event-IsAnswered_example :
    IsAnswered checked (λ m. false) (λ m. false) (λ i. blank) idle 7 (MemReq.read 0x1ffe 4)
bus_event-IsAnswered_example =
    bus_event-IsAnswered checked (λ m. false) (λ m. false) (λ i. blank) idle 7
      (MemReq.read 0x1ffe 4) checked-AccessLaws (λ m. refl) (λ m. refl)
      (λ i. (omega arith, blank-IsRam)) tt (omega arith) refl

-- A response that no request waits for.
answered_twice :
    bus_event checked
      (λ m. false)
      true
      idle
      (BusEvent.on_region 1 7 (MemMsg.write_resp WriteOutcome.done))
    ≡ failed idle BusFault.unknown_txn
unfolding bus_event bus_response
answered_twice = refl
