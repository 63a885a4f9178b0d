-- ===== src/Gdb/Access/Registers.antt =====
-- Registers that GDB writes and reads (boards/rpi_pico/src/bin/gdb_server.rs).
use rust_dap.Base.{ℕ, ◌≡◌, refl, ap, Bool, true, if◌then◌else◌, map, ok, ◌>>=◌, arith}
use rust_dap.Transport.{DapTransport}
use rust_dap.Arm.Port.{ArmDebug}
use rust_dap.Arm.Target.{Bus, Target, IsTarget, Holds}
use rust_dap.Arm.Core.Registers.{IsCore}
use rust_dap.Arm.Call.Saved.{is_among, read_regs-ok, write_regs-ok}
use rust_dap.Gdb.Family.{Family, rp2040, nrf52, nrf54}
use rust_dap.Gdb.Family.Rp2040
use rust_dap.Gdb.Session.{select_on, as_rp2040}
use rust_dap.Gdb.Session.Control.{RpTarget, select_core}
use rust_dap.Gdb.Access.{tid_core, gdb_regs, read_registers, write_registers}

-- The link addresses the core already; a part with one core always does.
abbrev pub addresses : Family → ℕ → Bool
addresses (rp2040 s) core = Rp2040.is_core s.cur_core core
addresses (nrf52 s) core = true
addresses nrf54 core = true

module _ {T : Type 0} ⦃t : DapTransport T⦄ where
  select_on-addresses :
      (core : ℕ) (f : Family) (a : ArmDebug T)
      → addresses f core ≡ true
      → select_on core f (record { state = f; link = a }) ≡ (ok tt, record { state = f; link = a })
  unfolding select_on Rp2040.select_core as_rp2040 ◌>>=◌
  select_on-addresses core (rp2040 s) a h = ground (arith, h)
  select_on-addresses core (nrf52 s) a h = refl
  select_on-addresses core nrf54 a h = refl

  select_core-addresses :
      (core : ℕ) (x : RpTarget T)
      → addresses x.linked.state core ≡ true
      → select_core core x ≡ (ok tt, x)
  unfolding select_core ◌>>=◌
  select_core-addresses core x h =
      ap (λ r. (r.0, record x { linked = r.1 }))
        (select_on-addresses core x.linked.state x.linked.link h)

abbrev with_link : {T : Type 0} → ArmDebug T → RpTarget T → RpTarget T
with_link a x = record x { linked = record x.linked { link = a } }

-- Functions that agree on the registers of GDB have the same values there.
map-gdb_regs :
    (f g rest : ℕ → ℕ)
    → ((j : ℕ) → f j ≡ (if is_among gdb_regs j then g j else rest j))
    → map f gdb_regs ≡ map g gdb_regs
map-gdb_regs f g rest k =
    cc (k 0, k 1, k 2, k 3, k 4, k 5, k 6, k 7, k 8, k 9, k 10, k 11, k 12, k 13, k 14, k 15, k 16)

module _ {T B : Type 0} ⦃t : DapTransport T⦄ ⦃u : Bus B⦄ (view : T → Target B) (h : IsTarget view t)
    (regs : B → ℕ → ℕ) (halted : B → Bool) (c : IsCore regs halted) where
  -- On a target whose core is halted, and is the one that the link addresses: write_registers with a
  -- value for each register answers Ok, and read_registers behind it answers Ok with those values.
  pub read_registers-write :
      (f : ℕ → ℕ) (tid : ℕ) (x : RpTarget T) (b : B)
      → addresses x.linked.state (tid_core tid) ≡ true
      → halted b ≡ true
      → Holds view x.linked.link b
      → (x1 x2 : RpTarget T) × (write_registers (map f gdb_regs) tid x ≡ (ok tt, x1))
        × (read_registers tid x1 ≡ (ok (map f gdb_regs), x2))
  unfolding write_registers read_registers ◌>>=◌
  read_registers-write f tid x b here stopped held =
      let (a1, b1, e1, held1, k1, s1) =
        write_regs-ok view h regs halted c f gdb_regs x.linked.link b refl stopped held in
      let (a2, b2, e2, held2, k2, s2) =
        read_regs-ok view h regs halted c gdb_regs a1 b1 refl s1 held1 in
      let x1 = with_link a1 x in
      let s1 = select_core-addresses (tid_core tid) x here in
      let s2 = select_core-addresses (tid_core tid) x1 here in
      let same = map-gdb_regs (regs b1) f (regs b) k1 in
      (x1, with_link a2 x, ground (arith, s1, e1), ground (arith, s2, e2, same))
