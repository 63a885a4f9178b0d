-- ===== src/Tests/Board.antt =====
-- A board whose pins are recorded, a library of bit arrays, and a USB bus with packets waiting.
use rust_dap.Base.{
  ℕ, zero, suc, length-append, ◌∙◌, ◌≤◌, Bool, false, List, [], ◌∷◌, ◌≡◌, refl, arith,
  length-overwrite, not_shorter→le, ◌++◌, length, overwrite, shorter, if◌then◌else◌, ok, err,
  Result,
}
use rust_dap.Transport.{DapConfig, DapIdentity, new_config}
use rust_dap.BitBang.Pins.{Pins, Pin}
use rust_dap.BitBang.Jtag.{BitArray}
use rust_dap.BitBang.Swd.{SwdBits}
use rust_dap.BitBang.Transports.{new_swd}
use rust_dap.BitBang.Chain.{IsShift}
use rust_dap.Usb.Buffers.{IsLawfulBus}
use rust_dap.Base.Hoare.{Post}
use rust_dap.Usb.Device.{UsbBus, UsbError, would_block}

-- The levels that the pins will read, and those that were written.
pub record Board : Type 0 where
  pub levels : List Bool
  pub log : List (Pin × Bool)

abbrev read_level : List Bool → Bool × List Bool
read_level [] = (false, [])
read_level (level ∷ levels) = (level, levels)

instance abbrev pub board_pins : Pins Board
board_pins = record {
  set_mode_output = λ pin level b. b;
  set_mode_input = λ pin b. b;
  write = λ pin level b. record b { log = (pin, level) ∷ b.log };
  read =
      λ pin b. let (level, levels) = read_level b.levels in (level, record b { levels = levels });
  delay_cycles = λ n b. b;
}

-- Towards the start of the list, with zeros behind.
abbrev shift_one : List Bool → List Bool
shift_one [] = []
shift_one (bit ∷ bits) = bits ++ false ∷ []

abbrev shifted : ℕ → List Bool → List Bool
shifted zero bits = bits
shifted (suc n) bits = shifted n (shift_one bits)

length-shift_one : (bits : List Bool) → length (shift_one bits) ≡ length bits
length-shift_one [] = refl
length-shift_one (bit ∷ bits) = omega (arith, length-append bits (false ∷ []))

length-shifted : (n : ℕ) (bits : List Bool) → length (shifted n bits) ≡ length bits
length-shifted zero bits = refl
length-shifted (suc n) bits = length-shifted n (shift_one bits) ∙ length-shift_one bits

instance abbrev pub bit_array : BitArray
bit_array = record { shift_start = shifted }

pub bit_array-IsShift : IsShift bit_array
bit_array-IsShift = record { shift_length = length-shifted }

abbrev pub identity : DapIdentity
identity = record {
  vendor = 0x41 ∷ [];
  product = 0x42 ∷ [];
  serial_number = 0x43 ∷ [];
  firmware_version = 0x44 ∷ [];
  product_firmware_version = 0x45 ∷ [];
  packet_count = 1;
}

abbrev pub config : DapConfig
config = new_config identity 125_000_000

abbrev pub with_levels : List Bool → SwdBits Board
with_levels levels = new_swd (record { levels = levels; log = [] })

-- Packets from the host, the next one first, and those that were sent to it, the last one first.
pub record Host : Type 0 where
  pub incoming : List (List ℕ)
  pub outgoing : List (List ℕ)

abbrev receive : List (List ℕ) → List (List ℕ) → List ℕ → Result UsbError ℕ × (Host × List ℕ)
receive [] outgoing buffer =
    (err would_block, (record { incoming = []; outgoing = outgoing }, buffer))
receive (packet ∷ incoming) outgoing buffer =
    if shorter buffer (length packet)
    then (err would_block, (record { incoming = incoming; outgoing = outgoing }, buffer))
    else (
      ok (length packet),
      (record { incoming = incoming; outgoing = outgoing }, overwrite 0 packet buffer),
    )

instance abbrev pub host_bus : UsbBus Host
host_bus = record {
  write_packet = λ packet h. (ok (length packet), record h { outgoing = packet ∷ h.outgoing });
  read_packet = λ x. receive x.0.incoming x.0.outgoing x.1;
}

length-receive :
    (incoming outgoing : List (List ℕ)) (buffer : List ℕ)
    → length (receive incoming outgoing buffer).1.1 ≡ length buffer
length-receive [] outgoing buffer = refl
length-receive (packet ∷ incoming) outgoing buffer =
    ground (arith, length-overwrite 0 packet buffer)

receive_fits :
    (incoming outgoing : List (List ℕ)) (buffer : List ℕ)
    → Post (λ s. Unit) (λ n s. n ≤ length buffer) (receive incoming outgoing buffer)
receive_fits [] outgoing buffer = tt
receive_fits (packet ∷ incoming) outgoing buffer =
    ground (arith, not_shorter→le buffer (length packet))

pub host_bus-IsLawful : IsLawfulBus host_bus
host_bus-IsLawful = record {
  read_length = λ h buffer. length-receive h.incoming h.outgoing buffer;
  read_fits = λ h buffer. receive_fits h.incoming h.outgoing buffer;
}
