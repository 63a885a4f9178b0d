-- ===== src/BitBang/Lawful.antt =====
-- The three transports obey the interface (rust-dap/src/bitbang.rs).
use rust_dap.Base.{refl, ◌>>=◌}
use rust_dap.Transport.{IsLawful}
use rust_dap.BitBang.Pins.{Pins}
use rust_dap.BitBang.Jtag.{BitArray}
use rust_dap.BitBang.Reads.{read_bits-length}
use rust_dap.BitBang.Transports.{swd_transport, jtag_transport}
use rust_dap.BitBang.Combined.{swj_transport, swd_read_bits}
use rust_dap.Transport.{unsupported}

module _ {W : Type 0} ⦃p : Pins W⦄ where
  pub swd_transport-IsLawful : IsLawful (swd_transport {W = W})
  unfolding swd_transport
  swd_transport-IsLawful = record {
    read_bits_length = λ config count s buffer. read_bits-length config count s buffer;
  }

module _ {W : Type 0} ⦃p : Pins W⦄ ⦃v : BitArray⦄ where
  pub jtag_transport-IsLawful : IsLawful (jtag_transport {W = W})
  unfolding jtag_transport unsupported ◌>>=◌
  jtag_transport-IsLawful = record { read_bits_length = λ config count s buffer. refl }

  pub swj_transport-IsLawful : IsLawful (swj_transport {W = W})
  unfolding swj_transport swd_read_bits
  swj_transport-IsLawful = record {
    read_bits_length = λ config count s buffer. read_bits-length config count s.pins buffer;
  }
