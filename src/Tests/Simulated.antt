-- ===== src/Tests/Simulated.antt =====
-- A target in front of a bus, kept as the state of a transport.
use rust_dap.Base.{ℕ, ◌+◌, refl, if◌then◌else◌, ◌==◌, ok, err, Result, pure}
use rust_dap.CmsisDap.{DapError, swd_error}
use rust_dap.Transport.{DapTransport, ActivePort, unsupported}
use rust_dap.Arm.Port.{access_request}
use rust_dap.Arm.Target.{Bus, Target, IsTarget}

-- Requests: 8 writes SELECT, 14 reads RDBUFF; 1, 5 and 13 write CSW, TAR and DRW, and 15 reads DRW.
module _ {B : Type 0} ⦃u : Bus B⦄ where
  abbrev pub access : ℕ → ℕ → Target B → Result DapError ℕ × Target B
  access request bits s =
      if request == 8
      then (ok 0, record s { select = bits })
      else if request == 14
      then (ok s.posted, s)
      else if request == 1
      then (ok 0, record s { csw = bits })
      else if request == 5
      then (ok 0, record s { tar = bits })
      else if request == 13
      then (ok 0, record s { tar = s.tar + 4; bus = u.store s.tar bits s.bus })
      else if request == 15
      then (
        ok s.posted,
        record s { tar = s.tar + 4; posted = (u.load s.tar s.bus).0; bus = (u.load s.tar s.bus).1 },
      )
      else (err (swd_error 4), s)

  instance abbrev pub simulated : DapTransport (Target B)
  simulated = record {
    capabilities = λ s. 1;
    connect = λ port config. pure ActivePort.swd;
    disconnect = λ config. pure tt;
    swj_sequence = λ config count bits. pure tt;
    swj_pins = λ config output select wait. pure 0;
    swj_clock = λ hertz. unsupported;
    swd_transfer = λ config. access;
    swd_read_bits = λ config count. unsupported;
    swd_write_bits = λ config count bits. pure tt;
    swd_output_enable = λ enable. pure tt;
    jtag_transfer = λ config dap_index request bits. unsupported;
    jtag_sequence = λ config info bits. unsupported;
    jtag_idcode = λ config index. unsupported;
  }

  abbrev pub itself : Target B → Target B
  itself s = s

  pub simulated-IsTarget : IsTarget itself simulated
  unfolding access_request
  simulated-IsTarget = record {
    select_write = λ c v s. (0, (record s { select = v }, refl, refl));
    rdbuff_read = λ c s. (s, refl, refl);
    csw_write = λ c v s h. (0, (record s { csw = v }, refl, refl));
    tar_write = λ c v s h. (0, (record s { tar = v }, refl, refl));
    drw_write = λ c v s h k l. (
      s.tar + 4,
      λ m. refl,
      (0, (record s { tar = s.tar + 4; bus = u.store s.tar v s.bus }, refl, refl)),
    );
    drw_read = λ c s h k l. (
      s.tar + 4,
      λ m. refl,
      (
        record s { tar = s.tar + 4; posted = (u.load s.tar s.bus).0; bus = (u.load s.tar s.bus).1 },
        refl,
        refl,
      ),
    );
  }
