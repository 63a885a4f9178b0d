-- ===== src/BitBang/Requests.antt =====
-- The byte of an SWD request on the wires (rust-dap/src/bitbang.rs, `SwdBits::transfer`).
use rust_dap.Base.{
  ℕ, zero, suc, ◌+◌, ◌*◌, ◌/◌, ◌%◌, ◌≡◌, refl, ap, Bool, true, false, not, ◌&&◌, xor, List, [], ◌∷◌,
  passes_below, passes_below→passes,
}
use rust_dap.Base.Words.{IsByte, contains}
use rust_dap.Base.Bits.{bits_of}
use rust_dap.CmsisDap.{ap_n_dp, r_n_w, a2, a3}
use rust_dap.Transport.{DapConfig}
use rust_dap.BitBang.Pins.{Pins}
use rust_dap.BitBang.Swd.{SwdBits, dio_to_output}
use rust_dap.BitBang.Transfer.{request_parity, request_phase}
use rust_dap.BitBang.Emits.{emit}

-- How many of the `n` lowest bits are set.
unfoldable pub ones : ℕ → ℕ → ℕ
ones zero value = 0
ones (suc n) value = value % 2 + ones n (value / 2)

-- The request byte of the protocol: bit 0 is start, bits 1 to 4 are the flags of the request, bit 5
-- makes their number even, bit 6 is stop, which is 0, and bit 7 is park.
unfoldable pub packet : ℕ → ℕ
unfolding ones
packet request = 1 + 2 * (request % 16) + 32 * (ones 4 request % 2) + 128

-- The arguments of `write_bit`, in order.
abbrev written_bits : ℕ → List Bool
written_bits request =
    true
    ∷ contains request ap_n_dp
    ∷ contains request r_n_w
    ∷ contains request a2
    ∷ contains request a3
    ∷ request_parity request
    ∷ false
    ∷ true
    ∷ []

unfoldable same_bits : List Bool → List Bool → Bool
same_bits [] [] = true
same_bits [] (y ∷ ys) = false
same_bits (x ∷ xs) [] = false
same_bits (x ∷ xs) (y ∷ ys) = not (xor x y) && same_bits xs ys

same_bits→eq : (xs ys : List Bool) → same_bits xs ys ≡ true → xs ≡ ys
unfolding same_bits mathlib.Core.Bool.xor
same_bits→eq [] [] h = refl
same_bits→eq [] (y ∷ ys) h = cc
same_bits→eq (x ∷ xs) [] h = cc
same_bits→eq (true ∷ xs) (true ∷ ys) h = ap (λ l. true ∷ l) (same_bits→eq xs ys h)
same_bits→eq (true ∷ xs) (false ∷ ys) h = cc
same_bits→eq (false ∷ xs) (true ∷ ys) h = cc
same_bits→eq (false ∷ xs) (false ∷ ys) h = ap (λ l. false ∷ l) (same_bits→eq xs ys h)

packet_table : passes_below (λ r. same_bits (written_bits r) (bits_of 8 (packet r))) 256 ≡ true
unfolding passes_below same_bits bits_of packet request_parity mathlib.Core.Bool.xor
packet_table = refl

packet_bits : (request : ℕ) → IsByte request → written_bits request ≡ bits_of 8 (packet request)
packet_bits request h = same_bits→eq _ _ (passes_below→passes _ 256 packet_table request h)

module _ {W : Type 0} ⦃p : Pins W⦄ (config : DapConfig) where
  -- For a request that is a byte, the request phase drives SWDIO and puts out the eight bits of the
  -- request byte of the protocol, lowest first. In it, the four flags APnDP, RnW, A2 and A3 have a bit
  -- that makes the number of ones even, whatever else the request asks for.
  pub request_phase-emits :
      (request : ℕ) (s : SwdBits W)
      → IsByte request
      → request_phase config request s
        ≡ emit config (bits_of 8 (packet request)) (dio_to_output false s)
  unfolding request_phase emit
  request_phase-emits request s h =
      ap (λ bits. emit config bits (dio_to_output false s)) (packet_bits request h)
