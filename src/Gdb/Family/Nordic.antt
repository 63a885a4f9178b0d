-- ===== src/Gdb/Family/Nordic.antt =====
-- The flash of the nRF52 and nRF54L families (boards/rpi_pico/src/bin/gdb_server.rs, `Nrf52Family`
-- and `Nrf54Family`).
use rust_dap.Base.{
  ℕ, zero, suc, ◌+◌, ◌-◌, ◌*◌, ◌/◌, ◌%◌, ◌^◌, ◌&&◌, none, some, get_elem?, List, [], ◌∷◌, length,
  take, drop, leb, ltb, if◌then◌else◌, M, pure, throw_if, ◌>>=◌, ◌>>◌,
}
use rust_dap.Base.Words.{from_le, le_bytes4}
use rust_dap.Transport.{DapTransport}
use rust_dap.Arm.Port.{ArmDebug, ArmError, broken_invariant}
use rust_dap.Arm.Memory.{read_word}
use rust_dap.Arm.Nordic.{flash_page, nrf52_erase_page, nrf52_program, nrf54_program}
use rust_dap.Gdb.Family.{
  nrf52_flash_size, rram_size, polls_erase, minus, Nrf52Family, Linked, padded_words, on_arm,
  erase_pages,
}

-- A byte of the word at `a`, where the write covers it, and else the byte that is there.
unfoldable pub kept : ℕ → List ℕ → ℕ → ℕ → ℕ
kept from bytes a old =
    if leb from a then (elim (get_elem? bytes (a - from)) [ none ↦ old | some b ↦ b ]) else old

unfoldable pub kept_bytes : ℕ → List ℕ → ℕ → List ℕ → List ℕ
unfolding kept
kept_bytes from bytes a [] = []
kept_bytes from bytes a (old ∷ olds) = kept from bytes a old ∷ kept_bytes from bytes (a + 1) olds

module _ {T : Type 0} ⦃t : DapTransport T⦄ where
  -- The words from `base` on, in batches of up to 256, each programmed at its own base. Each batch
  -- has a word at least, so that fuel for each byte is enough.
  unfoldable pub batch_loop : ℕ → List ℕ → ℕ → ℕ → ℕ → M (ArmDebug T) ArmError (Unit {0})
  batch_loop from bytes span_end zero base = pure tt
  batch_loop from bytes span_end (suc fuel) base = do
    let words = padded_words span_end from bytes base 256
    let rest = batch_loop from bytes span_end fuel (base + 4 * length words)
    if ltb base span_end then (do nrf52_program base words polls_erase; rest) else pure tt

  unfoldable pub nrf52_flash_write : ℕ → List ℕ → M (Linked Nrf52Family T) ArmError (Unit {0})
  nrf52_flash_write addr bytes = do
    let end = (addr + length bytes) % 2 ^ 32
    throw_if (ltb nrf52_flash_size end) broken_invariant
    let first = addr / flash_page
    let last = minus end 1 / flash_page
    erase_pages (λ s. s.pages) (λ ws s. record s { pages = ws })
        (λ page. on_arm (nrf52_erase_page (page * flash_page) polls_erase)) (last + 1 - first) first
    let span = addr - addr % 4
    let span_end = (end + 3) - (end + 3) % 4
    on_arm (batch_loop addr bytes span_end (span_end - span) span)

  -- A word that the write covers, or the word that is there with the bytes that it covers.
  unfoldable pub edge_word : ℕ → List ℕ → ℕ → M (ArmDebug T) ArmError ℕ
  edge_word from bytes a =
      if leb from a && leb (a + 4) (from + length bytes)
      then pure (from_le (take 4 (drop (a - from) bytes)))
      else (do word ← read_word a; pure (from_le (kept_bytes from bytes a (le_bytes4 word))))

  unfoldable pub edge_words : ℕ → ℕ → List ℕ → ℕ → ℕ → M (ArmDebug T) ArmError (List ℕ)
  edge_words span_end from bytes a zero = pure []
  edge_words span_end from bytes a (suc room) = do
    let again = edge_words span_end from bytes (a + 4) room
    if ltb a span_end
        then (do word ← edge_word from bytes a; rest ← again; pure (word ∷ rest))
        else pure []

  unfoldable pub rram_loop : ℕ → List ℕ → ℕ → ℕ → ℕ → M (ArmDebug T) ArmError (Unit {0})
  rram_loop from bytes span_end zero base = pure tt
  rram_loop from bytes span_end (suc fuel) base =
      if ltb base span_end
      then (do
        words ← edge_words span_end from bytes base 256
        nrf54_program base words polls_erase
        rram_loop from bytes span_end fuel (base + 4 * length words))
      else pure tt

  unfoldable pub nrf54_flash_write : ℕ → List ℕ → M (ArmDebug T) ArmError (Unit {0})
  nrf54_flash_write addr bytes = do
    let end = (addr + length bytes) % 2 ^ 32
    throw_if (ltb rram_size end) broken_invariant
    let span = addr - addr % 4
    let span_end = (end + 3) - (end + 3) % 4
    rram_loop addr bytes span_end (span_end - span) span
