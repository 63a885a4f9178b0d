-- ===== src/Gdb/Rtt/Hex.antt =====
-- The number that a hexadecimal argument spells (boards/rpi_pico/src/bin/gdb_server.rs, `parse_hex`).
use rust_dap.Base.{
  ℕ, zero, suc, ◌+◌, ◌-◌, ◌*◌, ◌%◌, ◌^◌, ◌≡◌, ◌≤◌, ◌<◌, refl, subst, Bool-cases, ◌||◌, Option,
  Option-cases, none, some, inl, inr, List, [], ◌∷◌, length, ltb, ◌==◌, if◌then◌else◌, arith,
}
use rust_dap.Base.Words.{IsU32}
use rust_dap.Gdb.Rtt.{hex_digit, parse_loop, strip_prefix, parse_hex}

-- The number that digits spell behind those of `v`, without a bound.
unfoldable pub number : ℕ → List ℕ → Option ℕ
number v [] = some v
number v (b ∷ bs) = elim (hex_digit b) [ none ↦ none | some digit ↦ number (v * 16 + digit) bs ]

-- What a string of one to eight digits spells.
abbrev pub spelled : List ℕ → Option ℕ
spelled s = if length s == 0 || ltb 8 (length s) then none else number 0 s

abbrev pub IsBounded : Option ℕ → Type 0
IsBounded none = Unit
IsBounded (some v) = IsU32 v

-- 16 to the power of `n`
unfoldable sixteens : ℕ → ℕ
sixteens zero = 1
sixteens (suc n) = 16 * sixteens n

sixteens_grow : (n m : ℕ) → sixteens m ≤ sixteens (n + m)
unfolding sixteens
sixteens_grow zero m = ground arith
sixteens_grow (suc n) m =
    let e : suc n + m ≡ suc (n + m) = omega arith in rw e (omega (arith, sixteens_grow n m))

sixteens_bound : (n : ℕ) → n ≤ 8 → sixteens n ≤ 2 ^ 32
unfolding sixteens
sixteens_bound n h =
    let e : 8 - n + n ≡ 8 = omega arith in
    subst (λ k. sixteens n ≤ sixteens k) e (sixteens_grow (8 - n) n)

hex_digit_bound : (b digit : ℕ) → hex_digit b ≡ some digit → digit < 16
hex_digit_bound b digit h = ground (arith, h)

parse_loop_lem :
    (k v : ℕ) (bs : List ℕ)
    → v < sixteens k
    → k + length bs ≤ 8
    → (parse_loop v bs ≡ number v bs) × IsBounded (parse_loop v bs)
unfolding parse_loop number sixteens
parse_loop_lem k v [] small room = (refl, omega (arith, sixteens_bound k (omega arith)))
parse_loop_lem k v (b ∷ bs) small room = elim (Option-cases (hex_digit b)) [
  | inl bad ↦ rw (parse_loop, number, bad) (refl, tt)
  | inr (digit, good) ↦
      let d = hex_digit_bound b digit good in
      let next : v * 16 + digit < sixteens (suc k) = omega (arith, d) in
      let wide = sixteens_bound (suc k) (omega arith) in
      let exact : v * 16 % 2 ^ 32 ≡ v * 16 = omega (arith, next, wide) in
      rw (parse_loop, number, good, exact)
        (parse_loop_lem (suc k) (v * 16 + digit) bs next (omega arith))
]

-- parse_hex answers the number that its argument spells behind an optional 0x, as one to eight
-- hexadecimal digits, and nothing where it spells none; no bit is lost, and the number fits a u32.
pub parse_hex-spelled :
    (text : List ℕ) → (parse_hex text ≡ spelled (strip_prefix text)) × IsBounded (parse_hex text)
unfolding parse_hex sixteens
parse_hex-spelled text =
    let s = strip_prefix text in
    elim (Bool-cases (length s == 0 || ltb 8 (length s))) [
      | inl bad ↦ rw bad (refl, tt)
      | inr good ↦ rw good (parse_loop_lem 0 0 s (omega arith) (ground (arith, good)))
    ]
