-- ===== src/Arm/Bytes/Patch.antt =====
-- Bytes that are put into words, and words into memory (arm-debug/src/lib.rs, `write_mem`).
use rust_dap.Base.{
  ℕ, zero, suc, ◌+◌, ◌-◌, ◌*◌, ◌%◌, ◌≡◌, ◌≤◌, ◌<◌, min, refl, ap, ◌∙◌, Bool-cases, ◌&&◌, inl, inr,
  List, [], ◌∷◌, ◌++◌, length, take, drop, All, leb, ltb, ◌==◌, if◌then◌else◌, arith, length-append,
  length-take, length-drop, All-take, All-drop,
}
use rust_dap.Base.Words.{le_bytes4, from_le, IsByte, le_bytes4-IsByte}
use rust_dap.Arm.Memory.Blocks.{store_words}
use rust_dap.Arm.Ram.{Ram, ram, update, element, byte_at}
use rust_dap.Arm.Bytes.{words_of, patch}

-- A byte of memory, after the first `n` bytes of a list were written from `addr` on.
abbrev pub patched : ℕ → ℕ → List ℕ → Ram → ℕ → ℕ
patched addr n bytes m a =
    if leb addr a && ltb a (addr + n) then element (a - addr) bytes else byte_at m a

pub element-drop : (k i : ℕ) (xs : List ℕ) → element i (drop k xs) ≡ element (k + i) xs
element-drop zero i xs = ground arith
element-drop (suc k) i [] = ground arith
element-drop (suc k) i (x ∷ xs) =
    let e : suc (k + i) ≡ suc k + i = omega arith in
    element-drop k i xs ∙ ap (λ j. element j (x ∷ xs)) e

element-patch :
    (k : ℕ) (bs xs : List ℕ)
    → element k (patch bs xs)
      ≡ (if ltb k (min (length bs) (length xs)) then element k xs else element k bs)
unfolding patch
element-patch k [] [] = ground arith
element-patch k [] (x ∷ xs) = ground arith
element-patch k (b ∷ bs) [] = ground arith
element-patch zero (b ∷ bs) (x ∷ xs) = ground arith
element-patch (suc k) (b ∷ bs) (x ∷ xs) = ground (arith, element-patch k bs xs)

pub element-take-patch :
    (k off : ℕ) (bs xs : List ℕ)
    → off ≤ length bs
    → element k (take off bs ++ patch (drop off bs) xs) ≡ (
        if leb off k && ltb k (off + min (length bs - off) (length xs))
        then element (k - off) xs
        else element k bs)
element-take-patch k zero bs xs h = ground (arith, element-patch k bs xs)
element-take-patch k (suc off) [] xs h = absurd (omega arith)
element-take-patch zero (suc off) (b ∷ bs) xs h = ground arith
element-take-patch (suc k) (suc off) (b ∷ bs) xs h =
    ground (arith, element-take-patch k off bs xs (omega arith))

length-patch : (bs xs : List ℕ) → length (patch bs xs) ≡ length bs
unfolding patch
length-patch [] xs = refl
length-patch (b ∷ bs) [] = refl
length-patch (b ∷ bs) (x ∷ xs) = omega (arith, length-patch bs xs)

patch-IsByte : (bs xs : List ℕ) → All IsByte bs → All IsByte xs → All IsByte (patch bs xs)
unfolding patch
patch-IsByte [] xs h k = tt
patch-IsByte (b ∷ bs) [] h k = h
patch-IsByte (b ∷ bs) (x ∷ xs) h k = (k.0, patch-IsByte bs xs h.1 k.1)

append-IsByte : (xs ys : List ℕ) → All IsByte xs → All IsByte ys → All IsByte (xs ++ ys)
append-IsByte [] ys h k = k
append-IsByte (x ∷ xs) ys h k = (h.0, append-IsByte xs ys h.1 k)

pub le_bytes4-from_le : (bs : List ℕ) → length bs ≡ 4 → All IsByte bs → le_bytes4 (from_le bs) ≡ bs
le_bytes4-from_le (b0 ∷ b1 ∷ b2 ∷ b3 ∷ []) e h = ground arith
le_bytes4-from_le [] e h = absurd (omega (arith, e))
le_bytes4-from_le (b0 ∷ []) e h = absurd (omega (arith, e))
le_bytes4-from_le (b0 ∷ b1 ∷ []) e h = absurd (omega (arith, e))
le_bytes4-from_le (b0 ∷ b1 ∷ b2 ∷ []) e h = absurd (omega (arith, e))
le_bytes4-from_le (b0 ∷ b1 ∷ b2 ∷ b3 ∷ b4 ∷ bs) e h = absurd (omega (arith, e))

-- A word into which bytes were put behind the first `off`.
pub le_bytes4-patch :
    (off word : ℕ) (xs : List ℕ)
    → off < 4
    → All IsByte xs
    → le_bytes4 (from_le (take off (le_bytes4 word) ++ patch (drop off (le_bytes4 word)) xs))
      ≡ take off (le_bytes4 word) ++ patch (drop off (le_bytes4 word)) xs
le_bytes4-patch off word xs small bytes =
    let bs = le_bytes4 word in
    le_bytes4-from_le (take off bs ++ patch (drop off bs) xs)
      (omega (
        arith,
        length-append {0} (take off bs) (patch (drop off bs) xs),
        length-patch (drop off bs) xs,
        length-take {0} off bs,
        length-drop {0} off bs,
      ))
      (append-IsByte (take off bs) (patch (drop off bs) xs)
        (All-take IsByte off bs (le_bytes4-IsByte word))
        (patch-IsByte (drop off bs) xs (All-drop IsByte off bs (le_bytes4-IsByte word)) bytes))

-- A word in memory.
pub byte_at-update :
    (addr v a : ℕ) (m : Ram)
    → byte_at (update addr v m) a
      ≡ (if a - a % 4 == addr then element (a % 4) (le_bytes4 v) else byte_at m a)
byte_at-update addr v a m = ground arith

element-take : (n k : ℕ) (xs : List ℕ) → k < n → element k (take n xs) ≡ element k xs
element-take zero k xs h = absurd (omega arith)
element-take (suc n) k [] h = refl
element-take (suc n) zero (x ∷ xs) h = refl
element-take (suc n) (suc k) (x ∷ xs) h = element-take n k xs (omega arith)

-- A word made of the first four bytes of a list.
word-byte_at :
    (addr : ℕ) (rest : List ℕ) (m : Ram) (a : ℕ)
    → addr % 4 ≡ 0
    → 4 ≤ length rest
    → All IsByte rest
    → byte_at (update addr (from_le (take 4 rest)) m) a
      ≡ (if a - a % 4 == addr then element (a - addr) rest else byte_at m a)
word-byte_at addr rest m a aligned room bytes =
    let here : le_bytes4 (from_le (take 4 rest)) ≡ take 4 rest =
      le_bytes4-from_le (take 4 rest) (omega (arith, length-take {0} 4 rest))
        (All-take IsByte 4 rest bytes) in
    byte_at-update addr (from_le (take 4 rest)) a m
    ∙ ap (λ (l : List ℕ). if a - a % 4 == addr then element (a % 4) l else byte_at m a) here
    ∙ pick addr a (byte_at m a) (λ i. element i (take 4 rest)) (λ i. element i rest) aligned
        (λ i h. element-take 4 i rest h)
  where
    pick :
        (addr a z : ℕ) (f g : ℕ → ℕ)
        → addr % 4 ≡ 0
        → ((i : ℕ) → i < 4 → f i ≡ g i)
        → (if a - a % 4 == addr then f (a % 4) else z)
          ≡ (if a - a % 4 == addr then g (a - addr) else z)
    pick addr a z f g aligned same = elim (Bool-cases (a - a % 4 == addr)) [
      | inl h ↦ rw h (same (a % 4) (omega arith) ∙ ap g (ground (arith, h)))
      | inr h ↦ rw h refl
    ]

two_pieces :
    (f : ℕ → ℕ) (z addr a n : ℕ)
    → addr % 4 ≡ 0
    → (if leb (addr + 4) a && ltb a (addr + 4 + 4 * n)
        then f (4 + (a - (addr + 4)))
        else (if a - a % 4 == addr then f (a - addr) else z))
      ≡ (if leb addr a && ltb a (addr + 4 * suc n) then f (a - addr) else z)
two_pieces f z addr a n aligned = ground arith

pub byte_at-store_words :
    (n addr : ℕ) (rest : List ℕ) (m : Ram) (a : ℕ)
    → addr % 4 ≡ 0
    → 4 * n ≤ length rest
    → All IsByte rest
    → byte_at (store_words addr (words_of n rest) m) a ≡ patched addr (4 * n) rest m a
unfolding store_words words_of
byte_at-store_words zero addr rest m a aligned room bytes = ground arith
byte_at-store_words (suc n) addr rest m a aligned room bytes =
    let more = λ (z : ℕ).
      if leb (addr + 4) a && ltb a (addr + 4 + 4 * n)
      then element (a - (addr + 4)) (drop 4 rest)
      else z in
    byte_at-store_words n (addr + 4) (drop 4 rest) (update addr (from_le (take 4 rest)) m) a
      (omega (arith, aligned)) (omega (arith, length-drop {0} 4 rest, room))
      (All-drop IsByte 4 rest bytes)
    ∙ ap more (word-byte_at addr rest m a aligned (omega (arith, room)) bytes)
    ∙ ap
        (λ (e : ℕ).
          if leb (addr + 4) a && ltb a (addr + 4 + 4 * n)
          then e
          else (if a - a % 4 == addr then element (a - addr) rest else byte_at m a))
        (element-drop 4 (a - (addr + 4)) rest)
    ∙ two_pieces (λ i. element i rest) (byte_at m a) addr a n aligned
