-- ===== src/Arm/Ram.antt =====
-- Target memory as bytes: words by their address, lowest byte first (arm-debug/src/lib.rs).
use rust_dap.Base.{
  ℕ, zero, suc, ◌+◌, ◌-◌, ◌*◌, ◌%◌, ◌≡◌, ◌<◌, min, refl, sym, ap, ◌∙◌, List, [], ◌∷◌, ◌++◌, length,
  take, drop, ◌==◌, if◌then◌else◌, arith,
}
use rust_dap.Base.Words.{le_bytes4}
use rust_dap.Arm.Target.{Bus}
use rust_dap.Arm.Memory.Blocks.{load_words}

abbrev pub Ram : Type 0
Ram = ℕ → ℕ

abbrev pub update : ℕ → ℕ → Ram → Ram
update addr v m a = if a == addr then v else m a

instance abbrev pub ram : Bus Ram
ram = record { load = λ addr m. (m addr, m); store = update }

-- An element, or 0 behind the end.
abbrev pub element : ℕ → List ℕ → ℕ
element i [] = 0
element zero (x ∷ xs) = x
element (suc i) (x ∷ xs) = element i xs

abbrev pub byte_at : Ram → ℕ → ℕ
byte_at m addr = element (addr % 4) (le_bytes4 (m (addr - addr % 4)))

-- The `n` bytes from `addr` on.
unfoldable pub bytes_at : ℕ → ℕ → Ram → List ℕ
bytes_at addr zero m = []
bytes_at addr (suc n) m = byte_at m addr ∷ bytes_at (addr + 1) n m

pub length-bytes_at : (addr n : ℕ) (m : Ram) → length (bytes_at addr n m) ≡ n
unfolding bytes_at
length-bytes_at addr zero m = refl
length-bytes_at addr (suc n) m = omega (arith, length-bytes_at (addr + 1) n m)

move : (addr i : ℕ) → addr + 1 + i ≡ addr + suc i
move addr i = omega arith

pub bytes_at-add :
    (addr i n : ℕ) (m : Ram)
    → bytes_at addr i m ++ bytes_at (addr + i) n m ≡ bytes_at addr (i + n) m
unfolding bytes_at
bytes_at-add addr zero n m = ground arith
bytes_at-add addr (suc i) n m =
    ap (λ a. byte_at m addr ∷ (bytes_at (addr + 1) i m ++ bytes_at a n m)) (sym (move addr i))
    ∙ ap (λ l. byte_at m addr ∷ l) (bytes_at-add (addr + 1) i n m)
    ∙ ap (λ k. bytes_at addr k m) (sym (suc_add_lem i n))
  where
    suc_add_lem : (i n : ℕ) → suc i + n ≡ suc (i + n)
    suc_add_lem i n = omega arith

pub drop-bytes_at :
    (k addr n : ℕ) (m : Ram) → drop k (bytes_at addr n m) ≡ bytes_at (addr + k) (n - k) m
unfolding bytes_at
drop-bytes_at zero addr n m = ground arith
drop-bytes_at (suc k) addr zero m = ground arith
drop-bytes_at (suc k) addr (suc n) m =
    drop-bytes_at k (addr + 1) n m
    ∙ ap (λ a. bytes_at a (n - k) m) (move addr k)
    ∙ ap (λ j. bytes_at (addr + suc k) j m) (less n k)
  where
    less : (n k : ℕ) → n - k ≡ suc n - suc k
    less n k = omega arith

pub take-bytes_at :
    (k addr n : ℕ) (m : Ram) → take k (bytes_at addr n m) ≡ bytes_at addr (min k n) m
unfolding bytes_at
take-bytes_at zero addr n m = ground arith
take-bytes_at (suc k) addr zero m = ground arith
take-bytes_at (suc k) addr (suc n) m =
    ap (λ l. byte_at m addr ∷ l) (take-bytes_at k (addr + 1) n m)
    ∙ ap (λ j. bytes_at addr j m) (more k n)
  where
    more : (k n : ℕ) → suc (min k n) ≡ min (suc k) (suc n)
    more k n = omega arith

byte_in :
    (m : Ram) (addr k a : ℕ)
    → a ≡ addr + k
    → addr % 4 ≡ 0
    → k < 4
    → byte_at m a ≡ element k (le_bytes4 (m addr))
byte_in m addr k a e aligned small =
    ap (λ j. element j (le_bytes4 (m (a - a % 4)))) (omega arith)
    ∙ ap (λ b. element k (le_bytes4 (m b))) (omega arith)

pub le_bytes4-bytes_at :
    (addr : ℕ) (m : Ram) → addr % 4 ≡ 0 → le_bytes4 (m addr) ≡ bytes_at addr 4 m
unfolding bytes_at
le_bytes4-bytes_at addr m aligned = ground (
  arith,
  byte_in m addr 0 addr (omega arith) aligned (omega arith),
  byte_in m addr 1 (addr + 1) (omega arith) aligned (omega arith),
  byte_in m addr 2 (addr + 1 + 1) (omega arith) aligned (omega arith),
  byte_in m addr 3 (addr + 1 + 1 + 1) (omega arith) aligned (omega arith),
)

-- The bytes of a list of words.
unfoldable pub bytes_of : List ℕ → List ℕ
bytes_of [] = []
bytes_of (w ∷ ws) = le_bytes4 w ++ bytes_of ws

pub load_words-ram : (n addr : ℕ) (m : Ram) → (load_words n addr m).1 ≡ m
unfolding load_words
load_words-ram zero addr m = refl
load_words-ram (suc n) addr m = load_words-ram n (addr + 4) m

pub length-load_words : (n addr : ℕ) (m : Ram) → length (load_words n addr m).0 ≡ n
unfolding load_words
length-load_words zero addr m = refl
length-load_words (suc n) addr m = omega (arith, length-load_words n (addr + 4) m)

pub bytes_of-load_words :
    (n addr : ℕ) (m : Ram)
    → addr % 4 ≡ 0
    → bytes_of (load_words n addr m).0 ≡ bytes_at addr (4 * n) m
unfolding load_words bytes_of bytes_at
bytes_of-load_words zero addr m aligned = refl
bytes_of-load_words (suc n) addr m aligned =
    ap (λ l. le_bytes4 (m addr) ++ l) (bytes_of-load_words n (addr + 4) m (omega arith))
    ∙ ap (λ l. l ++ bytes_at (addr + 4) (4 * n) m) (le_bytes4-bytes_at addr m aligned)
    ∙ bytes_at-add addr 4 (4 * n) m
    ∙ ap (λ k. bytes_at addr k m) (omega arith)
