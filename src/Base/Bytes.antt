-- ===== src/Base/Bytes.antt =====
-- encoding/binary's little-endian integers, over bytes as numbers.
use hydraide.Base.Lists.{length, All}
use Prim.Native.Nat.{ℕ, zero, suc, ◌+◌, ◌*◌, ◌/◌, ◌%◌, ◌<◌}
use mathlib.Core.Path.{◌≡◌, refl}
use mathlib.Core.List.{List, [], ◌∷◌}
use native.Mathlib.Omega.{arith}

abbrev pub Bytes : Type 0
Bytes = List ℕ

abbrev pub IsByte : ℕ → Type 0
IsByte b = b < 256

-- `binary.LittleEndian.PutUint16/32/64`: the low `w` bytes, lowest first.
abbrev pub put_le : ℕ → ℕ → Bytes
put_le zero n = []
put_le (suc w) n = (n % 256) ∷ put_le w (n / 256)

-- `binary.LittleEndian.Uint16/32/64`.
abbrev pub get_le : Bytes → ℕ
get_le [] = 0
get_le (b ∷ bs) = b + 256 * get_le bs

pub length-put_le : (w n : ℕ) → length (put_le w n) ≡ w
length-put_le zero n = refl
length-put_le (suc w) n = omega (arith, length-put_le w (n / 256))

-- The bound is 256 ^ w, by recursion so that it computes at a numeral `w`.
abbrev pub bound : ℕ → ℕ
bound zero = 1
bound (suc w) = 256 * bound w

pub get_le-put_le : (w n : ℕ) → n < bound w → get_le (put_le w n) ≡ n
get_le-put_le zero n h = omega arith
get_le-put_le (suc w) n h = omega (arith, get_le-put_le w (n / 256) (omega arith))

pub get_le-lt : (bs : Bytes) → All IsByte bs → get_le bs < bound (length bs)
get_le-lt [] h = omega arith
get_le-lt (b ∷ bs) h = omega (arith, get_le-lt bs h.1)

low_byte : (b n : ℕ) → b < 256 → (b + 256 * n) % 256 ≡ b
low_byte b n h = omega arith

high_bytes : (b n : ℕ) → b < 256 → (b + 256 * n) / 256 ≡ n
high_bytes b n h = omega arith

pub put_le-get_le : (bs : Bytes) → All IsByte bs → put_le (length bs) (get_le bs) ≡ bs
put_le-get_le [] h = refl
put_le-get_le (b ∷ bs) (hb, hbs) =
    cc (low_byte b (get_le bs) hb, high_bytes b (get_le bs) hb, put_le-get_le bs hbs)
