-- ===== src/Text/Decimal.antt =====
-- Numbers in decimal, as `{}` writes them.
pub mod ReadBack
use net_zer.Prelude.{ℕ, Bytes, suc, [], ◌/◌, if◌then◌else◌, ltb, ◌+◌, ◌∷◌, ◌++◌, ◌%◌, zero}

-- The digits of `n`, the first one not 0 unless it stands alone. `fuel` bounds their number.
unfoldable pub digits_of : ℕ → ℕ → Bytes
digits_of zero n = []
digits_of (suc fuel) n =
    let high = digits_of fuel (n / 10) in
    if ltb n 10 then (b'0' + n) ∷ [] else high ++ (b'0' + n % 10) ∷ []

-- A number has fewer digits than its value and one.
unfoldable pub decimal : ℕ → Bytes
decimal n = digits_of (suc n) n
