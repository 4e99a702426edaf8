-- ===== src/Request/Decimal.antt =====
-- The text that `snprintf` of the C library writes for a count, by "%d": decimal digits, of a number
-- that is not negative and fits an `int`.
use ssdd_final.Base.{ℕ, zero, suc, ◌+◌, ◌/◌, ◌%◌, [], ◌∷◌, ◌==◌, if◌then◌else◌}
use ssdd_final.CString.{Bytes}

digits : ℕ → ℕ → Bytes → Bytes
digits zero n out = out
digits (suc fuel) n out =
    let rest = digits fuel (n / 10) ((b'0' + n % 10) ∷ out) in
    if n / 10 == 0 then (b'0' + n % 10) ∷ out else rest

-- The fuel is enough: each round divides by ten.
unfoldable pub decimal : ℕ → Bytes
unfolding digits
decimal n = digits (suc n) n []
