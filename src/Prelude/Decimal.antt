-- ===== src/Prelude/Decimal.antt =====
-- `Display` of a `u64`: its decimal digits, at most 20 of them.
use Prim.Native.Nat.{ℕ, zero, suc, ◌/◌, ◌%◌}
use Prim.Native.String.{String, ◌++◌}
use mathlib.Core.Path.{◌≡◌, refl}
use infinity_wasm_bridge.Prelude.Tests.{nat_beq, if◌then◌else◌}

digit : ℕ → String
digit zero = "0"
digit (suc zero) = "1"
digit (suc (suc zero)) = "2"
digit (suc (suc (suc zero))) = "3"
digit (suc (suc (suc (suc zero)))) = "4"
digit (suc (suc (suc (suc (suc zero))))) = "5"
digit (suc (suc (suc (suc (suc (suc zero)))))) = "6"
digit (suc (suc (suc (suc (suc (suc (suc zero))))))) = "7"
digit (suc (suc (suc (suc (suc (suc (suc (suc zero)))))))) = "8"
digit n = "9"

-- The digits of `n` before those of `out`, while the count of places lasts.
digits : ℕ → ℕ → String → String
digits zero n out = out
digits (suc places) n out =
    let longer = digits places (n / 10) (digit (n % 10) ++ out) in
    if nat_beq (n / 10) 0 then digit (n % 10) ++ out else longer

unfoldable pub show_u64 : ℕ → String
unfolding digits digit
show_u64 n = digits 20 n ""

show_u64_max : show_u64 18446744073709551615 ≡ "18446744073709551615"
unfolding show_u64
show_u64_max = refl
