-- ===== src/Common/Slices.antt =====
-- Byte strings as lists of numbers below 256, with the `u8` and slice functions of Rust's core.
use Prim.Native.Nat.{ℕ, ◌+◌}
use Prim.Native.Char.{code}
use Prim.Native.String.{String}
use mathlib.Core.Path.{◌≡◌, refl}
use mathlib.Core.Logic.{◌↔◌}
use mathlib.Core.Bool.{Bool, true, false, ◌&&◌}
use mathlib.Core.List.{List, [], ◌∷◌, ◌++◌, map}
use native.Mathlib.Omega.{arith}
use rust_rpxy.Common.Tests.{leb, ◌==◌, if◌then◌else◌}
use rust_rpxy.Common.Lists.{length, drop}

abbrev pub Bytes : Type 0
Bytes = List ℕ

-- The bytes of an ASCII literal.
abbrev pub bytes : String → Bytes
bytes String.[] = []
bytes (String.◌∷◌ c s) = code c ∷ bytes s

abbrev pub bytes_eq : Bytes → Bytes → Bool
bytes_eq [] [] = true
bytes_eq (x ∷ xs) (y ∷ ys) = x == y && bytes_eq xs ys
bytes_eq _ _ = false

abbrev pub starts_with : Bytes → Bytes → Bool
starts_with s [] = true
starts_with [] (p ∷ ps) = false
starts_with (c ∷ s) (p ∷ ps) = c == p && starts_with s ps

abbrev pub to_lower : ℕ → ℕ
to_lower c = if leb 65 c && leb c 90 then c + 32 else c

abbrev pub to_ascii_lowercase : Bytes → Bytes
to_ascii_lowercase = map to_lower

pub bytes_eq_sound : (xs ys : Bytes) → bytes_eq xs ys ≡ true → xs ≡ ys
bytes_eq_sound [] [] h = refl
bytes_eq_sound (x ∷ xs) (y ∷ ys) h = ground (arith, bytes_eq_sound xs ys)
bytes_eq_sound [] (y ∷ ys) h = absurd (cc)
bytes_eq_sound (x ∷ xs) [] h = absurd (cc)

pub bytes_eq_refl : (xs : Bytes) → bytes_eq xs xs ≡ true
bytes_eq_refl [] = refl
bytes_eq_refl (x ∷ xs) = ground (arith, bytes_eq_refl xs)

pub starts_with_iff : (s p : Bytes) → (starts_with s p ≡ true) ↔ (s ≡ p ++ drop (length p) s)
starts_with_iff s p = (to s p, from s p)
  where
    to : (s p : Bytes) → starts_with s p ≡ true → s ≡ p ++ drop (length p) s
    to s [] h = refl
    to [] (p ∷ ps) h = absurd (cc)
    to (c ∷ s) (p ∷ ps) h = ground (arith, to s ps)

    from : (s p : Bytes) → s ≡ p ++ drop (length p) s → starts_with s p ≡ true
    from s [] h = refl
    from [] (p ∷ ps) h = absurd (cc)
    from (c ∷ s) (p ∷ ps) h = ground (arith, from s ps)
