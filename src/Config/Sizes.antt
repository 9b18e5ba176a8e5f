-- ===== src/Config/Sizes.antt =====
-- What a body size stands for.
use rust_rpxy.Common.{ℕ, ◌*◌, ◌≤◌, ◌<◌, ◌≡◌, ◌⊎◌, Option, none, some, ltb, ensure, ◌>>◌}
use rust_rpxy.Config.BodySize.{u64_mod, scale}

-- The three outcomes of a number with a unit.
abbrev pub Outcomes : ℕ → ℕ → Option (Option ℕ) → Type 0
Outcomes n m r =
    (n ≡ 0) × (r ≡ some none)
    ⊎ (0 < n) × (n * m < u64_mod) × (r ≡ some (some (n * m)))
    ⊎ (u64_mod ≤ n * m) × (r ≡ none)

abbrev read : ℕ → ℕ → Option (Option ℕ)
read n m = ensure (ltb n u64_mod) >> scale n m

-- The units of the documentation, each 1024 times the one before, and the letters that spell them.
pub data BinaryUnit : Type 0 where
  kibi mebi gibi : BinaryUnit

unfoldable pub bytes_in : BinaryUnit → ℕ
bytes_in kibi = 1024
bytes_in mebi = 1024 * 1024
bytes_in gibi = 1024 * 1024 * 1024

abbrev pub Spells : ℕ → BinaryUnit → Type 0
Spells c kibi = (c ≡ b'k') ⊎ (c ≡ b'K')
Spells c mebi = (c ≡ b'm') ⊎ (c ≡ b'M')
Spells c gibi = (c ≡ b'g') ⊎ (c ≡ b'G')
