-- ===== src/Common/Text.antt =====
-- Texts as lists of character codes.
use Prim.Native.Char.{code}
use Prim.Native.String.{String}
use Prim.Native.Nat.{ℕ, zero, suc, ◌+◌, ◌-◌, ◌/◌, ◌%◌}
use mathlib.Core.Bool.{Bool, true, false, ◌&&◌, ◌||◌}
use mathlib.Core.List.{List, [], ◌∷◌, ◌++◌}
use mathlib.Core.Path.{◌≡◌, refl}
use native.Mathlib.Omega.{arith}
use rudra_org.Common.Tests.{ltb, ◌==◌, if◌then◌else◌}
use rudra_org.Common.Lists.{length, replicate}

abbrev pub Text : Type 0
Text = List ℕ

abbrev pub codes : String → Text
codes String.[] = []
codes (String.◌∷◌ c s) = code c ∷ codes s

abbrev pub equal : Text → Text → Bool
equal [] [] = true
equal [] (d ∷ ds) = false
equal (c ∷ cs) [] = false
equal (c ∷ cs) (d ∷ ds) = (c == d) && equal cs ds

-- The order of a dictionary.
abbrev pub before : Text → Text → Bool
before cs [] = false
before [] (d ∷ ds) = true
before (c ∷ cs) (d ∷ ds) = ltb c d || ((c == d) && before cs ds)

abbrev pub starts_with : Text → Text → Bool
starts_with [] cs = true
starts_with (p ∷ ps) [] = false
starts_with (p ∷ ps) (c ∷ cs) = (p == c) && starts_with ps cs

-- A digit of a base of at most 16.
abbrev pub digit : ℕ → ℕ
digit n = if ltb n 10 then b'0' + n else b'a' + (n - 10)

-- A number of at most `digits` digits, as a stream writes it.
unfoldable pub numeral : (base digits : ℕ) → ℕ → Text
numeral base zero n = []
numeral base (suc digits) n =
    let rest = numeral base digits (n / base) in
    if ltb n base then digit n ∷ [] else rest ++ digit (n % base) ∷ []

-- `std::setw`, with the text at the right or at the left end.
abbrev pub pad_left : ℕ → ℕ → Text → Text
pad_left width fill cs = replicate (width - length cs) fill ++ cs

abbrev pub pad_right : ℕ → ℕ → Text → Text
pad_right width fill cs = cs ++ replicate (width - length cs) fill

pub equal_refl : (cs : Text) → equal cs cs ≡ true
equal_refl [] = refl
equal_refl (c ∷ cs) = ground (arith, equal_refl cs)

pub eq_of_equal : (cs ds : Text) → equal cs ds ≡ true → cs ≡ ds
eq_of_equal [] [] h = refl
eq_of_equal [] (d ∷ ds) h = cc
eq_of_equal (c ∷ cs) [] h = cc
eq_of_equal (c ∷ cs) (d ∷ ds) h = ground (arith, eq_of_equal cs ds)

-- A text is not the same with something behind it.
pub longer-equal : (cs : Text) (d : ℕ) (ds : Text) → equal (cs ++ (d ∷ ds)) cs ≡ false
longer-equal [] d ds = refl
longer-equal (c ∷ cs) d ds = ground (arith, longer-equal cs d ds)
