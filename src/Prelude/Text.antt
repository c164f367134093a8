-- ===== src/Prelude/Text.antt =====
-- Python's `str` methods that the program uses, over texts as sequences of code points.
use Prim.Native.Nat.{ℕ, zero, suc, ◌/◌, ◌%◌}
use Prim.Native.Char.{Char, code}
use Prim.Native.String.{String, ◌++◌}
use mathlib.Core.Path.{◌≡◌, refl}
use mathlib.Core.Bool.{Bool, true, false, ◌&&◌, ◌||◌}
use text.Mathlib.Text.{◌==◌, starts_with}
use inference_control_plane.Prelude.Tests.{ltb, leb, eqb, if◌then◌else◌}

-- `len(s)`
unfoldable pub len : String → ℕ
len String.[] = 0
len (String.◌∷◌ c s) = suc (len s)

-- `c.isspace()`: every code point that `str.strip()` removes.
unfoldable pub is_space : ℕ → Bool
is_space c =
    (leb 9 c && leb c 13)
    || (leb 28 c && leb c 32)
    || eqb c 0x85
    || eqb c 0xa0
    || eqb c 0x1680
    || (leb 0x2000 c && leb c 0x200a)
    || eqb c 0x2028
    || eqb c 0x2029
    || eqb c 0x202f
    || eqb c 0x205f
    || eqb c 0x3000

-- Drops the code points that `p` accepts at the left end.
unfoldable pub lstrip : (ℕ → Bool) → String → String
lstrip p String.[] = String.[]
lstrip p (String.◌∷◌ c s) = let rest = lstrip p s in if p (code c) then rest else String.◌∷◌ c s

-- A code point that `p` accepts is dropped if nothing is left behind it.
unfoldable pub keep : (ℕ → Bool) → Char → String → String
keep p c String.[] = if p (code c) then String.[] else String.◌∷◌ c String.[]
keep p c (String.◌∷◌ d s) = String.◌∷◌ c (String.◌∷◌ d s)

unfoldable pub rstrip : (ℕ → Bool) → String → String
unfolding keep
rstrip p String.[] = String.[]
rstrip p (String.◌∷◌ c s) = keep p c (rstrip p s)

-- `s.strip()`
unfoldable pub strip : String → String
unfolding is_space lstrip rstrip
strip s = rstrip is_space (lstrip is_space s)

-- `s.rstrip("/")`
unfoldable pub rstrip_slash : String → String
unfolding rstrip
rstrip_slash s = rstrip (λ c. eqb c b'/') s

-- `s.endswith(t)`
unfoldable pub ends_with : String → String → Bool
ends_with String.[] t = String.[] == t
ends_with (String.◌∷◌ c s) t = String.◌∷◌ c s == t || ends_with s t

-- `s[:n]`
unfoldable pub take : ℕ → String → String
take zero s = String.[]
take (suc n) String.[] = String.[]
take (suc n) (String.◌∷◌ c s) = String.◌∷◌ c (take n s)

-- `s.replace("\n", " ")`
unfoldable pub spaced : String → String
spaced String.[] = String.[]
spaced (String.◌∷◌ c s) = String.◌∷◌ (if eqb (code c) 10 then " " else c) (spaced s)

-- `not s`
abbrev pub is_empty : String → Bool
is_empty String.[] = true
is_empty (String.◌∷◌ c s) = false

-- `t in s`
unfoldable pub includes : String → String → Bool
includes t String.[] = is_empty t
includes t (String.◌∷◌ c s) = starts_with (String.◌∷◌ c s) t || includes t s

digit : ℕ → String
digit zero = "0"
digit (suc zero) = "1"
digit (suc (suc zero)) = "2"
digit (suc (suc (suc zero))) = "3"
digit (suc (suc (suc (suc zero)))) = "4"
digit (suc (suc (suc (suc (suc zero))))) = "5"
digit (suc (suc (suc (suc (suc (suc zero)))))) = "6"
digit (suc (suc (suc (suc (suc (suc (suc zero))))))) = "7"
digit (suc (suc (suc (suc (suc (suc (suc (suc zero)))))))) = "8"
digit _ = "9"

decimal : ℕ → ℕ → String
unfolding digit
decimal zero n = ""
decimal (suc fuel) n =
    let front = decimal fuel (n / 10) in if ltb n 10 then digit n else front ++ digit (n % 10)

-- `str(n)` of a non-negative integer. A number has no more digits than `n + 1`, its fuel.
unfoldable pub show : ℕ → String
unfolding decimal
show n = decimal (suc n) n

show_example : show 28401733 ≡ "28401733"
unfolding show
show_example = refl

strip_example : strip "  a b\n" ≡ "a b"
unfolding strip
strip_example = refl

ends_with_example : ends_with "x/v1" "/v1" ≡ true
unfolding ends_with
ends_with_example = refl
