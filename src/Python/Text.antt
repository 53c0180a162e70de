-- ===== src/Python/Text.antt =====
-- Methods of `str`. A method that changes letters gives the code points of its result, which the
-- program only compares. `lower` changes the letters A to Z alone.
use Prim.Native.Nat.{ℕ, zero, suc, ◌+◌, ◌/◌, ◌%◌}
use Prim.Native.Char.{Char, code, char}
use Prim.Native.String.{String, ◌++◌ as append_text}
use mathlib.Core.Bool.{Bool, true, false, ◌&&◌, ◌||◌}
use mathlib.Core.List.{List, [], ◌∷◌, reverse}
use blast_radius.Base.{leb, ltb, if◌then◌else◌, nat_eq, ◌==◌}

abbrev pub codes : String → List ℕ
codes (String.◌∷◌ letter rest) = code letter ∷ codes rest
codes String.[] = []

infixr 65 ◌+++◌
abbrev pub ◌+++◌ : String → String → String
s +++ t = append_text s t

-- `separator.join(parts)`
unfoldable pub join : String → List String → String
join separator [] = ""
join separator (s ∷ []) = s
join separator (s ∷ t ∷ rest) = s +++ separator +++ join separator (t ∷ rest)

abbrev pub is_space : ℕ → Bool
is_space c =
    leb 9 c && leb c 13
    || leb 28 c && leb c 32
    || c == 133
    || c == 160
    || c == 5760
    || leb 8192 c && leb c 8202
    || c == 8232
    || c == 8233
    || c == 8239
    || c == 8287
    || c == 12288

unfoldable pub lstrip : List ℕ → List ℕ
lstrip [] = []
lstrip (c ∷ s) = let rest = lstrip s in if is_space c then rest else c ∷ s

unfoldable pub strip : List ℕ → List ℕ
unfolding lstrip
strip s = reverse (lstrip (reverse (lstrip s)))

abbrev pub is_upper : ℕ → Bool
is_upper c = leb b'A' c && leb c b'Z'

abbrev pub lower_code : ℕ → ℕ
lower_code c = if is_upper c then c + 32 else c

unfoldable pub lower : List ℕ → List ℕ
lower [] = []
lower (c ∷ s) = lower_code c ∷ lower s

unfoldable pub starts_with : List ℕ → List ℕ → Bool
starts_with s [] = true
starts_with [] (d ∷ t) = false
starts_with (c ∷ s) (d ∷ t) = c == d && starts_with s t

-- `t in s`
unfoldable pub has_infix : List ℕ → List ℕ → Bool
unfolding starts_with
has_infix [] t = starts_with [] t
has_infix (c ∷ s) t = starts_with (c ∷ s) t || has_infix s t

abbrev digit : ℕ → Char
digit zero = char 48 tt
digit (suc zero) = char 49 tt
digit (suc (suc zero)) = char 50 tt
digit (suc (suc (suc zero))) = char 51 tt
digit (suc (suc (suc (suc zero)))) = char 52 tt
digit (suc (suc (suc (suc (suc zero))))) = char 53 tt
digit (suc (suc (suc (suc (suc (suc zero)))))) = char 54 tt
digit (suc (suc (suc (suc (suc (suc (suc zero))))))) = char 55 tt
digit (suc (suc (suc (suc (suc (suc (suc (suc zero)))))))) = char 56 tt
digit _ = char 57 tt

-- The digits of `n` before `out`; `n` rounds are enough, since each divides by ten.
decimal_from : ℕ → ℕ → String → String
decimal_from zero n out = String.◌∷◌ (digit n) out
decimal_from (suc fuel) n out =
    let out' = String.◌∷◌ (digit (n % 10)) out in
    let rest = decimal_from fuel (n / 10) out' in if ltb n 10 then out' else rest

unfoldable pub decimal : ℕ → String
unfolding decimal_from
decimal n = decimal_from n n ""
