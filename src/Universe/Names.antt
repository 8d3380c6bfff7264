-- ===== src/Universe/Names.antt =====
-- internal/universe/filter.go: the names that the filter knows. A string is the list of its bytes, and
-- an upper case is taken of ASCII letters only.
use crypto_swing_bot.Prelude.{
  ℕ, ◌-◌, Bool, true, false, ◌&&◌, ◌||◌, List, [], ◌∷◌, if◌then◌else◌, leb, ◌==◌, any,
}
use crypto_swing_bot.Notify.Approval.{GoString}

-- `DefaultExcludePatterns`: "UP/", "DOWN/", "BULL/", "BEAR/", "3L/" and "3S/".
abbrev pub default_exclude_patterns : List GoString
default_exclude_patterns =
    (85 ∷ 80 ∷ 47 ∷ [])
    ∷ (68 ∷ 79 ∷ 87 ∷ 78 ∷ 47 ∷ [])
    ∷ (66 ∷ 85 ∷ 76 ∷ 76 ∷ 47 ∷ [])
    ∷ (66 ∷ 69 ∷ 65 ∷ 82 ∷ 47 ∷ [])
    ∷ (51 ∷ 76 ∷ 47 ∷ [])
    ∷ (51 ∷ 83 ∷ 47 ∷ [])
    ∷ []

-- `defaultStablecoins`, from USDT to EURI.
abbrev pub default_stablecoins : List GoString
default_stablecoins =
    (85 ∷ 83 ∷ 68 ∷ 84 ∷ [])
    ∷ (85 ∷ 83 ∷ 68 ∷ 67 ∷ [])
    ∷ (66 ∷ 85 ∷ 83 ∷ 68 ∷ [])
    ∷ (68 ∷ 65 ∷ 73 ∷ [])
    ∷ (84 ∷ 85 ∷ 83 ∷ 68 ∷ [])
    ∷ (85 ∷ 83 ∷ 68 ∷ 80 ∷ [])
    ∷ (70 ∷ 68 ∷ 85 ∷ 83 ∷ 68 ∷ [])
    ∷ (80 ∷ 89 ∷ 85 ∷ 83 ∷ 68 ∷ [])
    ∷ (71 ∷ 85 ∷ 83 ∷ 68 ∷ [])
    ∷ (85 ∷ 83 ∷ 68 ∷ 68 ∷ [])
    ∷ (69 ∷ 85 ∷ 82 ∷ 83 ∷ [])
    ∷ (69 ∷ 85 ∷ 82 ∷ 84 ∷ [])
    ∷ (85 ∷ 83 ∷ 84 ∷ 67 ∷ [])
    ∷ (85 ∷ 83 ∷ 84 ∷ [])
    ∷ (83 ∷ 85 ∷ 83 ∷ 68 ∷ [])
    ∷ (76 ∷ 85 ∷ 83 ∷ 68 ∷ [])
    ∷ (85 ∷ 83 ∷ 68 ∷ 75 ∷ [])
    ∷ (85 ∷ 83 ∷ 68 ∷ 78 ∷ [])
    ∷ (79 ∷ 85 ∷ 83 ∷ 68 ∷ [])
    ∷ (85 ∷ 83 ∷ 68 ∷ 88 ∷ [])
    ∷ (70 ∷ 82 ∷ 65 ∷ 88 ∷ [])
    ∷ (77 ∷ 73 ∷ 77 ∷ [])
    ∷ (85 ∷ 83 ∷ 68 ∷ 74 ∷ [])
    ∷ (72 ∷ 85 ∷ 83 ∷ 68 ∷ [])
    ∷ (69 ∷ 85 ∷ 82 ∷ 73 ∷ [])
    ∷ []

-- `strings.ToUpper`
abbrev pub upper_byte : ℕ → ℕ
upper_byte c = if leb 97 c && leb c 122 then c - 32 else c

unfoldable pub to_upper : GoString → GoString
to_upper [] = []
to_upper (c ∷ cs) = upper_byte c ∷ to_upper cs

-- `strings.HasPrefix`
unfoldable pub has_prefix : GoString → GoString → Bool
has_prefix s [] = true
has_prefix [] (p ∷ ps) = false
has_prefix (c ∷ cs) (p ∷ ps) = (c == p) && has_prefix cs ps

-- `strings.Contains`
unfoldable pub contains : GoString → GoString → Bool
contains [] sub = has_prefix [] sub
contains (c ∷ cs) sub = has_prefix (c ∷ cs) sub || contains cs sub

abbrev pub is_given : GoString → Bool
is_given [] = false
is_given (c ∷ cs) = true

-- `isLeveraged`
unfoldable pub is_leveraged : GoString → List GoString → Bool
is_leveraged symbol [] = false
is_leveraged symbol (p ∷ ps) =
    (is_given p && contains (to_upper symbol) (to_upper p)) || is_leveraged symbol ps

unfoldable pub same_string : GoString → GoString → Bool
same_string [] [] = true
same_string (c ∷ cs) (d ∷ ds) = (c == d) && same_string cs ds
same_string _ _ = false

-- `defaultStablecoins[strings.ToUpper(base)]`
unfoldable pub is_stablecoin : GoString → Bool
is_stablecoin base = any (same_string (to_upper base)) default_stablecoins
