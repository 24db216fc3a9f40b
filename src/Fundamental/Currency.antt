-- ===== src/Fundamental/Currency.antt =====
-- String methods of the language that the code uses on symbols and currencies, over code points of
-- ASCII text: `trim`, `toUpperCase`, `includes`.
pub mod Spelling
use Prim.Native.Char.{code}
use trading_backend.Base.{
  leb, ◌==◌, if◌then◌else◌, ℕ, ◌-◌, String, Bool, true, false, ◌&&◌, ◌||◌, List, [], ◌∷◌,
}

abbrev pub codes : String → List ℕ
codes String.[] = []
codes (String.◌∷◌ c s) = code c ∷ codes s

abbrev pub upper_code : ℕ → ℕ
upper_code c = if leb b'a' c && leb c b'z' then c - 32 else c

unfoldable pub upper : List ℕ → List ℕ
upper [] = []
upper (c ∷ cs) = upper_code c ∷ upper cs

abbrev pub is_space : ℕ → Bool
is_space c = c == 32 || (leb 9 c && leb c 13)

pub trim_start : List ℕ → List ℕ
trim_start [] = []
trim_start (c ∷ cs) = if is_space c then trim_start cs else c ∷ cs

pub trim_end : List ℕ → List ℕ
trim_end [] = []
trim_end (c ∷ cs) = elim (trim_end cs) [
  | [] ↦ if is_space c then [] else c ∷ []
  | d ∷ ds ↦ c ∷ d ∷ ds
]

unfoldable pub trim : List ℕ → List ℕ
unfolding trim_start trim_end
trim cs = trim_end (trim_start cs)

unfoldable pub same_codes : List ℕ → List ℕ → Bool
same_codes [] [] = true
same_codes (a ∷ as') (b ∷ bs) = a == b && same_codes as' bs
same_codes _ _ = false

starts_with : List ℕ → List ℕ → Bool
starts_with [] cs = true
starts_with (a ∷ p) [] = false
starts_with (a ∷ p) (c ∷ cs) = a == c && starts_with p cs

-- `text.includes(part)`
unfoldable pub includes : List ℕ → List ℕ → Bool
unfolding starts_with
includes part [] = starts_with part []
includes part (c ∷ cs) = starts_with part (c ∷ cs) || includes part cs

-- `normalizeCurrency`
unfoldable pub normalize_currency : List ℕ → List ℕ
unfolding upper trim
normalize_currency c = upper (trim c)
