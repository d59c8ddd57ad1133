-- ===== src/Go/Strings.antt =====
-- What the program uses of `strings`, character by character.
use Prim.Native.Char.{Char, code}
use pdf_generator.Prelude.{
  ℕ, ◌+◌, String, Bool, true, false, ◌&&◌, ◌||◌, List, [], ◌∷◌, map, if◌then◌else◌, leb, ◌==◌,
}

abbrev pub codes : String → List ℕ
codes String.[] = []
codes (String.◌∷◌ c s) = code c ∷ codes s

-- `unicode.ToLower` where the result is an ASCII character: the 26 capitals, and the capital I with a
-- dot and the Kelvin sign, whose lower case is ASCII. Any other character stays, which is no ASCII
-- character as its lower case is none.
abbrev pub lower : ℕ → ℕ
lower c =
    if leb b'A' c && leb c b'Z'
    then c + 32
    else if c == 304
    then b'i'
    else if c == 8490
    then b'k'
    else c

-- `strings.ToLower`.
abbrev pub to_lower : String → List ℕ
to_lower s = map lower (codes s)

abbrev pub same_codes : List ℕ → List ℕ → Bool
same_codes [] [] = true
same_codes [] (_ ∷ _) = false
same_codes (_ ∷ _) [] = false
same_codes (c ∷ s) (d ∷ t) = let rest = same_codes s t in c == d && rest

abbrev pub has_prefix : List ℕ → List ℕ → Bool
has_prefix _ [] = true
has_prefix [] (_ ∷ _) = false
has_prefix (c ∷ s) (d ∷ t) = let rest = has_prefix s t in c == d && rest

-- `strings.Contains`.
abbrev pub contains : List ℕ → List ℕ → Bool
contains [] t = has_prefix [] t
contains (c ∷ s) t = let rest = contains s t in has_prefix (c ∷ s) t || rest

abbrev pub onto_first : Char → List String → List String
onto_first c [] = []
onto_first c (part ∷ parts) = String.◌∷◌ c part ∷ parts

-- `strings.SplitN(s, " ", 2)`.
abbrev pub split_at_space : String → List String
split_at_space String.[] = "" ∷ []
split_at_space (String.◌∷◌ c s) =
    let parts = split_at_space s in if code c == b' ' then "" ∷ s ∷ [] else onto_first c parts
