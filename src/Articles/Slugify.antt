-- ===== src/Articles/Slugify.antt =====
-- app/features/shared/slug.py: the slug of a title. A text is the list of its code points;
-- `str.lower` is a parameter.
pub mod Shape
use heofberu_backend.Prelude.{
  ℕ, Bool, true, false, not, ◌&&◌, ◌||◌, List, [], ◌∷◌, ◌++◌, leb, ◌==◌, if◌then◌else◌, take,
}

-- `_CYRILLIC_TO_LATIN`, from the code of a letter to the codes that stand for it
unfoldable pub cyrillic_to_latin : List (ℕ × List ℕ)
cyrillic_to_latin =
    (1072, 97 ∷ [])
    ∷ (1073, 98 ∷ [])
    ∷ (1074, 118 ∷ [])
    ∷ (1075, 103 ∷ [])
    ∷ (1169, 103 ∷ [])
    ∷ (1076, 100 ∷ [])
    ∷ (1077, 101 ∷ [])
    ∷ (1108, 121 ∷ 101 ∷ [])
    ∷ (1105, 121 ∷ 111 ∷ [])
    ∷ (1078, 122 ∷ 104 ∷ [])
    ∷ (1079, 122 ∷ [])
    ∷ (1080, 105 ∷ [])
    ∷ (1110, 105 ∷ [])
    ∷ (1111, 121 ∷ 105 ∷ [])
    ∷ (1081, 121 ∷ [])
    ∷ (1082, 107 ∷ [])
    ∷ (1083, 108 ∷ [])
    ∷ (1084, 109 ∷ [])
    ∷ (1085, 110 ∷ [])
    ∷ (1086, 111 ∷ [])
    ∷ (1087, 112 ∷ [])
    ∷ (1088, 114 ∷ [])
    ∷ (1089, 115 ∷ [])
    ∷ (1090, 116 ∷ [])
    ∷ (1091, 117 ∷ [])
    ∷ (1092, 102 ∷ [])
    ∷ (1093, 107 ∷ 104 ∷ [])
    ∷ (1094, 116 ∷ 115 ∷ [])
    ∷ (1095, 99 ∷ 104 ∷ [])
    ∷ (1096, 115 ∷ 104 ∷ [])
    ∷ (1097, 115 ∷ 104 ∷ 99 ∷ 104 ∷ [])
    ∷ (1098, [])
    ∷ (1099, 121 ∷ [])
    ∷ (1100, [])
    ∷ (1101, 101 ∷ [])
    ∷ (1102, 121 ∷ 117 ∷ [])
    ∷ (1103, 121 ∷ 97 ∷ [])
    ∷ []

abbrev pub slug_max_length : ℕ
slug_max_length = 200

-- `_CYRILLIC_TO_LATIN.get(char, char)`
unfoldable pub get : List (ℕ × List ℕ) → ℕ → List ℕ
get [] char = char ∷ []
get ((key, latin) ∷ rows) char = let rest = get rows char in if key == char then latin else rest

unfoldable pub transliterated : List ℕ → List ℕ
unfolding cyrillic_to_latin get
transliterated [] = []
transliterated (char ∷ chars) = get cyrillic_to_latin char ++ transliterated chars

-- a letter from a to z or a digit
abbrev pub is_slug_char : ℕ → Bool
is_slug_char char = (leb 97 char && leb char 122) || (leb 48 char && leb char 57)

abbrev pub dash : ℕ
dash = 45

-- `_NON_SLUG.sub("-", text)`: one dash for each run of other characters; the flag says whether the
-- character before belongs to such a run
unfoldable pub sub_non_slug : Bool → List ℕ → List ℕ
sub_non_slug in_run [] = []
sub_non_slug in_run (char ∷ chars) =
    let kept = sub_non_slug false chars in
    let run = sub_non_slug true chars in
    if is_slug_char char then char ∷ kept else if in_run then run else dash ∷ run

-- `text.lstrip("-")`
unfoldable pub strip_left : List ℕ → List ℕ
strip_left [] = []
strip_left (char ∷ chars) =
    let rest = strip_left chars in if char == dash then rest else char ∷ chars

abbrev pub cons_unless_dash : ℕ → List ℕ → List ℕ
cons_unless_dash char [] = if char == dash then [] else char ∷ []
cons_unless_dash char (x ∷ xs) = char ∷ x ∷ xs

-- `text.rstrip("-")`
unfoldable pub strip_right : List ℕ → List ℕ
strip_right [] = []
strip_right (char ∷ chars) = cons_unless_dash char (strip_right chars)

-- `text.strip("-")`
abbrev pub strip : List ℕ → List ℕ
strip chars = strip_right (strip_left chars)

-- `slug or fallback`
abbrev pub or_fallback : List ℕ → List ℕ → List ℕ
or_fallback [] fallback = fallback
or_fallback (x ∷ xs) fallback = x ∷ xs

unfoldable pub slugify : (List ℕ → List ℕ) → List ℕ → List ℕ → List ℕ
unfolding transliterated sub_non_slug strip_left strip_right
slugify lower title fallback =
    or_fallback
      (strip (take slug_max_length (strip (sub_non_slug false (transliterated (lower title))))))
      fallback
