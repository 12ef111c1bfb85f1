-- ===== src/Files/Text.antt =====
-- The texts of FSPChecker/Compat/fileapi.cpp: file names as lists of bytes, the three replacements that
-- make a regular expression of a pattern, and the sorted listing.
use learn_docs.Base.{ℕ, Bool, true, false, ◌||◌, List, [], ◌∷◌, ◌++◌, ◌==◌, ltb, if◌then◌else◌}

abbrev pub Text : Type 0
Text = List ℕ

abbrev pub is_empty : Text → Bool
is_empty [] = true
is_empty (c ∷ s) = false

-- `regex_replace` of one character by a text.
unfoldable pub replace_all : ℕ → Text → Text → Text
replace_all c by [] = []
replace_all c by (x ∷ s) = (if x == c then by else x ∷ []) ++ replace_all c by s

abbrev pub slash : ℕ
slash = 47

abbrev pub backslash : ℕ
backslash = 92

abbrev pub dot : ℕ
dot = 46

abbrev pub star : ℕ
star = 42

abbrev pub question : ℕ
question = 63

abbrev pub to_slashes : Text → Text
to_slashes = replace_all backslash (slash ∷ [])

-- `sLeafMatch`: the three replacements in their order.
unfoldable pub to_regex : Text → Text
to_regex s =
    replace_all question (dot ∷ [])
      (replace_all star (dot ∷ star ∷ []) (replace_all dot (backslash ∷ dot ∷ []) s))

-- `find_first_of("*") != npos || find_first_of("?") != npos`
unfoldable pub is_wild : Text → Bool
is_wild [] = false
is_wild (c ∷ s) = (c == star) || ((c == question) || is_wild s)

-- `operator<=` of std::string, on unsigned bytes.
unfoldable pub text_leb : Text → Text → Bool
text_leb [] t = true
text_leb (a ∷ s) [] = false
text_leb (a ∷ s) (b ∷ t) = if ltb a b then true else if ltb b a then false else text_leb s t

unfoldable pub insert_sorted : Text → List Text → List Text
insert_sorted s [] = s ∷ []
insert_sorted s (t ∷ ts) = if text_leb s t then s ∷ t ∷ ts else t ∷ insert_sorted s ts

-- `std::sort(paths.begin(), paths.end())`
unfoldable pub sort : List Text → List Text
sort [] = []
sort (s ∷ ts) = insert_sorted s (sort ts)
