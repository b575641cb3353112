-- ===== src/Runner/Extract.antt =====
-- The search for a JSON block in a relay: `ArtifactValidator._extract_json_block` of
-- jump_agent_runner/jump_agent_runner/artifact.py. A text is the list of its characters.
pub mod Grammar
mod Steps
mod Nest
mod Ending
pub mod First
pub mod Sound
use Prim.Native.Char.{Char, code}
use gp_portal.Base.{
  drop, ℕ, zero, suc, ◌+◌, ◌-◌, String, Bool, true, false, ◌&&◌, Option, none, some, List, [], ◌∷◌,
  ◌==◌, length, take, if◌then◌else◌,
}

abbrev pub Text : Type 0
Text = List Char

unfoldable pub chars : String → Text
chars String.[] = []
chars (String.◌∷◌ c s) = c ∷ chars s

unfoldable pub text_of : Text → String
text_of [] = String.[]
text_of (c ∷ s) = String.◌∷◌ c (text_of s)

-- What the loop distinguishes of a character.
pub data Mark : Type 0 where
  quote backslash opening closing other : Mark

unfoldable pub mark_of : Char → Mark
mark_of c =
    if code c == 34
    then Mark.quote
    else if code c == 92
    then Mark.backslash
    else if code c == 123
    then Mark.opening
    else if code c == 125
    then Mark.closing
    else Mark.other

abbrev pub starts_with : Text → Text → Bool
starts_with [] t = true
starts_with (p ∷ ps) [] = false
starts_with (p ∷ ps) (c ∷ t) = code p == code c && starts_with ps t

-- `t.replace(pattern, "")`; the number counts the characters of an occurrence still to be left out.
abbrev pub remove : Text → ℕ → Text → Text
remove p zero [] = []
remove p (suc n) [] = []
remove p (suc n) (c ∷ t) = remove p n t
remove p zero (c ∷ t) =
    let left_out = remove p (length p - 1) t in
    let kept = remove p 0 t in if starts_with p (c ∷ t) then left_out else c ∷ kept

-- The text without the fences of Markdown.
unfoldable pub remove_fences : Text → Text
unfolding chars
remove_fences t = remove (chars "```") 0 (remove (chars "```JSON") 0 (remove (chars "```json") 0 t))

pub record Scanner : Type 0 where
  pub depth : ℕ
  pub start : Option ℕ
  pub in_string : Bool
  pub escaped : Bool

abbrev pub inside_string : Mark → Scanner → Scanner
inside_string Mark.backslash s = record s { escaped = true }
inside_string Mark.quote s = record s { in_string = false }
inside_string _ s = s

abbrev pub outside_string : ℕ → Mark → Scanner → Scanner
outside_string i Mark.quote s = record s { in_string = true }
outside_string i Mark.opening s = record s {
  depth = s.depth + 1;
  start = if s.depth == 0 then some i else s.start;
}
outside_string i Mark.closing s = record s { depth = s.depth - 1 }
outside_string i _ s = s

-- The variables of the loop after the character at position `i`.
abbrev pub advance : ℕ → Mark → Scanner → Scanner
advance i mark s =
    if s.in_string
    then (if s.escaped then record s { escaped = false } else inside_string mark s)
    else outside_string i mark s

-- The start of the block that the character ends.
abbrev pub ended_by : Mark → Scanner → Option ℕ
ended_by Mark.closing s = if s.in_string then none else if s.depth == 1 then s.start else none
ended_by _ s = none

-- `cleaned[i:j]`
abbrev pub slice : Text → ℕ → ℕ → Text
slice t i j = take (j - i) (drop i t)

unfoldable pub scan : Text → ℕ → Scanner → Text → Option Text
scan cleaned i s [] = none
scan cleaned i s (c ∷ rest) =
    let mark = mark_of c in
    let later = scan cleaned (i + 1) (advance i mark s) rest in
    elim (ended_by mark s) [ some k ↦ some (slice cleaned k (i + 1)) | none ↦ later ]

abbrev pub beginning : Scanner
beginning = record { depth = 0; start = none; in_string = false; escaped = false }

-- `_extract_json_block`; of the empty text there is none.
unfoldable pub extract_json_block : Text → Option Text
unfolding scan remove_fences
extract_json_block t = let cleaned = remove_fences t in scan cleaned 0 beginning cleaned
