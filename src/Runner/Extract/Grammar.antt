-- ===== src/Runner/Extract/Grammar.antt =====
-- The blocks that the search for JSON in a relay is about: braces that match, where braces within
-- a string of JSON do not count.
use Prim.Native.Char.{Char}
use gp_portal.Base.{◌≡◌, ◌≢◌, ◌⊎◌, [], ◌∷◌, ◌++◌}
use gp_portal.Runner.Extract.{Text, Mark, mark_of}

-- What stands behind an opening quote, up to the closing one: a backslash takes the next character with it.
pub data StringBody : Text → Type 0 where
  close : (q : Char) → mark_of q ≡ Mark.quote → StringBody (q ∷ [])
  escape :
      (b c : Char) (t : Text) → mark_of b ≡ Mark.backslash → StringBody t → StringBody (b ∷ c ∷ t)
  letter :
      (c : Char) (t : Text)
      → mark_of c ≢ Mark.quote
      → mark_of c ≢ Mark.backslash
      → StringBody t
      → StringBody (c ∷ t)

-- Outside strings only quotes and braces matter.
abbrev pub IsPlain : Char → Type 0
IsPlain c = (mark_of c ≡ Mark.other) ⊎ (mark_of c ≡ Mark.backslash)

-- Strings that end, braces that match, and other characters.
pub data Inner : Text → Type 0 where
  nothing : Inner []
  plain : (c : Char) (t : Text) → IsPlain c → Inner t → Inner (c ∷ t)
  quoted :
      (q : Char) (body t : Text)
      → mark_of q ≡ Mark.quote
      → StringBody body
      → Inner t
      → Inner (q ∷ body ++ t)
  nested :
      (o : Char) (inner : Text) (c : Char) (t : Text)
      → mark_of o ≡ Mark.opening
      → mark_of c ≡ Mark.closing
      → Inner inner
      → Inner t
      → Inner (o ∷ inner ++ c ∷ t)

pub record IsBlock (t : Text) : Type 0 where
  pub opener : Char
  pub inner : Text
  pub closer : Char
  pub opens : mark_of opener ≡ Mark.opening
  pub closes : mark_of closer ≡ Mark.closing
  pub whole : t ≡ opener ∷ inner ++ closer ∷ []
  pub balanced : Inner inner
