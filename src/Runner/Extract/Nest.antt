-- ===== src/Runner/Extract/Nest.antt =====
-- What closes the braces of a block, seen from within it, and the kinds of a character.
use Prim.Native.Char.{Char}
use mathlib.Core.List.{append_assoc}
use gp_portal.Base.{
  ◌≡◌, ◌≢◌, ◌∙◌, ap, refl, sym, ℕ, zero, suc, Bool, true, false, Option, [], ◌∷◌, ◌++◌, inl, inr,
}
use gp_portal.Runner.Extract.{Text, Mark, mark_of, Scanner}
use gp_portal.Runner.Extract.Grammar.{IsPlain, StringBody, Inner}
use gp_portal.Runner.Extract.Steps.{outside, inside}

-- A text that closes so many braces, with what stands within each of them.
unfoldable pub Nest : ℕ → Text → Type 0
Nest zero t = t ≡ []
Nest (suc d) t =
    (inner : Text) × (c : Char) × (behind : Text) × (t ≡ inner ++ c ∷ behind)
    × (mark_of c ≡ Mark.closing)
    × Inner inner
    × Nest d behind

-- Where the scanner stands: outside of strings, or in one, behind a backslash or not.
pub data Place : Type 0 where
  out : Place
  within : Bool → Place

unfoldable pub at_place : Place → ℕ → Option ℕ → Scanner
at_place out d k = outside d k
at_place (within e) d k = inside d k e

unfoldable pub StringRest : Bool → Text → Type 0
StringRest false t = StringBody t
StringRest true t = (c : Char) × (behind : Text) × (t ≡ c ∷ behind) × StringBody behind

unfoldable pub Suffix : Place → ℕ → Text → Type 0
Suffix out d t = Nest d t
Suffix (within e) d t =
    (string : Text) × (behind : Text) × (t ≡ string ++ behind) × StringRest e string × Nest d behind

pub Nest-plain : (d : ℕ) (c : Char) (t : Text) → IsPlain c → Nest (suc d) t → Nest (suc d) (c ∷ t)
unfolding Nest
Nest-plain d c t p (inner, e, behind, whole, closes, h, rest) =
    (c ∷ inner, e, behind, ap (λ r. c ∷ r) whole, closes, Inner.plain c inner p h, rest)

pub Nest-quoted :
    (d : ℕ) (q : Char) (t : Text)
    → mark_of q ≡ Mark.quote
    → Suffix (within false) (suc d) t
    → Nest (suc d) (q ∷ t)
unfolding Nest Suffix StringRest
Nest-quoted d q t m (string, _, split, body, (inner, e, behind, whole, closes, h, rest)) = (
  q ∷ string ++ inner,
  e,
  behind,
  ap (λ r. q ∷ r)
      (split ∙ ap (λ r. string ++ r) whole ∙ sym (append_assoc string inner (e ∷ behind))),
  closes,
  Inner.quoted q string inner m body h,
  rest,
)

pub Nest-nested :
    (d : ℕ) (o : Char) (t : Text)
    → mark_of o ≡ Mark.opening
    → Nest (suc (suc d)) t
    → Nest (suc d) (o ∷ t)
unfolding Nest
Nest-nested d o t m
      (inner, c, _, whole, closes, h, (inner', c', behind, whole', closes', h', rest)) =
    (
      o ∷ inner ++ c ∷ inner',
      c',
      behind,
      ap (λ r. o ∷ r)
          (whole
            ∙ ap (λ r. inner ++ c ∷ r) whole'
            ∙ sym (append_assoc inner (c ∷ inner') (c' ∷ behind))),
      closes',
      Inner.nested o inner c inner' m closes h h',
      rest,
    )

pub Nest-closing :
    (d : ℕ) (c : Char) (t : Text) → mark_of c ≡ Mark.closing → Nest d t → Nest (suc d) (c ∷ t)
unfolding Nest
Nest-closing d c t m h = ([], c, t, refl, m, Inner.nothing, h)

-- A character by its mark.
pub data Kind (c : Char) : Type 0 where
  plain : IsPlain c → Kind c
  quote : mark_of c ≡ Mark.quote → Kind c
  opening : mark_of c ≡ Mark.opening → Kind c
  closing : mark_of c ≡ Mark.closing → Kind c

Kind-at : (c : Char) (m : Mark) → mark_of c ≡ m → Kind c
Kind-at c Mark.other e = plain (inl e)
Kind-at c Mark.backslash e = plain (inr e)
Kind-at c Mark.quote e = quote e
Kind-at c Mark.opening e = opening e
Kind-at c Mark.closing e = closing e

pub Kind-of : (c : Char) → Kind c
Kind-of c = Kind-at c (mark_of c) refl

-- The same within a string.
pub data LetterKind (c : Char) : Type 0 where
  ends : mark_of c ≡ Mark.quote → LetterKind c
  escapes : mark_of c ≡ Mark.backslash → LetterKind c
  letter : mark_of c ≢ Mark.quote → mark_of c ≢ Mark.backslash → LetterKind c

LetterKind-at : (c : Char) (m : Mark) → mark_of c ≡ m → LetterKind c
LetterKind-at c Mark.other e = letter (λ q. cc) (λ b. cc)
LetterKind-at c Mark.backslash e = escapes e
LetterKind-at c Mark.quote e = ends e
LetterKind-at c Mark.opening e = letter (λ q. cc) (λ b. cc)
LetterKind-at c Mark.closing e = letter (λ q. cc) (λ b. cc)

pub LetterKind-of : (c : Char) → LetterKind c
LetterKind-of c = LetterKind-at c (mark_of c) refl

pub escaped-StringBody :
    (d : ℕ) (b : Char)
    → mark_of b ≡ Mark.backslash
    → (t : Text) → Suffix (within true) (suc d) t
    → Suffix (within false) (suc d) (b ∷ t)
unfolding Suffix StringRest
escaped-StringBody d b m t (string, behind, split, (c, str, e, h), nest) = (
  b ∷ c ∷ str,
  behind,
  ap (λ r. b ∷ r) (split ∙ ap (λ r. r ++ behind) e),
  StringBody.escape b c str m h,
  nest,
)
