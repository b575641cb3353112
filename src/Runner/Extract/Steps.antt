-- ===== src/Runner/Extract/Steps.antt =====
-- The steps of the loop of `_extract_json_block`, by the character that it meets.
use Prim.Native.Char.{Char}
use mathlib.Core.List.{append_assoc}
use gp_portal.Base.{
  length-append, ◌≡◌, ◌≢◌, ◌∙◌, ap, refl, ℕ, suc, ◌+◌, ◌-◌, Bool, true, false, Option, none, some,
  ◌∷◌, ◌++◌, ◌==◌, length, inl, inr, arith,
}
use gp_portal.Runner.Extract.{Text, Mark, mark_of, ended_by, advance, Scanner, scan, slice}
use gp_portal.Runner.Extract.Grammar.{IsPlain, StringBody, Inner}

-- The scanner outside of strings, and inside one.
abbrev pub outside : ℕ → Option ℕ → Scanner
outside d k = record { depth = d; start = k; in_string = false; escaped = false }

abbrev pub inside : ℕ → Option ℕ → Bool → Scanner
inside d k e = record { depth = d; start = k; in_string = true; escaped = e }

suc_not_zero : (d : ℕ) → (suc d == 0) ≡ false
suc_not_zero d = ground arith

more_than_one : (d : ℕ) → (suc (suc d) == 1) ≡ false
more_than_one d = ground arith

add_one : (d : ℕ) → d + 1 ≡ suc d
add_one d = omega arith

sub_one : (d : ℕ) → suc d - 1 ≡ d
sub_one d = omega arith

module _ (cl : Text) where
  -- What the loop does at position `i`, by the mark of the character there.
  at_mark : ℕ → Scanner → Text → Mark → Option Text
  at_mark i s t m = elim (ended_by m s) [
    | some k ↦ some (slice cl k (i + 1))
    | none ↦ scan cl (i + 1) (advance i m s) t
  ]

  scan-at_mark :
      (i : ℕ) (s : Scanner) (c : Char) (t : Text) {m : Mark}
      → mark_of c ≡ m
      → scan cl i s (c ∷ t) ≡ at_mark i s t m
  unfolding scan at_mark
  scan-at_mark i s c t e = ap (at_mark i s t) e

  pub scan-plain :
      (i d : ℕ) (k : Option ℕ) (c : Char) (t : Text)
      → IsPlain c
      → scan cl i (outside d k) (c ∷ t) ≡ scan cl (i + 1) (outside d k) t
  unfolding at_mark
  scan-plain i d k c t (inl e) = scan-at_mark i _ c t e
  scan-plain i d k c t (inr e) = scan-at_mark i _ c t e

  pub scan-quote :
      (i d : ℕ) (k : Option ℕ) (c : Char) (t : Text)
      → mark_of c ≡ Mark.quote
      → scan cl i (outside d k) (c ∷ t) ≡ scan cl (i + 1) (inside d k false) t
  unfolding at_mark
  scan-quote i d k c t e = scan-at_mark i _ c t e

  pub scan-opening :
      (i d : ℕ) (k : Option ℕ) (c : Char) (t : Text)
      → mark_of c ≡ Mark.opening
      → scan cl i (outside (suc d) k) (c ∷ t) ≡ scan cl (i + 1) (outside (suc (suc d)) k) t
  unfolding at_mark
  scan-opening i d k c t e =
      rw (scan-at_mark i (outside (suc d) k) c t e, suc_not_zero d, add_one (suc d)) refl

  pub scan-first :
      (i : ℕ) (k : Option ℕ) (c : Char) (t : Text)
      → mark_of c ≡ Mark.opening
      → scan cl i (outside 0 k) (c ∷ t) ≡ scan cl (i + 1) (outside 1 (some i)) t
  unfolding at_mark
  scan-first i k c t e = scan-at_mark i _ c t e

  pub scan-closing :
      (i d : ℕ) (k : Option ℕ) (c : Char) (t : Text)
      → mark_of c ≡ Mark.closing
      → scan cl i (outside (suc (suc d)) k) (c ∷ t) ≡ scan cl (i + 1) (outside (suc d) k) t
  unfolding at_mark
  scan-closing i d k c t e =
      rw (scan-at_mark i (outside (suc (suc d)) k) c t e, at_mark, more_than_one d, sub_one (suc d))
        refl

  pub scan-last :
      (i k : ℕ) (c : Char) (t : Text)
      → mark_of c ≡ Mark.closing
      → scan cl i (outside 1 (some k)) (c ∷ t) ≡ some (slice cl k (i + 1))
  unfolding at_mark
  scan-last i k c t e = scan-at_mark i _ c t e

  pub scan-escaped :
      (i d : ℕ) (k : Option ℕ) (c : Char) (t : Text)
      → scan cl i (inside d k true) (c ∷ t) ≡ scan cl (i + 1) (inside d k false) t
  unfolding scan at_mark
  scan-escaped i d k c t =
      elim (mark_of c)
        as (λ m. at_mark i (inside d k true) t m ≡ scan cl (i + 1) (inside d k false) t) [
          | Mark.quote ↦ refl
          | Mark.backslash ↦ refl
          | Mark.opening ↦ refl
          | Mark.closing ↦ refl
          | Mark.other ↦ refl
        ]

  pub scan-escape :
      (i d : ℕ) (k : Option ℕ) (c : Char) (t : Text)
      → mark_of c ≡ Mark.backslash
      → scan cl i (inside d k false) (c ∷ t) ≡ scan cl (i + 1) (inside d k true) t
  unfolding at_mark
  scan-escape i d k c t e = scan-at_mark i _ c t e

  pub scan-unquote :
      (i d : ℕ) (k : Option ℕ) (c : Char) (t : Text)
      → mark_of c ≡ Mark.quote
      → scan cl i (inside d k false) (c ∷ t) ≡ scan cl (i + 1) (outside d k) t
  unfolding at_mark
  scan-unquote i d k c t e = scan-at_mark i _ c t e

  pub scan-letter :
      (i d : ℕ) (k : Option ℕ) (c : Char) (t : Text)
      → mark_of c ≢ Mark.quote
      → mark_of c ≢ Mark.backslash
      → scan cl i (inside d k false) (c ∷ t) ≡ scan cl (i + 1) (inside d k false) t
  unfolding scan at_mark
  scan-letter i d k c t q b =
      (elim (mark_of c)
          as (λ m.
            m ≢ Mark.quote
            → m ≢ Mark.backslash
            → at_mark i (inside d k false) t m ≡ scan cl (i + 1) (inside d k false) t) [
              | Mark.quote ↦ λ q b. elim (q refl) [ ]
              | Mark.backslash ↦ λ q b. elim (b refl) [ ]
              | Mark.opening ↦ λ q b. refl
              | Mark.closing ↦ λ q b. refl
              | Mark.other ↦ λ q b. refl
            ])
        q b

  pub move : (s : Scanner) (t : Text) {i j : ℕ} → i ≡ j → scan cl i s t ≡ scan cl j s t
  move s t e = ap (λ p. scan cl p s t) e

  -- A string is left behind with the position behind it.
  pub scan-string :
      (i d : ℕ) (k : Option ℕ) (body t : Text)
      → StringBody body
      → scan cl i (inside d k false) (body ++ t) ≡ scan cl (i + length body) (outside d k) t
  scan-string i d k _ t (StringBody.close q e) = scan-unquote i d k q t e
  scan-string i d k _ t (StringBody.escape b c body e h) =
      scan-escape i d k b _ e
      ∙ scan-escaped (i + 1) d k c _
      ∙ scan-string (i + 1 + 1) d k body t h
      ∙ move _ t (omega arith)
  scan-string i d k _ t (StringBody.letter c body q b h) =
      scan-letter i d k c _ q b ∙ scan-string (i + 1) d k body t h ∙ move _ t (omega arith)

  -- Within a block the scanner comes back to the state that it was in.
  pub scan-Inner :
      (i d : ℕ) (k : Option ℕ) (inner t : Text)
      → Inner inner
      → scan cl i (outside (suc d) k) (inner ++ t)
        ≡ scan cl (i + length inner) (outside (suc d) k) t
  scan-Inner i d k _ t Inner.nothing = move _ t (omega arith)
  scan-Inner i d k _ t (Inner.plain c s e h) =
      scan-plain i (suc d) k c _ e ∙ scan-Inner (i + 1) d k s t h ∙ move _ t (omega arith)
  scan-Inner i d k _ t (Inner.quoted q body s e str h) =
      rw (append_assoc body s t, length-append body s)
        (scan-quote i (suc d) k q _ e
          ∙ scan-string (i + 1) (suc d) k body (s ++ t) str
          ∙ scan-Inner (i + 1 + length body) d k s t h
          ∙ move _ t (omega arith))
  scan-Inner i d k _ t (Inner.nested o inner c s opens closes h rest) =
      rw (append_assoc inner (c ∷ s) t, length-append inner (c ∷ s))
        (scan-opening i d k o _ opens
          ∙ scan-Inner (i + 1) (suc d) k inner (c ∷ s ++ t) h
          ∙ scan-closing (i + 1 + length inner) d k c (s ++ t) closes
          ∙ scan-Inner (i + 1 + length inner + 1) d k s t rest
          ∙ move _ t (omega arith))

  pub scan-unopened :
      (i : ℕ) (c : Char) (t : Text)
      → mark_of c ≡ Mark.closing
      → scan cl i (outside 0 none) (c ∷ t) ≡ scan cl (i + 1) (outside 0 none) t
  unfolding at_mark
  scan-unopened i c t e = scan-at_mark i (outside 0 none) c t e
