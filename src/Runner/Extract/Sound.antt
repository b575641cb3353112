-- ===== src/Runner/Extract/Sound.antt =====
-- What `_extract_json_block` finds.
use Prim.Native.Char.{Char}
use gp_portal.Base.{
  ◌≡◌, ◌∙◌, ap, sym, subst, ℕ, ◌+◌, true, false, none, some, [], ◌∷◌, ◌++◌, length, arith,
}
use gp_portal.Runner.Extract.{Text, Mark, mark_of, scan, slice, extract_json_block, remove_fences}
use gp_portal.Runner.Extract.Grammar.{IsBlock}
use gp_portal.Runner.Extract.Steps.{
  scan-plain, scan-quote, scan-first, scan-escaped, scan-escape, scan-unquote, scan-letter,
  scan-unopened,
}
use gp_portal.Runner.Extract.First.{slice-part, zero_add}
use gp_portal.Runner.Extract.Nest.{
  Nest, Place, out, within, at_place, Suffix, plain, quote, opening, closing, Kind-of, ends,
  escapes, letter, LetterKind-of,
}
use gp_portal.Runner.Extract.Ending.{Ending, scan-Ending}

module _ (cl : Text) where
  -- What a search from outside of every block finds is a block of what is left.
  record Located (i : ℕ) (rest found : Text) : Type 0 where
    front : Text
    block : Text
    tail : Text
    split : rest ≡ front ++ (block ++ tail)
    part : IsBlock block
    cut : found ≡ slice cl (i + length front) (i + length front + length block)

  Located-step :
      (i : ℕ) (c : Char) (rest found : Text)
      → Located (i + 1) rest found
      → Located i (c ∷ rest) found
  Located-step i c rest found h = record {
    front = c ∷ h.front;
    block = h.block;
    tail = h.tail;
    split = ap (λ r. c ∷ r) h.split;
    part = h.part;
    cut = h.cut ∙ ap (λ n. slice cl n (n + length h.block)) (omega arith);
  }

  Nest-IsBlock : (o : Char) (t : Text) → mark_of o ≡ Mark.opening → Nest 1 t → IsBlock (o ∷ t)
  unfolding Nest
  Nest-IsBlock o t m (inner, c, behind, whole, closes, h, last) = record {
    opener = o;
    inner = inner;
    closer = c;
    opens = m;
    closes = closes;
    whole = ap (λ r. o ∷ r) (whole ∙ ap (λ r. inner ++ c ∷ r) last);
    balanced = h;
  }

  Ending-Located :
      (i : ℕ) (c : Char) (rest found : Text)
      → mark_of c ≡ Mark.opening
      → Ending cl (Suffix out 1) i (i + 1) rest found
      → Located i (c ∷ rest) found
  unfolding Suffix
  Ending-Located i c rest found m h = record {
    front = [];
    block = c ∷ h.body;
    tail = h.tail;
    split = ap (λ r. c ∷ r) h.split;
    part = Nest-IsBlock c h.body m h.part;
    cut = h.cut ∙ ends (omega arith) (omega arith);
  }
    where
      ends : {a b a' b' : ℕ} → a ≡ a' → b ≡ b' → slice cl a b ≡ slice cl a' b'
      ends p q = cc

  scan-Located :
      (p : Place) (rest : Text) (i : ℕ) (found : Text)
      → scan cl i (at_place p 0 none) rest ≡ some found
      → Located i rest found
  unfolding at_place scan
  scan-Located out [] i found e = cc
  scan-Located (within b) [] i found e = cc
  scan-Located out (c ∷ rest) i found e = elim (Kind-of c) [
    | plain m ↦
        Located-step i c rest found
          (scan-Located out rest (i + 1) found (sym (scan-plain cl i 0 none c rest m) ∙ e))
    | quote m ↦
        Located-step i c rest found (
          scan-Located (within false) rest (i + 1) found
            (sym (scan-quote cl i 0 none c rest m) ∙ e))
    | opening m ↦
        Ending-Located i c rest found m
          (scan-Ending cl out rest (i + 1) 0 i found (sym (scan-first cl i none c rest m) ∙ e))
    | closing m ↦
        Located-step i c rest found
          (scan-Located out rest (i + 1) found (sym (scan-unopened cl i c rest m) ∙ e))
  ]
  scan-Located (within true) (c ∷ rest) i found e =
      Located-step i c rest found
        (scan-Located (within false) rest (i + 1) found (sym (scan-escaped cl i 0 none c rest) ∙ e))
  scan-Located (within false) (c ∷ rest) i found e = elim (LetterKind-of c) [
    | ends m ↦
        Located-step i c rest found
          (scan-Located out rest (i + 1) found (sym (scan-unquote cl i 0 none c rest m) ∙ e))
    | escapes m ↦
        Located-step i c rest found (
          scan-Located (within true) rest (i + 1) found
            (sym (scan-escape cl i 0 none c rest m) ∙ e))
    | letter q b ↦ Located-step i c rest found (
        scan-Located (within false) rest (i + 1) found
          (sym (scan-letter cl i 0 none c rest q b) ∙ e))
  ]

found-part :
    (cl found front b tail : Text)
    → cl ≡ front ++ (b ++ tail)
    → found ≡ slice cl (0 + length front) (0 + length front + length b)
    → b ≡ found
found-part cl found front b tail split cut = sym (
    cut
    ∙ ap (λ n. slice cl n (n + length b)) (zero_add (length front))
    ∙ ap (λ c. slice c (length front) (length front + length b)) split
    ∙ slice-part front b tail)

-- What is found is a block, a part of the text without its fences.
pub record Part (whole found : Text) : Type 0 where
  pub front : Text
  pub back : Text
  pub split : whole ≡ front ++ (found ++ back)
  pub block : IsBlock found

-- A block that the search finds stands in the text without its fences, begins and ends with a brace, and its
-- braces and strings match within.
pub extract_json_block-Part :
    (t found : Text) → extract_json_block t ≡ some found → Part (remove_fences t) found
unfolding extract_json_block at_place
extract_json_block-Part t found e =
    let cl = remove_fences t in
    let h = scan-Located cl out cl 0 found e in
    let same : h.block ≡ found = found-part cl found h.front h.block h.tail h.split h.cut in
    record {
      front = h.front;
      back = h.tail;
      split = h.split ∙ ap (λ b. h.front ++ (b ++ h.tail)) same;
      block = subst IsBlock same h.part;
    }
