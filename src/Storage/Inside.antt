-- ===== src/Storage/Inside.antt =====
-- Where the paths of `LocalStorage._path` lead, and how long its links hold.
use Prim.Native.Char.{Char, code}
use gp_portal.Base.{
  ◌≡◌, refl, ℕ, ◌+◌, String, false, [], ◌∷◌, ◌++◌, leb, str_eq, eq_iff, any, arith, if◌then◌else◌,
  List,
}
use gp_portal.Storage.{KeyPath, Signing, sign_local_url, verify_local_signature}

-- The directory that a path leads to from another one, the innermost name first: `..` leads out of
-- it, and a path that begins with "/" starts at the root of the disk.
abbrev pub parent : KeyPath → KeyPath
parent [] = []
parent (d ∷ ds) = ds

unfoldable pub walk : KeyPath → KeyPath → KeyPath
walk here [] = here
walk here (name ∷ names) =
    if str_eq "/" name
    then walk [] names
    else if str_eq ".." name
    then walk (parent here) names
    else walk (name ∷ here) names

-- The directory lies in the other one.
abbrev pub LiesIn : KeyPath → KeyPath → Type 0
LiesIn root d = (inner : KeyPath) × (d ≡ inner ++ root)

-- A text whose parts the slashes separate has no part that is a slash.
IsParted : String × List String → Type 0
IsParted x = (str_eq "/" x.0 ≡ false) × (any (str_eq "/") x.1 ≡ false)

first_code : String → ℕ
first_code String.[] = 0
first_code (String.◌∷◌ c s) = code c

-- A link that was signed for a number of seconds is accepted up to its end, and not after it.
pub verify_local_signature-until :
    (s : Signing) (now ttl later : ℕ) (key secret : String)
    → verify_local_signature s later
        (sign_local_url s key (now + ttl) secret)
        key
        (now + ttl)
        secret
      ≡ leb later (now + ttl)
unfolding verify_local_signature
verify_local_signature-until s now ttl later key secret =
    let same =
      (eq_iff (sign_local_url s key (now + ttl) secret) (sign_local_url s key (now + ttl) secret)).1
        refl in
    ground arith
