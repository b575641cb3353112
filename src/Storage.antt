-- ===== src/Storage.antt =====
-- The paths and the links of the storage on a local disk: jump_storage/jump_storage/local.py. A path
-- is the list of its names; one that stands at the root of the disk begins with "/". What the
-- operating system does with a path is not modelled.
pub mod Inside
use Prim.Native.Char.{Char, code}
use Prim.Native.String.{◌++◌}
use gp_portal.Base.{
  ℕ, ◌+◌, String, Bool, true, false, not, ◌&&◌, Option, none, some, List, [], ◌∷◌, ◌==◌, ltb,
  str_eq, any, find, where_, is_some, if◌then◌else◌,
}

abbrev pub KeyPath : Type 0
KeyPath = List String

-- `key.replace("\\", "/").lstrip("/")`
abbrev pub forward : String → String
forward String.[] = ""
forward (String.◌∷◌ c s) = let rest = forward s in String.◌∷◌ (if code c == 92 then "/" else c) rest

abbrev pub strip_left : String → String
strip_left String.[] = ""
strip_left (String.◌∷◌ c s) = if code c == 47 then strip_left s else String.◌∷◌ c s

-- The names between the slashes, the first one apart.
abbrev pub split : String → String × List String
split String.[] = ("", [])
split (String.◌∷◌ c s) =
    let (name, names) = split s in
    if code c == 47 then ("", name ∷ names) else (String.◌∷◌ c name, names)

abbrev pub is_name : String → Bool
is_name s = not (str_eq s "") && not (str_eq s ".")

abbrev pub is_absolute : String → Bool
is_absolute String.[] = false
is_absolute (String.◌∷◌ c s) = code c == 47

-- `Path(clean).parts`: empty names and single dots are no parts; a slash in front is one.
abbrev pub names_of : String → KeyPath
names_of s = let (name, names) = split s in where_ is_name (name ∷ names)

abbrev pub parts : String → KeyPath
parts s = if is_absolute s then "/" ∷ names_of s else names_of s

-- `LocalStorage._path`
unfoldable pub path_of : String → Option KeyPath
path_of key =
    let clean = parts (strip_left (forward key)) in
    if any (str_eq "..") clean then none else some clean

-- A link to a file: `hexdigest` is HMAC-SHA256 in hex, `show` prints a number and `quote` a key.
pub record Signing : Type 0 where
  pub hexdigest : String → String → String
  pub show : ℕ → String
  pub quote : String → String
  pub signing_secret : String
  pub base_url : String

module _ (s : Signing) where
  -- `sign_local_url`
  abbrev pub sign_local_url : String → ℕ → String → String
  sign_local_url key exp secret = s.hexdigest secret (key ++ ":" ++ s.show exp)

  -- `verify_local_signature`, at the time `now` in whole seconds.
  unfoldable pub verify_local_signature : ℕ → String → String → ℕ → String → Bool
  verify_local_signature now token key exp secret =
      if ltb exp now then false else str_eq token (sign_local_url key exp secret)

  abbrev pub get_signed_url : ℕ → String → ℕ → String
  get_signed_url now key ttl_seconds =
      let exp = now + ttl_seconds in
      let token = sign_local_url key exp s.signing_secret in
      s.base_url ++ "/files/signed/" ++ token ++ "/" ++ s.show exp ++ "/" ++ s.quote key
