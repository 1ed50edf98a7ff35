-- ===== src/Gateway/Http.antt =====
-- What the proxy uses of the crates `http` and `hyper`: header maps, the parsers of names, values
-- and URIs. The laws are the documented behaviour of `HeaderMap`, for names in their canonical,
-- lower-case form, and of several values under one name for the first.
use cuartel.Common.{◌≡◌, ◌≢◌, Option, none, some, List, String}
use cuartel.Common.{true, any, str_eq}

pub data Result {ℓ} (A : Type ℓ) : Type ℓ where
  ok : A → Result A
  err : String → Result A

infixl 5 ◌>>=◌
abbrev pub ◌>>=◌ {ℓ κ} : {A : Type ℓ} {B : Type κ} → Result A → (A → Result B) → Result B
ok a >>= f = f a
err e >>= f = err e

-- `ok_or_else` and `with_context`: a missing value is an error with this text.
abbrev pub ok_or {ℓ} : {A : Type ℓ} → Option A → String → Result A
ok_or none e = err e
ok_or (some a) e = ok a

pub record HttpLib : Type 1 where
  pub Headers : Type 0
  -- The text of a header, if it is there and is visible ASCII.
  pub get : Headers → String → Option String
  pub keys : Headers → List String
  pub insert : Headers → String → String → Headers
  pub remove : Headers → String → Headers
  pub parse_uri : String → Option String
  pub parse_name : String → Option String
  pub parse_value : String → Option String

-- `insert` puts one value in place of all, `remove` takes all away, and `keys` lists every name.
pub record HttpLaws (lib : HttpLib) : Type 0 where
  pub get-insert : (h : lib.Headers) (n v : String) → lib.get (lib.insert h n v) n ≡ some v
  pub insert_other :
      (h : lib.Headers) (m n v : String) → m ≢ n → lib.get (lib.insert h n v) m ≡ lib.get h m
  pub get-remove : (h : lib.Headers) (n : String) → lib.get (lib.remove h n) n ≡ none
  pub remove_other :
      (h : lib.Headers) (m n : String) → m ≢ n → lib.get (lib.remove h n) m ≡ lib.get h m
  pub get-keys :
      (h : lib.Headers) (n v : String)
      → lib.get h n ≡ some v
      → any (λ k. str_eq k n) (lib.keys h) ≡ true
