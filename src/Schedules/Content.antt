-- ===== src/Schedules/Content.antt =====
-- dispatcher/src/scheduler/repository.ts: what a body or a result may not hold, and its length.
use Prim.Native.Char.{code}
use Prim.Native.String
use dona.Prelude.{
  ◌≡◌, refl, ℕ, String, Bool, true, false, not, ◌&&◌, ◌||◌, List, [], ◌∷◌, ◌++◌, Option, none, some,
  leb, ◌==◌, ◌+◌, if◌then◌else◌, zero, suc,
}
use dona.Schedules.Receipts.{Class, alphanumeric, lower, between, has_credential_pattern}

-- A piece of a pattern: one character, one that may be missing, or any number of them.
pub data Piece : Type 0 where
  one : Class → Piece
  maybe : Class → Piece
  many : Class → Piece

unfoldable skips : (String → Bool) → Class → String → Bool
skips f c String.[] = f String.[]
skips f c (String.◌∷◌ d s) = let rest = skips f c s in f (String.◌∷◌ d s) || c d && rest

unfoldable starts : List Piece → String → Bool
unfolding skips
starts [] s = true
starts (one c ∷ ps) String.[] = false
starts (one c ∷ ps) (String.◌∷◌ d s) = let rest = starts ps s in c d && rest
starts (maybe c ∷ ps) String.[] = starts ps String.[]
starts (maybe c ∷ ps) (String.◌∷◌ d s) =
    let without = starts ps (String.◌∷◌ d s) in let rest = starts ps s in without || c d && rest
starts (many c ∷ ps) s = skips (starts ps) c s

unfoldable occurs : List Piece → String → Bool
unfolding starts
occurs p String.[] = starts p String.[]
occurs p (String.◌∷◌ c s) = let rest = occurs p s in starts p (String.◌∷◌ c s) || rest

unfoldable any_occurs : List (List Piece) → String → Bool
unfolding occurs
any_occurs [] s = false
any_occurs (p ∷ ps) s = occurs p s || any_occurs ps s

-- The characters of a text that has no capital, in either case.
unfoldable literal : String → List Piece
literal String.[] = []
literal (String.◌∷◌ c s) = one (λ d. lower (code d) == code c) ∷ literal s

abbrev not_close : Class
not_close c = not (code c == 62)

abbrev separator : Class
separator c = code c == 95 || code c == 32 || code c == 45

abbrev quote : Class
quote c = code c == 34 || code c == 39

abbrev colon_or_equals : Class
colon_or_equals c = code c == 58 || code c == 61

abbrev small_s : Class
small_s c = lower (code c) == 115

-- `\s`
abbrev space : Class
space c =
    between 9 13 (code c)
    || code c == 32
    || code c == 160
    || code c == 5760
    || between 8192 8202 (code c)
    || between 8232 8233 (code c)
    || code c == 8239
    || code c == 8287
    || code c == 12288
    || code c == 65279

abbrev not_space : Class
not_space c = not (space c)

-- A name that is followed by a value.
abbrev named : List Piece → List Piece
named name = name ++ maybe quote ∷ many space ∷ one colon_or_equals ∷ []

abbrev link_to : List Piece → List Piece
link_to end = literal "http" ++ maybe small_s ∷ (literal "://" ++ many not_space ∷ end)

unfoldable sensitive_patterns : List (List Piece)
unfolding literal
sensitive_patterns =
    literal "-----begin private key-----"
    ∷ literal "-----begin openssh private key-----"
    ∷ literal "-----begin rsa private key-----"
    ∷ literal "-----begin ec private key-----"
    ∷ literal "-----begin dsa private key-----"
    ∷ literal "<!channel>"
    ∷ literal "<!here>"
    ∷ literal "<!everyone>"
    ∷ (literal "<!subteam^" ++ one alphanumeric ∷ many alphanumeric ∷ literal ">")
    ∷ (literal "<!subteam^"
        ++ one alphanumeric
          ∷ many alphanumeric
          ∷ (literal "|" ++ one not_close ∷ many not_close ∷ literal ">"))
    ∷ (literal "<@" ++ one alphanumeric ∷ many alphanumeric ∷ literal ">")
    ∷ named (literal "token")
    ∷ named (literal "password")
    ∷ named (literal "secret")
    ∷ named (literal "api" ++ maybe separator ∷ literal "key")
    ∷ named (literal "access" ++ maybe separator ∷ literal "key")
    ∷ named (literal "private" ++ maybe separator ∷ literal "key")
    ∷ named (literal "credential")
    ∷ link_to (literal "token=")
    ∷ link_to (literal "signature=")
    ∷ link_to (literal "files.slack.com")
    ∷ []

unfoldable pub has_sensitive_content_pattern : String → Bool
unfolding sensitive_patterns any_occurs
has_sensitive_content_pattern s = any_occurs sensitive_patterns s

-- `[...value].length`
unfoldable points : String → ℕ
points String.[] = 0
points (String.◌∷◌ c s) = points s + 1

abbrev is_empty : String → Bool
is_empty String.[] = true
is_empty (String.◌∷◌ c s) = false

-- `safeContent`
unfoldable pub is_safe : String → ℕ → Bool
unfolding points has_sensitive_content_pattern has_credential_pattern
is_safe s limit =
    not (is_empty s)
    && leb (points s) limit
    && not (has_credential_pattern s)
    && not (has_sensitive_content_pattern s)

unfoldable first_points : ℕ → String → String
first_points zero s = String.[]
first_points (suc n) String.[] = String.[]
first_points (suc n) (String.◌∷◌ c s) = String.◌∷◌ c (first_points n s)

-- `truncateResultContent`, or nothing where it throws.
unfoldable pub truncate_result_content : String → Option String
unfolding points has_sensitive_content_pattern has_credential_pattern first_points
truncate_result_content s =
    if is_empty s || has_credential_pattern s || has_sensitive_content_pattern s
    then none
    else (if leb (points s) 2000 then some s else some (String.◌++◌ (first_points 1999 s) "…"))

unfoldable pub is_blank : String → Bool
is_blank String.[] = true
is_blank (String.◌∷◌ c s) = let rest = is_blank s in space c && rest

finds_key : has_sensitive_content_pattern "my API-key\" = x" ≡ true
unfolding has_sensitive_content_pattern sensitive_patterns literal any_occurs occurs starts skips
finds_key = refl

finds_link : has_sensitive_content_pattern "see https://a.b/c?token=1" ≡ true
unfolding has_sensitive_content_pattern sensitive_patterns literal any_occurs occurs starts skips
finds_link = refl
