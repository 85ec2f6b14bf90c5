-- ===== src/Schedules/Receipts.antt =====
-- dispatcher/src/scheduler/repository.ts: the patterns of receipts, credentials and decision codes.
-- A pattern is the list of what each of its characters may be.
use Prim.Native.Char.{Char, code}
use dona.Prelude.{
  ◌≡◌, refl, ℕ, String, Bool, true, false, not, ◌&&◌, ◌||◌, List, [], ◌∷◌, ◌++◌, Option, none, some,
  leb, ◌==◌, ◌+◌, if◌then◌else◌, zero, suc,
}

abbrev pub Class : Type 0
Class = Char → Bool

abbrev pub between : ℕ → ℕ → ℕ → Bool
between low high c = leb low c && leb c high

-- The flag `i`: a capital stands for its small letter.
abbrev pub lower : ℕ → ℕ
lower c = if between 65 90 c then c + 32 else c

abbrev letter : Class
letter c = between 97 122 (lower (code c))

abbrev pub alphanumeric : Class
alphanumeric c = letter c || between 48 57 (code c)

abbrev with_underscore : Class
with_underscore c = alphanumeric c || code c == 95

abbrev with_dash : Class
with_dash c = with_underscore c || code c == 45

abbrev one_of_pousr : Class
one_of_pousr c = let n = lower (code c) in n == 112 || n == 111 || n == 117 || n == 115 || n == 114

abbrev repeat : ℕ → Class → List Class
repeat zero c = []
repeat (suc n) c = c ∷ repeat n c

-- The characters of a text that has no capital.
unfoldable literal : String → List Class
literal String.[] = []
literal (String.◌∷◌ c s) = (λ d. lower (code d) == code c) ∷ literal s

unfoldable starts : List Class → String → Bool
starts [] s = true
starts (c ∷ cs) String.[] = false
starts (c ∷ cs) (String.◌∷◌ d s) = let rest = starts cs s in c d && rest

unfoldable occurs : List Class → String → Bool
unfolding starts
occurs p String.[] = starts p String.[]
occurs p (String.◌∷◌ c s) = let rest = occurs p s in starts p (String.◌∷◌ c s) || rest

unfoldable any_occurs : List (List Class) → String → Bool
unfolding occurs
any_occurs [] s = false
any_occurs (p ∷ ps) s = occurs p s || any_occurs ps s

-- `{8,}` at the end of a pattern that may stand anywhere asks for eight.
abbrev credential_patterns : List (List Class)
credential_patterns =
    (literal "xox" ++ letter ∷ literal "-")
    ∷ literal "xapp-"
    ∷ literal "http://hooks.slack.com/services/"
    ∷ literal "https://hooks.slack.com/services/"
    ∷ (literal "gh" ++ one_of_pousr ∷ literal "_" ++ repeat 8 alphanumeric)
    ∷ (literal "github_pat_" ++ repeat 8 with_underscore)
    ∷ (literal "sk-" ++ repeat 8 with_dash)
    ∷ (literal "sk-proj-" ++ repeat 8 with_dash)
    ∷ []

unfoldable pub has_credential_pattern : String → Bool
unfolding literal any_occurs
has_credential_pattern s = any_occurs credential_patterns s

unfoldable count_all : Class → String → Option ℕ
count_all p String.[] = some 0
count_all p (String.◌∷◌ c s) =
    let rest = count_all p s in
    if p c then elim rest [ none ↦ none | some n ↦ some (n + 1) ] else none

abbrev is_count : ℕ → ℕ → Option ℕ → Bool
is_count least most none = false
is_count least most (some n) = leb least n && leb n most

abbrev in_receipt : Class
in_receipt c = with_dash c || code c == 46 || code c == 58

-- `validateReceipt`
unfoldable pub is_receipt : String → Bool
unfolding count_all has_credential_pattern
is_receipt s = is_count 1 160 (count_all in_receipt s) && not (has_credential_pattern s)

abbrev in_code : Class
in_code c = between 97 122 (code c) || between 48 57 (code c) || code c == 95

-- /^[a-z][a-z0-9_]{0,79}$/
unfoldable is_code : String → Bool
unfolding count_all
is_code String.[] = false
is_code (String.◌∷◌ c s) = between 97 122 (code c) && is_count 0 79 (count_all in_code s)

-- A decision code that has another shape is written as "other".
unfoldable pub decision_code : String → String
unfolding is_code
decision_code s = if is_code s then s else "other"

finds_token : has_credential_pattern "a xoxB-1" ≡ true
unfolding has_credential_pattern literal any_occurs occurs starts
finds_token = refl

takes_timestamp : is_receipt "1700000000.000100" ≡ true
unfolding is_receipt has_credential_pattern literal any_occurs occurs starts count_all
takes_timestamp = refl
