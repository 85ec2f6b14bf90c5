-- ===== src/Schedules/Texts.antt =====
-- dispatcher/src/scheduler/repository.ts: the checks of identifiers, and the texts built from them.
use Prim.Native.Char.{Char, code}
use dona.Prelude.{
  ◌≡◌, refl, ℕ, String, Bool, true, false, ◌&&◌, ◌||◌, Option, none, some, ltb, leb, ◌==◌, ◌+◌,
  if◌then◌else◌,
}
use dona.Exec.{Exec, require}
use dona.Schedules.Rows.{Tables}

abbrev between : ℕ → ℕ → ℕ → Bool
between low high c = leb low c && leb c high

abbrev is_digit : Char → Bool
is_digit c = between 48 57 (code c)

abbrev is_word : Char → Bool
is_word c =
    is_digit c
    || between 65 90 (code c)
    || between 97 122 (code c)
    || code c == 95
    || code c == 58
    || code c == 45

-- The number of characters of a text that passes the test, or nothing.
unfoldable count_all : (Char → Bool) → String → Option ℕ
count_all p String.[] = some 0
count_all p (String.◌∷◌ c s) =
    let rest = count_all p s in
    if p c then elim rest [ none ↦ none | some n ↦ some (n + 1) ] else none

abbrev one_to : ℕ → Option ℕ → Bool
one_to most none = false
one_to most (some n) = ltb 0 n && leb n most

-- /^[A-Za-z0-9_:-]{1,160}$/
unfoldable pub is_identity : String → Bool
unfolding count_all
is_identity s = one_to 160 (count_all is_word s)

unfoldable pub check_id : String → Exec String Tables Unit
unfolding is_identity
check_id s = require (is_identity s) "invalid_identity"

abbrev pub opt_identity : Option String → Bool
opt_identity none = true
opt_identity (some s) = is_identity s

-- /:\d+$/ at the start of a text.
abbrev is_revision_suffix : String → Bool
is_revision_suffix String.[] = false
is_revision_suffix (String.◌∷◌ c s) =
    code c == 58 && elim (count_all is_digit s) [ none ↦ false | some n ↦ ltb 0 n ]

-- `.replace(/:\d+$/, "")`
unfoldable pub strip_revision : String → String
unfolding count_all
strip_revision String.[] = String.[]
strip_revision (String.◌∷◌ c s) =
    let rest = strip_revision s in
    if is_revision_suffix (String.◌∷◌ c s) then String.[] else String.◌∷◌ c rest

-- Whether a text starts with another.
unfoldable pub starts_with : String → String → Bool
starts_with String.[] s = true
starts_with (String.◌∷◌ c p) String.[] = false
starts_with (String.◌∷◌ c p) (String.◌∷◌ d s) =
    let rest = starts_with p s in code c == code d && rest

-- The order of texts in a column: by their characters.
unfoldable pub text_leb : String → String → Bool
text_leb String.[] s = true
text_leb (String.◌∷◌ c p) String.[] = false
text_leb (String.◌∷◌ c p) (String.◌∷◌ d s) =
    let rest = text_leb p s in
    if ltb (code c) (code d) then true else (if code c == code d then rest else false)

strips : strip_revision "ab:c:12" ≡ "ab:c"
unfolding strip_revision count_all
strips = refl

identity_ok : is_identity "run_a:1-Z" ≡ true
unfolding is_identity count_all
identity_ok = refl
