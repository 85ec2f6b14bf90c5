-- ===== src/Prelude/Tests.antt =====
-- Boolean tests on numbers, texts and optional values, and the conditional.
use Prim.Native.Char.{Char, code}
use Prim.Native.Nat.{ℕ, ◌-◌, ◌≤◌, ◌<◌, compare, Ordering}
use Prim.Native.String.{String}
use mathlib.Core.Path.{◌≡◌, refl}
use mathlib.Core.Logic.{◌↔◌, ◌⊎◌, inl, inr}
use mathlib.Core.Bool.{Bool, true, false, not}
use mathlib.Core.Option.{Option, none, some}
use native.Mathlib.Omega.{arith}
use text.Mathlib.Text.{◌==◌ as str_eq}
use text.Mathlib.TextEquality.{eq_iff}

abbrev pub ltb : ℕ → ℕ → Bool
ltb a b = elim (compare a b) [ Ordering.lt ↦ true | _ ↦ false ]

abbrev pub leb : ℕ → ℕ → Bool
leb a b = elim (compare a b) [ Ordering.gt ↦ false | _ ↦ true ]

infix 50 ◌==◌
abbrev pub ◌==◌ : ℕ → ℕ → Bool
a == b = elim (compare a b) [ Ordering.eq ↦ true | _ ↦ false ]

infix 1 if◌then◌else◌
abbrev pub if◌then◌else◌ {ℓ} : {A : Type ℓ} → Bool → A → A → A
if true then x else y = x
if false then x else y = y

pub ltb→lt : (a b : ℕ) → ltb a b ≡ true → a < b
ltb→lt a b h = ground arith

pub lt→ltb : (a b : ℕ) → a < b → ltb a b ≡ true
lt→ltb a b h = ground arith

pub leb→le : (a b : ℕ) → leb a b ≡ true → a ≤ b
leb→le a b h = ground arith

pub Bool-cases : (b : Bool) → (b ≡ true) ⊎ (b ≡ false)
Bool-cases true = inl refl
Bool-cases false = inr refl

pub Option-cases {ℓ} : {A : Type ℓ} (o : Option A) → (o ≡ none) ⊎ ((a : A) × (o ≡ some a))
Option-cases none = inl refl
Option-cases (some a) = inr (a, refl)

-- The answer of a decision, as a test.
abbrev pub is_yes {ℓ} : {P : Type ℓ} → Dec P → Bool
is_yes (yes p) = true
is_yes (no p) = false

decide_by : (b : Bool) (s t : String) → (b ≡ true) ↔ (s ≡ t) → Dec (s ≡ t)
decide_by true s t h = yes (h.0 refl)
decide_by false s t h = no (λ e. absurd (false_ne (h.1 e)))
  where
    false_ne : false ≡ true → ⊥
    false_ne e = ground arith

unfoldable pub text_discrete : Discrete String
unfolding decide_by
text_discrete s t = decide_by (str_eq s t) s t (eq_iff s t)

unfoldable pub opt_text_discrete : Discrete (Option String)
unfolding text_discrete
opt_text_discrete = hlevel text_discrete

-- `===` on texts, and on texts that may be null.
abbrev pub text_eq : String → String → Bool
text_eq s t = is_yes (text_discrete s t)

abbrev pub opt_text_eq : Option String → Option String → Bool
opt_text_eq s t = is_yes (opt_text_discrete s t)

abbrev pub is_none {ℓ} : {A : Type ℓ} → Option A → Bool
is_none none = true
is_none (some a) = false

abbrev pub is_some {ℓ} : {A : Type ℓ} → Option A → Bool
is_some none = false
is_some (some a) = true

-- Whether a nullable column holds this text.
abbrev pub opt_is : String → Option String → Bool
opt_is id none = false
opt_is id (some a) = text_eq a id

text_eq_same : text_eq "ab" "ab" ≡ true
unfolding text_discrete
text_eq_same = refl

opt_text_eq_ne : opt_text_eq (some "ab") (some "abc") ≡ false
unfolding opt_text_discrete
opt_text_eq_ne = refl

-- `text.slice(0, n)`: JavaScript counts a character past U+FFFF as two units. Of a character whose
-- second unit is cut off nothing is kept.
abbrev units : Char → ℕ
units c = if ltb (code c) 0x10000 then 1 else 2

unfoldable pub clip : ℕ → String → String
clip n String.[] = String.[]
clip n (String.◌∷◌ c s) =
    let rest = clip (n - units c) s in if leb (units c) n then String.◌∷◌ c rest else String.[]

clip_cuts : clip 3 "abcde" ≡ "abc"
unfolding clip
clip_cuts = refl

pub none-not-is_some {ℓ} : {A : Type ℓ} (o : Option A) → not (is_some o) ≡ true → o ≡ none
none-not-is_some none h = refl
none-not-is_some (some a) h = cc
