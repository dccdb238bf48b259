-- ===== src/Prelude/Texts.antt =====
-- Texts: `String` is Go's string; a length and a position count bytes of the UTF-8, as in Go.
use Prim.Native.Char.{code}
use Prim.Native.String
use Prim.Native.String.{String}
use mathlib.Core.Path.{◌≡◌}
use mathlib.Core.Bool.{Bool, true, ◌||◌}
use mathlib.Core.Option.{Option, none, some}
use mathlib.Core.List.{List, [], ◌∷◌}
use native.Mathlib.Omega.{arith}
use text.Mathlib.Text.{◌==◌ as text_eq, starts_with}
use text.Mathlib.TextEquality.{eq_iff}
use building_block_runner.Prelude.Tests.{◌==◌, if◌then◌else◌}

abbrev pub str_eq : String → String → Bool
str_eq = text_eq

pub str_eq_iff : (s t : String) → (str_eq s t ≡ true → s ≡ t) × (s ≡ t → str_eq s t ≡ true)
str_eq_iff s t = eq_iff s t

-- `s + t`
infixr 65 ◌<>◌
abbrev pub ◌<>◌ : String → String → String
s <> t = String.◌++◌ s t

abbrev pub is_empty : String → Bool
is_empty s = str_eq s ""

-- `cmp.Or`: the first that is not the empty text.
abbrev pub first_set : String → String → String
first_set a b = if is_empty a then b else a

abbrev pub has_prefix : String → String → Bool
has_prefix s p = starts_with s p

-- `strings.HasSuffix`
unfoldable pub has_suffix : String → String → Bool
has_suffix String.[] t = is_empty t
has_suffix (String.◌∷◌ c s) t = str_eq (String.◌∷◌ c s) t || has_suffix s t

-- `strings.Contains`
unfoldable pub contains : String → String → Bool
contains String.[] t = is_empty t
contains (String.◌∷◌ c s) t = has_prefix (String.◌∷◌ c s) t || contains s t

-- `strings.TrimLeft(s, "/")`
unfoldable pub trim_left_slashes : String → String
trim_left_slashes String.[] = ""
trim_left_slashes (String.◌∷◌ c s) = if code c == b'/' then trim_left_slashes s else String.◌∷◌ c s

-- `strings.Join`
unfoldable pub join : String → List String → String
join sep [] = ""
join sep (s ∷ []) = s
join sep (s ∷ t ∷ r) = s <> sep <> join sep (t ∷ r)

-- A Go map as an association list; its order is the order in which one iteration meets the keys.
module _ {ℓ} {V : Type ℓ} where
  -- `m[key] = value`
  unfoldable pub insert : String → V → List (String × V) → List (String × V)
  insert key value [] = (key, value) ∷ []
  insert key value (entry ∷ rest) =
      if str_eq entry.0 key then (key, value) ∷ rest else entry ∷ insert key value rest

  -- `m[key]`, `none` where it is not there.
  unfoldable pub lookup : String → List (String × V) → Option V
  lookup key [] = none
  lookup key (entry ∷ rest) = if str_eq entry.0 key then some entry.1 else lookup key rest

  -- A read after a write.
  pub lookup-insert :
      (written read : String) (value : V) (entries : List (String × V))
      → lookup read (insert written value entries)
        ≡ (if str_eq written read then some value else lookup read entries)
  unfolding lookup insert
  lookup-insert written read value [] = ground arith
  lookup-insert written read value (entry ∷ rest) =
      let same = eq_iff entry.0 written in
      ground (
        arith,
        lookup-insert written read value rest,
        same,
        eq_iff entry.0 read,
        eq_iff written read,
      )
