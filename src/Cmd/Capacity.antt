-- ===== src/Cmd/Capacity.antt =====
-- parseCapacity of cmd/init.go. Floating-point numbers, and the reading of numbers, are a parameter.
use Prim.Native.String.{len, slice}
use obsideo_provider.Base.{
  ℕ, ◌-◌, ◌^◌, ◌&&◌, Option, none, some, List, [], ◌∷◌, String, Bool, leb, str_eq, if◌then◌else◌,
}
use obsideo_provider.Base.Int.{ℤ}
use obsideo_provider.Gc.Config.{positive}

-- strings and strconv; the numbers of strconv.ParseFloat, whether one is at most zero, a product with
-- the multiplier of a unit, and the conversion to int64.
pub record CapacityCodec (F : Type 0) : Type 0 where
  pub trim_space : String → String
  pub to_upper : String → String
  pub parse_float : String → Option F
  pub at_most_zero : F → Bool
  pub times : F → ℕ → F
  pub to_int64 : F → ℤ
  pub parse_int : String → Option ℤ

abbrev pub units : List (String × ℕ)
units =
    ("TIB", 2 ^ 40)
    ∷ ("GIB", 2 ^ 30)
    ∷ ("MIB", 2 ^ 20)
    ∷ ("TB", 10 ^ 12)
    ∷ ("GB", 10 ^ 9)
    ∷ ("MB", 10 ^ 6)
    ∷ ("B", 1)
    ∷ []

-- strings.HasSuffix and strings.TrimSuffix
unfoldable pub has_suffix : String → String → Bool
has_suffix s suffix =
    leb (len suffix) (len s) && str_eq (slice s (len s - len suffix) (len s)) suffix

abbrev trim_suffix : String → String → String
trim_suffix s suffix = slice s 0 (len s - len suffix)

module _ {F : Type 0} (c : CapacityCodec F) where
  -- A number before a unit.
  unfoldable pub scaled_capacity : String → (mult : ℕ) → Option ℤ
  scaled_capacity text mult = elim (c.parse_float (c.trim_space text)) [
    | none ↦ none
    | some n ↦ if c.at_most_zero n then none else some (c.to_int64 (c.times n mult))
  ]

  -- The loop over the units: the first suffix decides.
  unfoldable pub unit_capacity : String → List (String × ℕ) → Option ℤ
  unfolding has_suffix scaled_capacity
  unit_capacity s [] = elim (c.parse_int s) [
    | none ↦ none
    | some n ↦ if positive n then some n else none
  ]
  unit_capacity s ((suffix, mult) ∷ rest) =
      let later = unit_capacity s rest in
      if has_suffix s suffix then scaled_capacity (trim_suffix s suffix) mult else later

  -- `parseCapacity`; an error has no value.
  unfoldable pub parse_capacity : String → Option ℤ
  unfolding unit_capacity
  parse_capacity text =
      let s = c.trim_space (c.to_upper text) in if str_eq s "" then none else unit_capacity s units
