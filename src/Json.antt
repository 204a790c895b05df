-- ===== src/Json.antt =====
-- What the firmware calls of cJSON, a library that is not part of the repository.
-- `none` is the null pointer. A `valueint` is the 32-bit pattern of the C `int`.
pub mod Doc
use klippylink.Common.{
  ◌≡◌, ◌≢◌, refl, ℕ, ◌-◌, Bool, Option, none, some, List, [], ◌∷◌, take, ◌==◌, if◌then◌else◌,
}

pub record Json : Type 1 where
  pub Value : Type 0
  -- `cJSON_Parse`
  pub parse : List ℕ → Option Value
  -- `cJSON_GetObjectItem` on an item that is not null
  pub get_object_item : Value → List ℕ → Option Value
  pub is_string : Value → Bool
  pub is_array : Value → Bool
  pub is_number : Value → Bool
  pub is_true : Value → Bool
  pub get_array_size : Value → ℕ
  -- `cJSON_GetArrayItem` at an index below the size
  pub get_array_item : Value → ℕ → Value
  -- The field `valuestring`, null unless the item is a string.
  pub valuestring : Value → Option (List ℕ)
  pub valueint : Value → ℕ

-- A fault, `none`, is a read through a null pointer or out of bounds.
infixl 5 ◌>>=◌
abbrev pub ◌>>=◌ {ℓ κ} : {A : Type ℓ} {B : Type κ} → Option A → (A → Option B) → Option B
none >>= f = none
some a >>= f = f a

-- A chain that succeeds has succeeded at its first step.
pub >>=-eq-some {ℓ κ} :
    {A : Type ℓ} {B : Type κ} (m : Option A) (f : A → Option B) {b : B}
    → (m >>= f) ≡ some b
    → (a : A) × (m ≡ some a) × (f a ≡ some b)
>>=-eq-some none f h = cc
>>=-eq-some (some a) f h = (a, refl, h)

-- Chains whose second steps agree.
pub >>=-same {ℓ κ} :
    {A : Type ℓ} {B : Type κ} {f g : A → Option B} (m : Option A)
    → ((a : A) → f a ≡ g a)
    → (m >>= f) ≡ (m >>= g)
>>=-same none h = refl
>>=-same (some a) h = h a

-- A C string ends at its first zero.
unfoldable pub c_string : List ℕ → List ℕ
c_string [] = []
c_string (x ∷ xs) = if x == 0 then [] else x ∷ c_string xs

-- `strlcpy(dst, src, size)`: what `dst` holds as a C string.
abbrev pub strlcpy : List ℕ → ℕ → List ℕ
strlcpy src size = take (size - 1) src

pub eq_of_some {ℓ} : {A : Type ℓ} {x y : A} → some x ≡ some y → x ≡ y
eq_of_some h = cc

pub none≢some {ℓ} : {A : Type ℓ} {x : A} → none ≢ some x
none≢some h = cc
