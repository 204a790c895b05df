-- ===== src/Json/Doc.antt =====
-- Documents that the firmware builds with cJSON_Create… and cJSON_AddItemTo…, and what it means that
-- a parsed value shows a document. Memory for the tree is there.
use klippylink.Common.{ℕ, suc, ◌≡◌, Bool, true, some, List, [], ◌∷◌}
use klippylink.Json.{Json}

mutual
  pub data Doc : Type 0 where
    text : List ℕ → Doc
    number : ℕ → Doc
    flag : Bool → Doc
    array : Docs → Doc
    object : Fields → Doc

  pub data Docs : Type 0 where
    nil : Docs
    cons : Doc → Docs → Docs

  pub data Fields : Type 0 where
    end : Fields
    field : List ℕ → Doc → Fields → Fields

-- `cJSON_AddItemToArray` for each of a list of items.
abbrev pub docs : List Doc → Docs
docs [] = Docs.nil
docs (d ∷ ds) = Docs.cons d (docs ds)

abbrev pub size : Docs → ℕ
size Docs.nil = 0
size (Docs.cons d ds) = suc (size ds)

module _ (J : Json) where
  open J use {
    Value, get_object_item, is_string, is_array, is_number, is_true, get_array_size, get_array_item,
    valuestring, valueint,
  }

  -- A value with the type and the content of a document, and under every key of an object and at
  -- every index of an array a value that shows what was put there.
  abbrev mutual
    pub Shows : Doc → Value → Type 0
    Shows (Doc.text s) v = (is_string v ≡ true) × (valuestring v ≡ some s)
    Shows (Doc.number n) v = (is_number v ≡ true) × (valueint v ≡ n)
    Shows (Doc.flag b) v = is_true v ≡ b
    Shows (Doc.array ds) v = (is_array v ≡ true) × (get_array_size v ≡ size ds) × ShowsAt ds 0 v
    Shows (Doc.object fs) v = ShowsFields fs v

    pub ShowsAt : Docs → ℕ → Value → Type 0
    ShowsAt Docs.nil i v = Unit
    ShowsAt (Docs.cons d ds) i v = Shows d (get_array_item v i) × ShowsAt ds (suc i) v

    pub ShowsFields : Fields → Value → Type 0
    ShowsFields Fields.end v = Unit
    ShowsFields (Fields.field key d fs) v =
        ((w : Value) × (get_object_item v key ≡ some w) × Shows d w) × ShowsFields fs v
