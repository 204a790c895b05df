-- ===== src/Node/Gatt/Advert.antt =====
-- The advertising data as the structures of the Bluetooth specification, and the scan of the router.
use klippylink.Common.{
  ℕ, ◌+◌, ◌%◌, ◌≤◌, ◌<◌, ◌≡◌, refl, ◌≢◌, inl, inr, true, false, Option, some, List, [], ◌∷◌, ◌++◌,
  append-nil, arith, leb, if◌then◌else◌, leb→le, leb→lt, le→leb, lt→leb, Bool-cases, length,
  take-all, All,
}
use klippylink.Router.Central.{Action, Central, act, on_scan_result}
use klippylink.Node.Gatt.Adv.{raw_adv, raw_adv_size, adv_head}

-- Structures, each a type and its data, as bytes: the length of both, the type, the data.
abbrev pub ad_bytes : List (ℕ × List ℕ) → List ℕ
ad_bytes [] = []
ad_bytes ((kind, content) ∷ ss) = (1 + length content) ∷ kind ∷ (content ++ ad_bytes ss)

abbrev pub ad_flags : ℕ × List ℕ
ad_flags = (0x01, 0x06 ∷ [])

-- The complete list of 16-bit services.
abbrev pub ad_services : ℕ × List ℕ
ad_services = (0x03, 0x4C ∷ 0x4B ∷ [])

-- The complete name, if there is room for it.
abbrev pub ad_name : List ℕ → List (ℕ × List ℕ)
ad_name dev_name = if leb (length dev_name) 22 then (0x09, dev_name) ∷ [] else []

-- For a name below 256 bytes the advertising data fits its 31 bytes, and is the structures for the
-- flags, the service and, if it has at most 22 bytes, the whole name.
pub raw_adv-ad_bytes :
    (dev_name : List ℕ)
    → length dev_name < 256
    → (raw_adv dev_name ≡ ad_bytes (ad_flags ∷ ad_services ∷ ad_name dev_name))
      × (length (raw_adv dev_name) ≤ raw_adv_size)
unfolding raw_adv
raw_adv-ad_bytes dev_name h = elim (Bool-cases (leb (length dev_name) 22)) [
  | inl e ↦
      let le = leb→le (length dev_name) 22 e in
      let size : length dev_name % 256 ≡ length dev_name = omega arith in
      let fits : leb (length adv_head + 2 + length dev_name) 31 ≡ true =
        le→leb _ 31 (omega arith) in
      simp (size, fits, e, take-all (length dev_name) dev_name (omega arith), append-nil)
        (refl, omega arith)
  | inr e ↦
      let lt = leb→lt (length dev_name) 22 e in
      let size : length dev_name % 256 ≡ length dev_name = omega arith in
      let full : leb (length adv_head + 2 + length dev_name) 31 ≡ false =
        lt→leb _ 31 (omega arith) in
      simp (size, full, e) (refl, omega arith)
]

-- What is documented of `esp_ble_resolve_adv_data` for the complete list of services: of structures,
-- the data of the first that has the type.
abbrev pub Resolves : (List ℕ → Option (List ℕ)) → Type 0
Resolves resolve =
    (before : List (ℕ × List ℕ)) (content : List ℕ) (after : List (ℕ × List ℕ))
    → All (λ s. s.0 ≢ 0x03) before
    → resolve (ad_bytes (before ++ (0x03, content) ∷ after)) ≡ some content

-- A router that scans opens a connection to a node whose advertising data it gets, whatever the
-- node's name below 256 bytes is, provided that the stack's search gives the data of the first
-- structure with the type of the services.
pub on_scan_result-raw_adv :
    (resolve : List ℕ → Option (List ℕ)) (dev_name bda : List ℕ) (c : Central)
    → Resolves resolve
    → length dev_name < 256
    → on_scan_result (resolve (raw_adv dev_name)) bda c
      ≡ act (Action.gattc_open c.gattc_if bda) (act Action.stop_scanning c)
unfolding on_scan_result
on_scan_result-raw_adv resolve dev_name bda c law h =
    rw
      (
        (raw_adv-ad_bytes dev_name h).0,
        law (ad_flags ∷ []) (0x4C ∷ 0x4B ∷ []) (ad_name dev_name) ((λ e. absurd (omega arith)), tt),
      )
      refl
