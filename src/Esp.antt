-- ===== src/Esp.antt =====
-- `esp_err_t`, as far as the firmware tells its values apart. ESP-IDF is not part of the repository.
use klippylink.Common.{ℕ, ◌≡◌, refl, Bool, true, false}

pub data Err : Type 0 where
  esp_ok esp_fail no_mem invalid_arg invalid_state not_found invalid_crc : Err
  nvs_no_free_pages nvs_new_version_found : Err
  -- Any other code that a driver returns.
  other : ℕ → Err

-- `ret == ESP_OK`
abbrev pub is_ok : Err → Bool
is_ok Err.esp_ok = true
is_ok _ = false

pub eq_of_is_ok : (e : Err) → is_ok e ≡ true → e ≡ Err.esp_ok
eq_of_is_ok Err.esp_ok h = refl
eq_of_is_ok _ h = cc
