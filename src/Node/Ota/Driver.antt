-- ===== src/Node/Ota/Driver.antt =====
-- What ota_handler.c calls of ESP-IDF: the OTA driver, the flash and the CRC in ROM.
use klippylink.Common.{
  ℕ, ◌+◌, ◌≤◌, ◌≡◌, Bool, true, Option, some, List, [], ◌++◌, length, take, drop,
}
use klippylink.Esp.{Err, is_ok}

pub record Platform : Type 1 where
  -- The state of the flash and of the driver.
  pub Dev : Type 0
  -- `esp_ota_get_next_update_partition(NULL)`
  pub next_partition : Dev → Option ℕ
  -- `esp_ota_begin(part, …, &handle)`, with the handle before; the handle after is what it leaves.
  pub begin : Dev → ℕ → ℕ → Err × ℕ × Dev
  -- `esp_ota_write(handle, data, len)`
  pub write : Dev → ℕ → List ℕ → Err × Dev
  -- `esp_ota_end(handle)`
  pub finish : Dev → ℕ → Err × Dev
  -- `esp_ota_set_boot_partition(part)`
  pub set_boot : Dev → Option ℕ → Err × Dev
  -- `esp_ota_abort(handle)`
  pub abort : Dev → ℕ → Dev
  -- `esp_partition_read(part, offset, buf, len)`: what the buffer then holds.
  pub read : Dev → Option ℕ → ℕ → ℕ → List ℕ
  -- `esp_rom_crc32_le(crc, data, len)`
  pub crc : ℕ → List ℕ → ℕ
  -- Whether `malloc(256)` succeeds.
  pub malloc_ok : Dev → Bool

-- What is documented of them and relied on: a sequential write appends to the image of its
-- partition, a new update starts with an empty one, a read returns the bytes of the image, and the
-- CRC of a whole is the CRC of its second part continued from the CRC of its first.
pub record Laws (P : Platform) : Type 0 where
  pub image : P.Dev → ℕ → List ℕ
  -- The partition that a handle writes to.
  pub target : P.Dev → ℕ → ℕ
  pub begin_empty :
      (d : P.Dev) (part old : ℕ)
      → is_ok (P.begin d part old).0 ≡ true
      → (image (P.begin d part old).2 part ≡ [])
        × (target (P.begin d part old).2 (P.begin d part old).1 ≡ part)
  pub write_appends :
      (d : P.Dev) (h : ℕ) (bytes : List ℕ)
      → is_ok (P.write d h bytes).0 ≡ true
      → (image (P.write d h bytes).1 (target d h) ≡ image d (target d h) ++ bytes)
        × (target (P.write d h bytes).1 h ≡ target d h)
  pub read_image :
      (d : P.Dev) (part offset len : ℕ)
      → offset + len ≤ length (image d part)
      → P.read d (some part) offset len ≡ take len (drop offset (image d part))
  pub crc_append : (c : ℕ) (xs ys : List ℕ) → P.crc c (xs ++ ys) ≡ P.crc (P.crc c xs) ys
  pub crc_nil : (c : ℕ) → P.crc c [] ≡ c
