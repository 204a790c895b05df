-- ===== src/Node/OtaTests.antt =====
-- A firmware update on a flash with one partition and a sum for the CRC.
use klippylink.Common.{
  ℕ, ◌+◌, ◌≡◌, refl, sym, ap, ◌∙◌, inl, inr, true, false, Option, none, some, List, [], ◌∷◌, ◌++◌,
  arith, leb, ◌==◌, if◌then◌else◌, leb→le, ==_refl, Bool-cases, length, take, drop, length-append,
  length-take, take-all,
}
use klippylink.Esp.{Err, is_ok}
use klippylink.Protocol.{OtaStatus}
use klippylink.Node.Ota.Driver.{Platform, Laws}
use klippylink.Node.Ota.{Event, World, fresh, tell, ota_begin, ota_write, ota_end, ota_abort, start}
use klippylink.Node.Ota.Transfer.{write_all}
use klippylink.Node.Ota.History.{Call, perform_all, track_all}
use klippylink.Node.Ota.History.Tracked.{HasSmallImages, Tracks, perform_all-Tracks}
use klippylink.Node.Ota.Session.{written, IsWritten, ota_end-corrupt, ota_end-total_bytes}

abbrev sum_from : ℕ → List ℕ → ℕ
sum_from c [] = c
sum_from c (x ∷ xs) = sum_from (c + x) xs

pub sum_from-append : (c : ℕ) (xs ys : List ℕ) → sum_from c (xs ++ ys) ≡ sum_from (sum_from c xs) ys
sum_from-append c [] ys = refl
sum_from-append c (x ∷ xs) ys = sum_from-append (c + x) xs ys

-- The device is the partition that is written, its image, and the partition for the next start.
abbrev pub Flash : Type 0
Flash = ℕ × List ℕ × Option ℕ

abbrev image_of : Flash → ℕ → List ℕ
image_of d part = if d.0 == part then d.1 else []

abbrev read_of : Flash → Option ℕ → ℕ → ℕ → List ℕ
read_of d none offset len = []
read_of d (some part) offset len = take len (drop offset (image_of d part))

abbrev pub flash : Platform
flash = record {
  Dev = Flash;
  next_partition = λ d. some 2;
  begin = λ d part old. (Err.esp_ok, 5, (part, [], d.2));
  write = λ d h bytes. (Err.esp_ok, (d.0, d.1 ++ bytes, d.2));
  finish = λ d h. (Err.esp_ok, d);
  set_boot = λ d part. (Err.esp_ok, (d.0, d.1, part));
  abort = λ d h. d;
  read = read_of;
  crc = sum_from;
  malloc_ok = λ d. true;
}

pub write-image :
    (d : Flash) (bytes : List ℕ) → image_of (d.0, d.1 ++ bytes, d.2) d.0 ≡ image_of d d.0 ++ bytes
write-image (part, xs, next) bytes = rw (==_refl part) refl

abbrev pub laws : Laws flash
laws = record {
  image = image_of;
  target = λ d h. d.0;
  begin_empty = λ d part old ok. (rw (==_refl part) refl, refl);
  write_appends = λ d h bytes ok. (write-image d bytes, refl);
  read_image = λ d part offset len lt. refl;
  crc_append = sum_from-append;
  crc_nil = λ c. refl;
}

abbrev before : World flash
before = record { ota = fresh; dev = (0, [], none); log = [] }

abbrev image : List (List ℕ)
image = (1 ∷ 2 ∷ []) ∷ (3 ∷ []) ∷ []

-- The update under way after the pieces of the image.
abbrev receiving : World flash
receiving = record {
  ota = record {
    handle = 5;
    part = some 2;
    expected_crc = 6;
    received_bytes = 3;
    total_bytes = 3;
    cb = true;
    active = true;
  };
  dev = (2, 1 ∷ 2 ∷ 3 ∷ [], none);
  log = Event.status OtaStatus.in_progress ∷ [];
}

corrupt : IsWritten flash laws 3 7 true image before
unfolding ota_begin start ota_abort ota_write write_all
corrupt = record { started = refl; took = refl; small = omega arith; memory = refl }

ota_end-corrupt_example :
    (let w' = written flash laws 3 7 true image before in
      ((ota_end flash w').0 ≡ Err.invalid_crc)
      × ((ota_end flash w').1.ota.active ≡ false)
      × ((ota_end flash w').1.log ≡ tell true OtaStatus.failed w'.log))
ota_end-corrupt_example =
    ota_end-corrupt flash laws 3 7 true image before corrupt (omega arith) (omega arith)

ota_end-total_bytes_example :
    (let w' = record receiving { ota = record (receiving.ota) { total_bytes = 900 } } in
      ((ota_end flash w').0 ≡ (ota_end flash receiving).0)
      × ((ota_end flash w').1.dev ≡ (ota_end flash receiving).1.dev)
      × ((ota_end flash w').1.log ≡ (ota_end flash receiving).1.log))
ota_end-total_bytes_example = ota_end-total_bytes flash receiving 900

-- A flash whose partition has room for eight bytes.
abbrev small_of : ℕ × List ℕ → ℕ → List ℕ
small_of d part = if d.0 == part then take 8 d.1 else []

abbrev small_read : ℕ × List ℕ → Option ℕ → ℕ → ℕ → List ℕ
small_read d none offset len = []
small_read d (some part) offset len = take len (drop offset (small_of d part))

abbrev small_write : ℕ × List ℕ → List ℕ → Err × (ℕ × List ℕ)
small_write d bytes =
    if leb (length (d.1 ++ bytes)) 8 then (Err.esp_ok, (d.0, d.1 ++ bytes)) else (Err.esp_fail, d)

abbrev small_flash : Platform
small_flash = record {
  Dev = ℕ × List ℕ;
  next_partition = λ d. some 2;
  begin = λ d part old. (Err.esp_ok, 5, (part, []));
  write = λ d h bytes. small_write d bytes;
  finish = λ d h. (Err.esp_ok, d);
  set_boot = λ d part. (Err.esp_ok, d);
  abort = λ d h. d;
  read = small_read;
  crc = sum_from;
  malloc_ok = λ d. true;
}

small_write-grows :
    (d : ℕ × List ℕ) (bytes : List ℕ)
    → (leb (length (d.1 ++ bytes)) 8) ≡ true
    → small_of (d.0, d.1 ++ bytes) d.0 ≡ small_of d d.0 ++ bytes
small_write-grows (part, xs) bytes fits =
    let whole = leb→le (length (xs ++ bytes)) 8 fits in
    let sum = length-append xs bytes in
    rw (==_refl part)
      (take-all 8 (xs ++ bytes) whole ∙ ap (λ k. k ++ bytes) (sym (take-all 8 xs (omega arith))))

small_write-appends :
    (d : ℕ × List ℕ) (bytes : List ℕ)
    → is_ok (small_write d bytes).0 ≡ true
    → (small_of (small_write d bytes).1 d.0 ≡ small_of d d.0 ++ bytes)
      × ((small_write d bytes).1.0 ≡ d.0)
small_write-appends d bytes ok = elim (Bool-cases (leb (length (d.1 ++ bytes)) 8)) [
  | inl fits ↦ rw fits (small_write-grows d bytes fits, refl)
  | inr over ↦ let z = simp over at ok in cc
]

abbrev small_laws : Laws small_flash
small_laws = record {
  image = small_of;
  target = λ d h. d.0;
  begin_empty = λ d part old ok. (rw (==_refl part) refl, refl);
  write_appends = λ d h bytes ok. small_write-appends d bytes ok;
  read_image = λ d part offset len lt. refl;
  crc_append = sum_from-append;
  crc_nil = λ c. refl;
}

small : HasSmallImages small_flash small_laws
small d part = elim (Bool-cases (d.0 == part)) [
  | inl same ↦ let k = length-take 8 d.1 in rw same (omega arith)
  | inr other ↦ rw other (omega arith)
]

abbrev small_before : World small_flash
small_before = record { ota = fresh; dev = (0, []); log = [] }

-- An update that is finished, one that outgrows the partition, and a stray end.
abbrev calls : List Call
calls =
    Call.begin 3 6
    ∷ Call.write (1 ∷ 2 ∷ [])
    ∷ Call.write (3 ∷ [])
    ∷ Call.finish
    ∷ Call.begin 9 0
    ∷ Call.write (1 ∷ 2 ∷ 3 ∷ 4 ∷ 5 ∷ 6 ∷ 7 ∷ 8 ∷ 9 ∷ [])
    ∷ Call.finish
    ∷ []

perform_all-Tracks_example :
    Tracks small_flash small_laws
      (track_all small_flash calls small_before (record { update = none; restarts = 0 }))
      (perform_all small_flash calls small_before)
perform_all-Tracks_example =
    perform_all-Tracks small_flash small_laws calls small_before small refl refl
