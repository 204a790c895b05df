-- ===== src/Node/Ota/Transfer.antt =====
-- A whole update: started, written piece by piece, and checked against the CRC of its image.
use klippylink.Common.{
  ℕ, ◌+◌, ◌%◌, ◌^◌, ◌<◌, ◌≡◌, refl, sym, ap, ◌∙◌, subst, inl, inr, Bool, true, false, some, List,
  [], ◌∷◌, ◌++◌, append-nil, append_assoc, arith, if◌then◌else◌, Bool-cases, Option-cases, length,
  length-append,
}
use klippylink.Esp.{Err, is_ok}
use klippylink.Node.Ota.Driver.{Platform, Laws}
use klippylink.Node.Ota.{World, ota_abort, ota_begin, start, ota_write}
use klippylink.Node.Ota.Branches.{ota_write_lem}

abbrev pub join : List (List ℕ) → List ℕ
join [] = []
join (c ∷ cs) = c ++ join cs

module _ (P : Platform) where
  -- The pieces in order, up to the first that is refused.
  unfoldable pub write_all : List (List ℕ) → World P → Err × World P
  write_all [] w = (Err.esp_ok, w)
  write_all (c ∷ cs) w =
      let (e, w') = ota_write P c w in
      let rest = write_all cs w' in if is_ok e then rest else (e, w')

module _ (P : Platform) (L : Laws P) where
  -- An update is under way, and the image holds the bytes that have come.
  pub record IsReceiving (crc32 : ℕ) (cb : Bool) (part : ℕ) (bytes : List ℕ) (w : World P)
      : Type 0 where
    pub active : w.ota.active ≡ true
    pub to_part : w.ota.part ≡ some part
    pub aimed : L.target w.dev w.ota.handle ≡ part
    pub holds : L.image w.dev part ≡ bytes
    pub counted : w.ota.received_bytes ≡ length bytes
    pub expects : w.ota.expected_crc ≡ crc32
    pub callback : w.ota.cb ≡ cb

  ota_write-ok :
      (c : List ℕ) (w : World P)
      → w.ota.active ≡ true
      → is_ok (P.write w.dev w.ota.handle c).0 ≡ true
      → ota_write P c w ≡ (
        Err.esp_ok,
        record w {
          ota = record (w.ota) { received_bytes = (w.ota.received_bytes + length c) % 2 ^ 32 };
          dev = (P.write w.dev w.ota.handle c).1;
        },
      )
  unfolding ota_write
  ota_write-ok c w a e = simp (a, e) refl

  ota_write-bad :
      (c : List ℕ) (w : World P)
      → w.ota.active ≡ true
      → is_ok (P.write w.dev w.ota.handle c).0 ≡ false
      → is_ok (ota_write P c w).0 ≡ false
  unfolding ota_write
  ota_write-bad c w a bad = simp (a, bad) refl

  pub driver_ok :
      (c : List ℕ) (w : World P)
      → w.ota.active ≡ true
      → is_ok (ota_write P c w).0 ≡ true
      → is_ok (P.write w.dev w.ota.handle c).0 ≡ true
  driver_ok c w a ok = elim (ota_write_lem P c w a) [
    | inl (e, _, _, _) ↦ elim (Bool-cases (is_ok (P.write w.dev w.ota.handle c).0)) [
      | inl good ↦ good
      | inr bad ↦ let z = ota_write-bad c w a bad in cc
    ]
    | inr (_, bad, _, _) ↦ cc
  ]

  pub ota_write-IsReceiving :
      {crc32 : ℕ} {cb : Bool} {part : ℕ} {bytes : List ℕ} {w : World P} (c : List ℕ)
      → IsReceiving crc32 cb part bytes w
      → length (bytes ++ c) < 2 ^ 32
      → is_ok (ota_write P c w).0 ≡ true
      → IsReceiving crc32 cb part (bytes ++ c) (ota_write P c w).1
  ota_write-IsReceiving {bytes = bytes} {w = w} c v small ok =
      let e = driver_ok c w v.active ok in
      let (grown, kept) = L.write_appends w.dev w.ota.handle c e in
      rw (ota_write-ok c w v.active e) (record {
        active = v.active;
        to_part = v.to_part;
        aimed = kept ∙ v.aimed;
        holds =
            ap (L.image (P.write w.dev w.ota.handle c).1) (sym v.aimed)
            ∙ grown
            ∙ ap (λ k. k ++ c) (ap (L.image w.dev) v.aimed ∙ v.holds);
        counted = omega (arith, v.counted, length-append bytes c);
        expects = v.expects;
        callback = v.callback;
      })

  start-IsReceiving :
      (size crc32 : ℕ) (cb : Bool) (part : ℕ) (w : World P)
      → is_ok (start P size crc32 cb part w).0 ≡ true
      → IsReceiving crc32 cb part [] (start P size crc32 cb part w).1
  unfolding start
  start-IsReceiving size crc32 cb part w ok =
      elim (Bool-cases (is_ok (P.begin w.dev part w.ota.handle).0)) [
        | inr bad ↦ let z = simp bad at ok in cc
        | inl e ↦
            let (empty, aim) = L.begin_empty w.dev part w.ota.handle e in
            simp e (record {
              active = refl;
              to_part = refl;
              aimed = aim;
              holds = empty;
              counted = refl;
              expects = refl;
              callback = refl;
            })
      ]

  pub ota_begin-IsReceiving :
      (size crc32 : ℕ) (cb : Bool) (w : World P)
      → is_ok (ota_begin P size crc32 cb w).0 ≡ true
      → (part : ℕ) × IsReceiving crc32 cb part [] (ota_begin P size crc32 cb w).1
  unfolding ota_begin
  ota_begin-IsReceiving size crc32 cb w ok =
      elim (Option-cases (P.next_partition (ota_abort P w).dev)) [
        | inl e ↦ let z = rw (e, ota_begin) at ok in cc
        | inr (part, e) ↦ (
          part,
          rw (e, ota_begin)
              (start-IsReceiving size crc32 cb part (ota_abort P w) (rw (e, ota_begin) at ok)),
        )
      ]

  pub write_all-IsReceiving :
      {crc32 : ℕ} {cb : Bool} {part : ℕ} (cs : List (List ℕ)) {bytes : List ℕ} {w : World P}
      → IsReceiving crc32 cb part bytes w
      → length (bytes ++ join cs) < 2 ^ 32
      → is_ok (write_all P cs w).0 ≡ true
      → IsReceiving crc32 cb part (bytes ++ join cs) (write_all P cs w).1
  unfolding write_all
  write_all-IsReceiving [] v small ok = rw append-nil v
  write_all-IsReceiving {crc32} {cb} {part} (c ∷ cs) {bytes} {w} v small ok =
      elim (Bool-cases (is_ok (ota_write P c w).0)) [
        | inr bad ↦ let z = simp bad at ok in cc
        | inl e ↦
            let l = length-append (bytes ++ c) (join cs) in
            let same : (bytes ++ c) ++ join cs ≡ bytes ++ (c ++ join cs) =
              append_assoc bytes c (join cs) in
            let small' : length ((bytes ++ c) ++ join cs) < 2 ^ 32 = rw same small in
            simp e (
              subst (λ k. IsReceiving crc32 cb part k (write_all P cs (ota_write P c w).1).1) same
                (write_all-IsReceiving cs (ota_write-IsReceiving c v (omega arith) e) small'
                  (simp e at ok)))
      ]
