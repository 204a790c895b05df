-- ===== src/Node/Ota/ReadBack.antt =====
-- The read-back loop of `ota_end` computes the CRC of the image.
use klippylink.Common.{
  ℕ, zero, suc, ◌+◌, ◌-◌, ◌≤◌, ◌≡◌, refl, sym, ap, ◌∙◌, inl, inr, true, some, List, [], ◌∷◌, arith,
  ltb, if◌then◌else◌, ltb→lt, ltb→le, Bool-cases, length, drop, take-append-drop,
}
use klippylink.Node.Ota.Driver.{Platform, Laws}
use klippylink.Node.Ota.{World, read_back, actual_crc}

pub drop-all {ℓ} : {A : Type ℓ} (n : ℕ) (xs : List A) → length xs ≤ n → drop n xs ≡ []
drop-all zero [] h = refl
drop-all zero (x ∷ xs) h = absurd (omega arith)
drop-all (suc n) [] h = refl
drop-all (suc n) (x ∷ xs) h = drop-all n xs (omega arith)

-- The bytes from an offset on, cut after the first `m` of them.
pub drop-add {ℓ} : {A : Type ℓ} (n m : ℕ) (xs : List A) → drop (n + m) xs ≡ drop m (drop n xs)
drop-add zero m xs = let e : zero + m ≡ m = omega arith in ap (λ k. drop k xs) e
drop-add (suc n) m [] =
    let e : suc n + m ≡ suc (n + m) = omega arith in
    ap (λ k. drop k []) e ∙ sym (drop-all m [] (omega arith))
drop-add (suc n) m (x ∷ xs) =
    let e : suc n + m ≡ suc (n + m) = omega arith in ap (λ k. drop k (x ∷ xs)) e ∙ drop-add n m xs

module _ (P : Platform) (L : Laws P) (d : P.Dev) (part : ℕ) where
  chunk_crc :
      (c offset chunk : ℕ)
      → offset + chunk ≤ length (L.image d part)
      → P.crc (P.crc c (P.read d (some part) offset chunk)) (drop (offset + chunk) (L.image d part))
        ≡ P.crc c (drop offset (L.image d part))
  chunk_crc c offset chunk h =
      rw (L.read_image d part offset chunk h, drop-add offset chunk (L.image d part))
        (sym (L.crc_append c _ _)
          ∙ ap (P.crc c) (take-append-drop chunk (drop offset (L.image d part))))

  -- One unit of fuel for each byte is enough.
  read_back_lem :
      (fuel n offset c : ℕ)
      → length (L.image d part) ≡ n
      → offset ≤ n
      → n - offset ≤ fuel
      → read_back P fuel d (some part) n offset c ≡ P.crc c (drop offset (L.image d part))
  unfolding read_back
  read_back_lem zero n offset c size le enough =
      rw (drop-all offset (L.image d part) (omega arith)) (sym (L.crc_nil c))
  read_back_lem (suc fuel) n offset c size le enough = elim (Bool-cases (ltb offset n)) [
    | inr e ↦
        let ge = ltb→le _ _ e in
        rw e (rw (drop-all offset (L.image d part) (omega arith)) (sym (L.crc_nil c)))
    | inl e ↦
        let lt = ltb→lt _ _ e in
        let chunk = if ltb (n - offset) 256 then n - offset else 256 in
        let fits : (1 ≤ chunk) × (offset + chunk ≤ n) = ground arith in
        rw e (
          read_back_lem fuel n (offset + chunk) (P.crc c (P.read d (some part) offset chunk)) size
            (omega arith) (omega arith)
          ∙ chunk_crc c offset chunk (omega arith))
  ]

-- When as many bytes have been received as the image of the partition holds, and there is memory for
-- the buffer, the loop ends with the CRC of the whole image.
pub actual_crc_lem :
    (P : Platform) (L : Laws P) (w : World P) (part : ℕ)
    → w.ota.part ≡ some part
    → P.malloc_ok w.dev ≡ true
    → w.ota.received_bytes ≡ length (L.image w.dev part)
    → actual_crc P w ≡ P.crc 0 (L.image w.dev part)
unfolding actual_crc
actual_crc_lem P L w part p m size =
    simp (m, p)
      (read_back_lem P L w.dev part w.ota.received_bytes w.ota.received_bytes 0 0 (sym size)
        (omega arith) (omega arith))
