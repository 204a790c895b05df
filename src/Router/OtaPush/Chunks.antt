-- ===== src/Router/OtaPush/Chunks.antt =====
-- The push sends a list of packets that depends on the image alone, up to the first failure.
use klippylink.Common.{
  ℕ, zero, suc, ◌+◌, ◌-◌, ◌≤◌, ◌<◌, ◌≡◌, refl, sym, ap, ◌∙◌, inl, inr, some, List, [], ◌∷◌, ◌++◌,
  arith, ltb, if◌then◌else◌, ltb→lt, ltb→le, ==_ne, Bool-cases, length, take, drop,
  take-append-drop, length-take, length-drop, take-all, All,
}
use klippylink.Esp.{Err, is_ok}
use klippylink.Protocol.{Command, header, packet, u8, klip_max_payload_size}
use klippylink.Router.OtaPush.{
  begin_packet, data_packet, chunk_len, stream, finish, ota_push_to_node,
}
use klippylink.Node.Ota.Transfer.{join}
use klippylink.Node.Ota.ReadBack.{drop-add, drop-all}

-- The image in pieces of 244 bytes, the last one shorter.
unfoldable pub chunks : ℕ → List ℕ → List (List ℕ)
chunks zero xs = []
chunks (suc n) [] = []
chunks (suc n) (x ∷ xs) =
    take klip_max_payload_size (x ∷ xs) ∷ chunks n (drop klip_max_payload_size (x ∷ xs))

abbrev pub pieces : List ℕ → List (List ℕ)
pieces bytes = chunks (length bytes) bytes

-- A piece fits one packet and is not empty.
abbrev pub IsPiece : List ℕ → Type 0
IsPiece c = (0 < length c) × (length c ≤ klip_max_payload_size)

pub join-chunks : (n : ℕ) (xs : List ℕ) → length xs ≤ n → join (chunks n xs) ≡ xs
unfolding chunks
join-chunks zero [] h = refl
join-chunks zero (x ∷ xs) h = absurd (omega arith)
join-chunks (suc n) [] h = refl
join-chunks (suc n) (x ∷ xs) h =
    rw (join-chunks n (drop 244 (x ∷ xs)) (omega (arith, length-drop 244 (x ∷ xs))))
      (take-append-drop 244 (x ∷ xs))

pub chunks-IsPiece : (n : ℕ) (xs : List ℕ) → All IsPiece (chunks n xs)
unfolding chunks
chunks-IsPiece zero xs = tt
chunks-IsPiece (suc n) [] = tt
chunks-IsPiece (suc n) (x ∷ xs) = (
  (omega (arith, length-take 244 (x ∷ xs)), omega (arith, length-take 244 (x ∷ xs))),
  chunks-IsPiece n (drop 244 (x ∷ xs)),
)

module _ {S : Type 0} (send : List ℕ → S → Err × S) where
  -- The specification: packets in order, up to the first that fails.
  unfoldable pub send_all : List (List ℕ) → S → Err × S
  send_all [] s = (Err.esp_ok, s)
  send_all (p ∷ ps) s =
      let (e, s') = send p s in let rest = send_all ps s' in if is_ok e then rest else (e, s')

abbrev pub data_packets : List (List ℕ) → List (List ℕ)
data_packets [] = []
data_packets (c ∷ cs) = packet Command.ota_data c ∷ data_packets cs

-- All packets of a push.
abbrev pub packets : (ℕ → List ℕ → ℕ) → List ℕ → List (List ℕ)
packets crc32 bytes =
    begin_packet crc32 bytes ∷ (data_packets (pieces bytes) ++ header Command.ota_end 0 ∷ [])

cons_of_lt :
    (n : ℕ) (xs : List ℕ) → 0 < length xs → chunks (suc n) xs ≡ take 244 xs ∷ chunks n (drop 244 xs)
unfolding chunks
cons_of_lt n [] h = elim h [ ]
cons_of_lt n (x ∷ xs) h = refl

nil_of_ge : (n : ℕ) (xs : List ℕ) → length xs ≤ 0 → chunks n xs ≡ []
unfolding chunks
nil_of_ge zero xs h = refl
nil_of_ge (suc n) [] h = refl
nil_of_ge (suc n) (x ∷ xs) h = absurd (omega arith)

take-chunk_len : (xs : List ℕ) → take (chunk_len (length xs)) xs ≡ take 244 xs
unfolding chunk_len
take-chunk_len xs = elim (Bool-cases (ltb 244 (length xs))) [
  | inl e ↦ rw e
  | inr e ↦ rw e (take-all (length xs) xs (omega arith) ∙ sym (take-all 244 xs (ltb→le _ _ e)))
]

drop-chunk_len : (xs : List ℕ) → drop (chunk_len (length xs)) xs ≡ drop 244 xs
unfolding chunk_len
drop-chunk_len xs = elim (Bool-cases (ltb 244 (length xs))) [
  | inl e ↦ rw e
  | inr e ↦ rw e (drop-all (length xs) xs (omega arith) ∙ sym (drop-all 244 xs (ltb→le _ _ e)))
]

chunk_len_bounds : (n : ℕ) → (chunk_len n ≤ n) × (chunk_len n ≤ 244) × (0 < n → 0 < chunk_len n)
unfolding chunk_len
chunk_len_bounds n = (ground arith, ground arith, λ h. ground arith)

data_packet_lem :
    (bytes : List ℕ) (offset : ℕ)
    → data_packet bytes offset ≡ packet Command.ota_data (take 244 (drop offset bytes))
unfolding data_packet
data_packet_lem bytes offset =
    let len = length-drop offset bytes in
    let same = take-chunk_len (drop offset bytes) in
    let size : chunk_len (length bytes - offset) ≡ length (take 244 (drop offset bytes)) =
      sym (ap chunk_len len)
      ∙ omega (
        arith,
        length-take (chunk_len (length (drop offset bytes))) (drop offset bytes),
        chunk_len_bounds (length (drop offset bytes)),
        ap length same,
      ) in
    rw (← same, ← len)
      (ap
        (λ k.
          header Command.ota_data (u8 k)
          ++ take (chunk_len (length (drop offset bytes))) (drop offset bytes))
        (ap chunk_len len ∙ size ∙ ap length (sym same)))

module _ {S : Type 0} (send : List ℕ → S → Err × S) where
  pub stream_lem :
      (fuel : ℕ) (bytes : List ℕ) (offset : ℕ) (s : S)
      → length bytes - offset ≤ fuel
      → stream send fuel bytes offset s
        ≡ send_all send (data_packets (chunks fuel (drop offset bytes))) s
  unfolding stream send_all
  stream_lem zero bytes offset s h =
      rw (nil_of_ge zero (drop offset bytes) (omega (arith, length-drop offset bytes)))
  stream_lem (suc fuel) bytes offset s h =
      let len = length-drop offset bytes in
      elim (Bool-cases (ltb offset (length bytes))) [
        | inr e ↦
            let ge = ltb→le _ _ e in
            rw e (rw (nil_of_ge (suc fuel) (drop offset bytes) (omega arith)))
        | inl e ↦
            let lt = ltb→lt _ _ e in
            let bounds = chunk_len_bounds (length bytes - offset) in
            let pos = bounds.2 (omega arith) in
            let next : drop (offset + chunk_len (length bytes - offset)) bytes
                ≡ drop 244 (drop offset bytes) =
              drop-add offset (chunk_len (length bytes - offset)) bytes
              ∙ ap (λ k. drop (chunk_len k) (drop offset bytes)) (sym len)
              ∙ drop-chunk_len (drop offset bytes) in
            let out = send (packet Command.ota_data (take 244 (drop offset bytes))) s in
            rw (e, cons_of_lt fuel (drop offset bytes) (omega arith), data_packet_lem bytes offset)
              (ap (λ k. if is_ok out.0 then k else (out.0, out.1))
                (stream_lem fuel bytes (offset + chunk_len (length bytes - offset)) out.1
                    (omega arith)
                  ∙ ap (λ d. send_all send (data_packets (chunks fuel d)) out.1) next))
      ]

  finish_lem :
      (ps : List (List ℕ)) (s : S)
      → finish send (send_all send ps s) ≡ send_all send (ps ++ header Command.ota_end 0 ∷ []) s
  unfolding finish send_all
  finish_lem [] s = refl
  finish_lem (p ∷ ps) s = elim (Bool-cases (is_ok (send p s).0)) [
    | inl e ↦ simp e (finish_lem ps (send p s).1)
    | inr e ↦ simp e refl
  ]

-- Pushing an image that is there and not empty is the same as sending, in order and up to the first
-- failure, whose code is the result, OTA_BEGIN with the size and the CRC, the image in OTA_DATA
-- packets, and OTA_END; whatever the sending does.
pub ota_push-send_all :
    {S : Type 0} (crc32 : ℕ → List ℕ → ℕ) (send : List ℕ → S → Err × S) (bytes : List ℕ) (s : S)
    → 0 < length bytes
    → ota_push_to_node crc32 send (some bytes) s ≡ send_all send (packets crc32 bytes) s
unfolding ota_push_to_node send_all
ota_push-send_all crc32 send bytes s h =
    let out = send (begin_packet crc32 bytes) s in
    rw (==_ne (length bytes) 0 (omega arith)) (
      ap (λ k. if is_ok out.0 then k else (out.0, out.1))
        (ap (finish send) (stream_lem send (length bytes) bytes 0 out.1 (omega arith))
          ∙ finish_lem send (data_packets (pieces bytes)) out.1))

-- The OTA_DATA packets of a push carry the image, whole and in order, and each has between 1 and 244
-- bytes of it.
pub join-pieces : (bytes : List ℕ) → (join (pieces bytes) ≡ bytes) × All IsPiece (pieces bytes)
join-pieces bytes =
    (join-chunks (length bytes) bytes (omega arith), chunks-IsPiece (length bytes) bytes)
