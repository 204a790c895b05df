-- ===== src/Discovery/Described.antt =====
-- The tables of the router after the description.
use klippylink.Common.{
  ℕ, zero, suc, ◌+◌, ◌%◌, ◌<◌, ◌≡◌, refl, sym, ap, ◌∙◌, true, false, some, List, [], ◌∷◌, ◌++◌, map,
  arith, ltb, lt→ltb, le→ltb, ==_ne, length, get_or, set, take, take-all,
}
use klippylink.Protocol.{klip_max_payload_size, Command, header}
use klippylink.Json.{Json, >>=-same, c_string}
use klippylink.Json.Doc.{Shows}
use klippylink.Router.Registry.{Node, NodeNeopixel, NodeEndstop, blank_neopixel, blank_endstop}
use klippylink.Router.Registry.Info.{
  item_name, item_count, info_name, info_neopixel, info_endstop, info_neopixels, info_endstops,
  info_neopixel_part, info_endstop_part, node_update_info,
}
use klippylink.Router.Central.{take_info}
use klippylink.Node.Config.{NeopixelCfg, EndstopCfg, DeviceCfg, fill_slots}
use klippylink.Node.Config.Bounds.{NeopixelFits, EndstopFits, IsBounded}
use klippylink.Node.Gatt.Info.{strip_doc, input_doc, info_doc, info_len, info_packet}
use klippylink.Discovery.{strip_of, Learnt, view_lem}

module _ (J : Json) where
  -- The two loops of `node_update_info` are the same loop.
  info_neopixels-fill_slots :
      (arr : J.Value) (k i : ℕ) (ps : List NodeNeopixel)
      → info_neopixels J arr k i ps ≡ fill_slots J (info_neopixel J) blank_neopixel arr k i ps
  unfolding info_neopixels fill_slots
  info_neopixels-fill_slots arr zero i ps = refl
  info_neopixels-fill_slots arr (suc k) i ps =
      >>=-same (info_neopixel J (J.get_array_item arr i) (get_or ps i blank_neopixel))
        (λ p. info_neopixels-fill_slots arr k (suc i) (set ps i p))

  info_endstops-fill_slots :
      (arr : J.Value) (k i : ℕ) (ps : List NodeEndstop)
      → info_endstops J arr k i ps ≡ fill_slots J (info_endstop J) blank_endstop arr k i ps
  unfolding info_endstops fill_slots
  info_endstops-fill_slots arr zero i ps = refl
  info_endstops-fill_slots arr (suc k) i ps =
      >>=-same (info_endstop J (J.get_array_item arr i) (get_or ps i blank_endstop))
        (λ p. info_endstops-fill_slots arr k (suc i) (set ps i p))

  info_neopixel-Shows :
      (v : J.Value) (n : NeopixelCfg) (old : NodeNeopixel)
      → Shows J (strip_doc n) v
      → NeopixelFits n
      → (p : NodeNeopixel) × (info_neopixel J v old ≡ some p) × (p ≡ strip_of n)
  unfolding info_neopixel item_name item_count
  info_neopixel-Shows v n old ((a, ea, sa), ((b, eb, sb), _)) fits =
      let short : take 31 n.name ≡ n.name =
        take-all 31 n.name (let h = fits.name_fits in omega arith) in
      rw (ea, eb, sa.1, sb.1, short) (strip_of n, refl, refl)

  info_endstop-Shows :
      (v : J.Value) (e : EndstopCfg) (old : NodeEndstop)
      → Shows J (input_doc e) v
      → EndstopFits e
      → (p : NodeEndstop) × (info_endstop J v old ≡ some p) × (p.name ≡ e.name)
  unfolding info_endstop item_name
  info_endstop-Shows v e old ((a, ea, sa), _) fits =
      let short : take 31 e.name ≡ e.name =
        take-all 31 e.name (let h = fits.name_fits in omega arith) in
      rw (ea, sa.1, short) (record { name = e.name; triggered = old.triggered }, refl, refl)

  map-id : {A : Type 0} (xs : List A) → map (λ x. x) xs ≡ xs
  map-id [] = refl
  map-id (x ∷ xs) = ap (λ l. x ∷ l) (map-id xs)

  node_update_info-Learnt :
      (c : DeviceCfg) (n : Node) (json : List ℕ) (root : J.Value)
      → J.parse json ≡ some root
      → Shows J (info_doc c) root
      → IsBounded c
      → length n.neopixels ≡ 4
      → length n.endstops ≡ 8
      → (n' : Node) × (node_update_info J n json ≡ some n') × Learnt c n n'
  unfolding node_update_info info_name info_neopixel_part info_endstop_part
  node_update_info-Learnt c n json root p ((m, em, sm), (_, ((s, es, ss), ((e, ee, se), _)))) b ls
        le =
      let short : take 31 c.device_name ≡ c.device_name =
        take-all 31 c.device_name (let h = b.name_fits in omega arith) in
      let (cs, ns, fs, vs) =
        view_lem J NeopixelFits strip_doc (info_neopixel J) blank_neopixel (λ x. x) strip_of s
          c.neopixel_count 4 c.neopixels n.neopixels info_neopixel-Shows b.neopixels_fit
          b.neopixels_size ls b.neopixels_used ss in
      let (ce, is, fe, ve) =
        view_lem J EndstopFits input_doc (info_endstop J) blank_endstop (λ x. x.name) (λ x. x.name)
          e c.endstop_count 8 c.endstops n.endstops info_endstop-Shows b.endstops_fit
          b.endstops_size le b.endstops_used se in
      let gs = info_neopixels-fill_slots s c.neopixel_count 0 n.neopixels ∙ fs in
      let ge = info_endstops-fill_slots e c.endstop_count 0 n.endstops ∙ fe in
      let n' : Node = record n {
        name = c.device_name;
        neopixels = ns;
        neopixel_count = c.neopixel_count;
        endstops = is;
        endstop_count = c.endstop_count;
        info_received = true;
      } in
      (
        n',
        rw (p, node_update_info)
            (rw (em, sm.0, sm.1, short) (rw (es, ss.0, cs, gs) (rw (ee, se.0, ce, ge) refl))),
        record {
          name = refl;
          strips = sym (map-id (take c.neopixel_count ns)) ∙ vs;
          inputs = ve;
          received = refl;
          connection = (refl, refl, refl);
        },
      )

  info_packet_lem :
      (json : List ℕ)
      → length json < klip_max_payload_size
      → info_packet json ≡ header Command.device_info_resp (length json) ++ json
  unfolding info_packet info_len
  info_packet_lem json small =
      let byte : length json % 256 ≡ length json = omega arith in
      simp
        (
          lt→ltb (length json) klip_max_payload_size small,
          byte,
          take-all (length json) json (omega arith),
        )
        refl

  take_info_lem :
      (n : Node) (json : List ℕ)
      → 0 < length json
      → length json < klip_max_payload_size
      → c_string json ≡ json
      → take_info J (header Command.device_info_resp (length json) ++ json) n
        ≡ node_update_info J n json
  unfolding take_info
  take_info_lem n json pos small text =
      let some_bytes = ==_ne (length json) 0 (omega arith) in
      let fits = le→ltb klip_max_payload_size (length json) (omega arith) in
      let whole : ltb (length (header Command.device_info_resp (length json) ++ json))
            (4 + length json)
          ≡ false =
        le→ltb _ (4 + length json) (omega arith) in
      simp (some_bytes, fits, whole, take-all (length json) json (omega arith), text) refl

  -- A node that describes a configuration in its bounds, in a text without a zero byte that is not
  -- empty, is shorter than 244 bytes and shows it when parsed, is known to the router afterwards:
  -- the slot of its connection, with its arrays of 4 and 8, has the name, the strips with their
  -- numbers of LEDs and the names of the endstops of that configuration, in order, whatever the
  -- slot said before, and the connection in it is as it was.
  pub take_info-info_packet :
      (c : DeviceCfg) (n : Node) (json : List ℕ) (root : J.Value)
      → 0 < length json
      → length json < klip_max_payload_size
      → c_string json ≡ json
      → J.parse json ≡ some root
      → Shows J (info_doc c) root
      → IsBounded c
      → length n.neopixels ≡ 4
      → length n.endstops ≡ 8
      → (n' : Node) × (take_info J (info_packet json) n ≡ some n') × Learnt c n n'
  take_info-info_packet c n json root pos small text p shown b ls le =
      let (n', e, l) = node_update_info-Learnt c n json root p shown b ls le in
      (
        n',
        ap (λ k. take_info J k n) (info_packet_lem json small)
            ∙ take_info_lem n json pos small text
            ∙ e,
        l,
      )
