-- ===== src/Discovery.antt =====
-- What a router learns of a node: node/main/gatt_server.c describes the node in a packet, and
-- router/main/ble_central.c and router/main/node_registry.c take the description.
pub mod Described
pub mod Tests
use klippylink.Common.{
  ℕ, zero, suc, ◌+◌, ◌-◌, ◌*◌, ◌/◌, ◌%◌, ◌^◌, ◌≤◌, ◌<◌, min, ◌≡◌, refl, sym, ap, ap₂, ◌∙◌, subst,
  ◌≢◌, ◌↔◌, ◌⊎◌, inl, inr, Bool, true, false, not, ◌&&◌, ◌||◌, Option, none, some, List, [], ◌∷◌,
  ◌++◌, map, append-nil, append_assoc, arith, ltb, leb, ◌==◌, if◌then◌else◌, ltb→lt, ltb→le, lt→ltb,
  le→ltb, leb→le, leb→lt, le→leb, lt→leb, ==_iff, ==_refl, ==_ne, ==→ne, Bool-cases, Option-cases,
  length, get_elem?, get_or, set, take, drop, replicate, length-append, length-set,
  get_elem?-set_self, get_elem?-set_ne, get_elem?-none, take-append-drop, length-take, length-drop,
  length-replicate, take-all, take-append_left, take-suc-set, take-take, get_or-take,
  get_or-append_left, All, All-append, get_elem?-append_last,
}
use klippylink.Protocol.{
  u8, klip_header_size, klip_max_payload_size, packet_length, packet_payload, Command, header,
}
use klippylink.Json.{Json, ◌>>=◌, >>=-same, c_string}
use klippylink.Json.Doc.{Doc, docs, Shows, ShowsAt}
use klippylink.Router.Registry.{Node, NodeNeopixel, NodeEndstop, blank_neopixel, blank_endstop}
use klippylink.Router.Registry.Info.{
  item_name, item_count, info_name, info_neopixel, info_endstop, info_neopixels, info_endstops,
  info_neopixel_part, info_endstop_part, node_update_info,
}
use klippylink.Router.Central.{take_info}
use klippylink.Node.Config.{NeopixelCfg, EndstopCfg, DeviceCfg, fill_slots}
use klippylink.Node.Config.Bounds.{NeopixelFits, EndstopFits, IsBounded}
use klippylink.Node.Config.Saved.{set-append, size-docs, All-take}
use klippylink.Node.Gatt.Info.{strip_doc, input_doc, info_doc, info_len, info_packet}

-- What the router's tables say of a strip.
abbrev pub strip_of : NeopixelCfg → NodeNeopixel
strip_of n = record { name = n.name; count = n.count }

-- The name, the strips and the names of the endstops are those of the configuration, and the
-- connection is as it was.
pub record Learnt (c : DeviceCfg) (n n' : Node) : Type 0 where
  pub name : n'.name ≡ c.device_name
  pub strips :
      take n'.neopixel_count n'.neopixels ≡ map strip_of (take c.neopixel_count c.neopixels)
  pub inputs :
      map (λ e. e.name) (take n'.endstop_count n'.endstops)
      ≡ map (λ e. e.name) (take c.endstop_count c.endstops)
  pub received : n'.info_received ≡ true
  pub connection : (n'.conn_id ≡ n.conn_id) × (n'.connected ≡ n.connected) × (n'.bda ≡ n.bda)

-- The slots in use, seen through `view`.
take-filled :
    {A B C : Type 0} (view : B → C) (want : A → C) (ys : List A) (xs rest : List B) (k : ℕ)
    → k ≡ length ys
    → map view xs ≡ map want ys
    → length xs ≡ length ys
    → map view (take k (xs ++ rest)) ≡ map want ys
take-filled view want ys xs rest k e q l =
    let same : take k (xs ++ rest) ≡ xs =
      take-append_left k xs rest (omega (arith, e, l)) ∙ take-all k xs (omega (arith, e, l)) in
    ap (map view) same ∙ q

module _ (J : Json) where
  -- The loop over the items of an array that shows the documents of `ys`, whatever the slots were.
  fill_slots-view :
      {A B C : Type 0} (P : A → Type 0) (doc : A → Doc) (f : J.Value → B → Option B) (blank : B)
      (view : B → C) (want : A → C) (arr : J.Value) (ys : List A) (pre olds rest : List B)
      → ((v : J.Value) (y : A) (old : B)
          → Shows J (doc y) v
          → P y
          → (b : B) × (f v old ≡ some b) × (view b ≡ want y))
      → All P ys
      → length olds ≡ length ys
      → ShowsAt J (docs (map doc ys)) (length pre) arr
      → (xs : List B) × (fill_slots J f blank arr (length ys) (length pre) (pre ++ (olds ++ rest))
          ≡ some (pre ++ (xs ++ rest)))
        × (map view xs ≡ map want ys)
        × (length xs ≡ length ys)
  unfolding fill_slots
  fill_slots-view P doc f blank view want arr [] pre [] rest step all l shown =
      ([], refl, refl, refl)
  fill_slots-view P doc f blank view want arr [] pre (o ∷ olds) rest step all l shown =
      absurd (omega arith)
  fill_slots-view P doc f blank view want arr (y ∷ ys) pre [] rest step all l shown =
      absurd (omega arith)
  fill_slots-view P doc f blank view want arr (y ∷ ys) pre (o ∷ olds) rest step all l (sh, shown) =
      let (b, e, q) =
        step (J.get_array_item arr (length pre)) y
          (get_or (pre ++ o ∷ (olds ++ rest)) (length pre) blank) sh all.0 in
      let next : length (pre ++ b ∷ []) ≡ suc (length pre) =
        omega (arith, length-append pre (b ∷ [])) in
      let (xs, filled, seen, size) =
        fill_slots-view P doc f blank view want arr ys (pre ++ b ∷ []) olds rest step all.1
          (omega arith) (subst (λ k. ShowsAt J (docs (map doc ys)) k arr) (sym next) shown) in
      (
        b ∷ xs,
        rw (e, set-append pre o (olds ++ rest) b)
            (subst
                (λ k.
                  fill_slots J f blank arr (length ys) k ((pre ++ b ∷ []) ++ (olds ++ rest))
                  ≡ some ((pre ++ b ∷ []) ++ (xs ++ rest)))
                next filled
              ∙ ap some (append_assoc pre (b ∷ []) (xs ++ rest))),
        ap₂ (λ x l. x ∷ l) q seen,
        ap suc size,
      )

  -- A full loop over an array that shows the first `n` of `xs`.
  pub view_lem :
      {A B C : Type 0} (P : A → Type 0) (doc : A → Doc) (f : J.Value → B → Option B) (blank : B)
      (view : B → C) (want : A → C) (arr : J.Value) (n size : ℕ) (xs : List A) (slots : List B)
      → ((v : J.Value) (y : A) (old : B)
          → Shows J (doc y) v
          → P y
          → (b : B) × (f v old ≡ some b) × (view b ≡ want y))
      → All P xs
      → length xs ≡ size
      → length slots ≡ size
      → n ≤ size
      → Shows J (Doc.array (docs (map doc (take n xs)))) arr
      → (min (J.get_array_size arr) size ≡ n)
        × (slots' : List B) × (fill_slots J f blank arr n 0 slots ≡ some slots')
        × (map view (take n slots') ≡ map want (take n xs))
  view_lem P doc f blank view want arr n size xs slots step all len len' le (is, count, shown) =
      let taken : length (take n xs) ≡ n = omega (arith, length-take n xs) in
      let olds : length (take n slots) ≡ length (take n xs) = omega (arith, length-take n slots) in
      let sized : J.get_array_size arr ≡ n = count ∙ (size-docs doc (take n xs) ∙ taken) in
      let (bs, filled, seen, size') =
        fill_slots-view P doc f blank view want arr (take n xs) [] (take n slots) (drop n slots)
          step (All-take P n xs all) olds shown in
      (
        omega (arith, sized),
        bs ++ drop n slots,
        ap (λ l. fill_slots J f blank arr n 0 l) (sym (take-append-drop n slots))
            ∙ subst
                (λ k.
                  fill_slots J f blank arr k 0 (take n slots ++ drop n slots)
                  ≡ some (bs ++ drop n slots))
                taken filled,
        take-filled view want (take n xs) bs (drop n slots) n (sym taken) seen size',
      )
