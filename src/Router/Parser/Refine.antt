-- ===== src/Router/Parser/Refine.antt =====
-- The parser with its buffer and offset behaves as the view of its pending bytes.
use klippylink.Common.{
  ℕ, zero, suc, ◌+◌, ◌-◌, ◌≤◌, ◌<◌, ◌≡◌, refl, sym, ap, ◌∙◌, inl, inr, true, List, [], ◌∷◌, ◌++◌,
  arith, leb, ◌==◌, if◌then◌else◌, leb→le, leb→lt, Bool-cases, length, set, take, drop, length-take,
  length-drop, take-all, take-append_left, take-suc-set, take-take, get_or-take,
}
use klippylink.Protocol.{klipproto_magic, packet_magic}
use klippylink.Router.Registry.{Registry}
use klippylink.Router.Parser.{
  Parser, Send, route, total_len, shift_left, store, discard, check, complete, feed_byte,
  command_parser_feed,
}
use klippylink.Router.Parser.Spec.{View, settle, accept, accept_all}
use klippylink.Router.Parser.Bounds.{IsValid, feed_byte-Keeps, store-IsValid}

-- What a parser has pending: the first `rx_offset` bytes of its buffer.
abbrev pub view : Parser → View
view p =
    if p.rx_have_nid then View.pending p.rx_node_id (take p.rx_offset p.rx_buffer) else View.idle

abbrev View-of : Parser × List Send → View × List Send
View-of out = (view out.0, out.1)

length-pending : (p : Parser) → IsValid p → length (take p.rx_offset p.rx_buffer) ≡ p.rx_offset
length-pending p v = omega (arith, length-take p.rx_offset p.rx_buffer, v.size, v.within)

take-append_exact {ℓ} :
    {A : Type ℓ} (xs ys : List A) (n : ℕ) → length xs ≡ n → take n (xs ++ ys) ≡ xs
take-append_exact xs ys n h = take-append_left n xs ys (omega arith) ∙ take-all n xs (omega arith)

take-drop_one {ℓ} :
    {A : Type ℓ} (n : ℕ) (xs : List A) → 1 ≤ n → take (n - 1) (drop 1 xs) ≡ drop 1 (take n xs)
take-drop_one zero xs h = elim h [ ]
take-drop_one (suc n) [] h = take-all _ [] (omega arith)
take-drop_one (suc n) (x ∷ xs) h = ap (λ k. take k xs) (omega arith)

-- Shifting the buffer drops the first pending byte.
take-shift_left :
    (n : ℕ) (xs : List ℕ)
    → 1 ≤ n
    → n ≤ length xs
    → take (n - 1) (shift_left n xs) ≡ drop 1 (take n xs)
unfolding shift_left
take-shift_left n xs h k =
    take-append_exact (take (n - 1) (drop 1 xs)) (drop (n - 1) xs) (n - 1)
      (omega (arith, length-take (n - 1) (drop 1 xs), length-drop 1 xs))
    ∙ take-drop_one n xs h

abbrev Live : Parser → Type 0
Live p = p.rx_have_nid ≡ true

view-discard :
    (p : Parser)
    → IsValid p
    → Live p
    → 1 ≤ p.rx_offset
    → view (discard p) ≡ View.pending p.rx_node_id (drop 1 (take p.rx_offset p.rx_buffer))
unfolding discard
view-discard p v l h = simp l (
    ap (View.pending p.rx_node_id)
      (take-shift_left p.rx_offset p.rx_buffer h (omega (arith, v.size, v.within))))

complete_refines :
    (r : Registry) (p : Parser)
    → IsValid p
    → Live p
    → 4 ≤ p.rx_offset
    → View-of (complete r p) ≡ (
        if leb (total_len (take p.rx_offset p.rx_buffer)) p.rx_offset
        then (
          View.idle,
          route r p.rx_node_id
              (take (total_len (take p.rx_offset p.rx_buffer)) (take p.rx_offset p.rx_buffer)),
        )
        else (View.pending p.rx_node_id (take p.rx_offset p.rx_buffer), []))
unfolding complete
complete_refines r p v l h =
    simp (get_or-take 3 p.rx_offset p.rx_buffer 0 (omega arith))
      (elim (Bool-cases (leb (total_len p.rx_buffer) p.rx_offset)) [
        | inl e ↦
            let q = take-take (total_len p.rx_buffer) p.rx_offset p.rx_buffer (leb→le _ _ e) in
            simp e (ap (λ k. (View.idle, route r p.rx_node_id k)) (sym q))
        | inr e ↦ simp e (simp l refl)
      ])

check_refines :
    (r : Registry) (p : Parser)
    → IsValid p
    → Live p
    → View-of (check r p) ≡ settle r p.rx_node_id (take p.rx_offset p.rx_buffer)
unfolding check settle
check_refines r p v l = simp (length-pending p v) (elim (Bool-cases (leb 4 p.rx_offset)) [
  | inr e ↦ simp e (simp l refl)
  | inl e ↦
      let h : 4 ≤ p.rx_offset = leb→le _ _ e in
      let m₀ = get_or-take 0 p.rx_offset p.rx_buffer 0 (omega arith) in
      let m₁ = get_or-take 1 p.rx_offset p.rx_buffer 0 (omega arith) in
      simp (e, m₀, m₁)
        (elim (Bool-cases (packet_magic p.rx_buffer == klipproto_magic)) [
          | inl m ↦ simp m (complete_refines r p v l h)
          | inr m ↦ simp m (ap (λ w. (w, [])) (view-discard p v l (omega arith)))
        ])
])

Live-store : (b : ℕ) (p : Parser) → Live p → Live (store b p)
unfolding store
Live-store b p l = l

node_id-store : (b : ℕ) (p : Parser) → (store b p).rx_node_id ≡ p.rx_node_id
unfolding store
node_id-store b p = refl

pending-store :
    (b : ℕ) (p : Parser)
    → IsValid p
    → p.rx_offset < 248
    → take (store b p).rx_offset (store b p).rx_buffer ≡ take p.rx_offset p.rx_buffer ++ (b ∷ [])
unfolding store
pending-store b p v h =
    let next : p.rx_offset + 1 ≡ suc p.rx_offset = omega arith in
    ap (λ k. take k (set p.rx_buffer p.rx_offset b)) next
    ∙ take-suc-set p.rx_offset p.rx_buffer b (omega (arith, v.size))

-- One byte: the parser's step is the view's step.
feed_byte_refines :
    (r : Registry) (p : Parser) (b : ℕ)
    → IsValid p
    → View-of (feed_byte r p b) ≡ accept r (view p) b
unfolding feed_byte accept
feed_byte_refines r p b v = elim (Bool-cases p.rx_have_nid) [
  | inr e ↦ simp e refl
  | inl e ↦
      simp (e, length-pending p v)
        (elim (Bool-cases (leb 248 p.rx_offset)) [
          | inl h ↦ simp h refl
          | inr h ↦ simp h (
              check_refines r (store b p) (store-IsValid b p v (leb→lt _ _ h)) (Live-store b p e)
              ∙ stored (leb→lt _ _ h))
        ])
]
  where
    stored :
        p.rx_offset < 248
        → settle r (store b p).rx_node_id (take (store b p).rx_offset (store b p).rx_buffer)
          ≡ settle r p.rx_node_id (take p.rx_offset p.rx_buffer ++ (b ∷ []))
    stored h = rw (pending-store b p v h, node_id-store b p)

-- Over any bytes, a parser whose buffer is in order goes through the views of its pending bytes and
-- sends what the view sends: the buffer, its offset and its `memmove` are not seen from outside.
pub command_parser_feed_refines :
    (r : Registry) (p : Parser) (bs : List ℕ)
    → IsValid p
    → (let (q, sent) = command_parser_feed r p bs in (view q, sent)) ≡ accept_all r (view p) bs
unfolding command_parser_feed accept_all
command_parser_feed_refines r p [] v = refl
command_parser_feed_refines r p (b ∷ bs) v = rw (
  ← feed_byte_refines r p b v,
  ← command_parser_feed_refines r (feed_byte r p b).0 bs (feed_byte-Keeps r p b v).0,
)
