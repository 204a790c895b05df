-- ===== src/Router/Serial.antt =====
-- router/main/serial_bridge.c: the serial line between the host and the router.
pub mod Reads
pub mod Writes
use klippylink.Common.{
  ℕ, zero, suc, ◌+◌, ◌-◌, ◌*◌, ◌/◌, ◌%◌, ◌^◌, ◌≤◌, ◌<◌, min, ◌≡◌, refl, sym, ap, ap₂, ◌∙◌, subst,
  ◌≢◌, ◌↔◌, ◌⊎◌, inl, inr, Bool, true, false, not, ◌&&◌, ◌||◌, Option, none, some, List, [], ◌∷◌,
  ◌++◌, map, append-nil, append_assoc, arith, ltb, leb, ◌==◌, if◌then◌else◌, ltb→lt, ltb→le, lt→ltb,
  le→ltb, leb→le, leb→lt, le→leb, lt→leb, ==_iff, ==_refl, ==_ne, ==→ne, Bool-cases, Option-cases,
  length, get_elem?, get_or, set, take, drop, replicate, length-append, length-set,
  get_elem?-set_self, get_elem?-set_ne, get_elem?-none, take-append-drop, length-take, length-drop,
  length-replicate, take-all, take-append_left, take-suc-set, take-take, get_or-take,
  get_or-append_left, All, All-append, get_elem?-append_last,
}
use klippylink.Esp.{Err, is_ok}
use klippylink.Protocol.{u8}
use klippylink.Router.Registry.{Registry}
use klippylink.Router.Parser.{Parser, Send, command_parser_feed}

-- `s_tx_mutex` is there or not, and the bytes that were written to the line.
pub record Bridge : Type 0 where
  pub has_mutex : Bool
  pub output : List ℕ

-- What `uart_driver_install` and `uart_param_config` return, and whether there is memory for the
-- mutex; `none` is an abort.
unfoldable pub serial_bridge_init : Err → Err → Bool → Bridge → Option Bridge
serial_bridge_init installed configured mutex_ok b =
    if is_ok installed && is_ok configured && mutex_ok
    then some (record b { has_mutex = true })
    else none

-- A round of `rx_task`: `none` is an error of `uart_read_bytes`, and no bytes its timeout.
unfoldable pub rx_round : Registry → Option (List ℕ) → Parser → Parser × List Send
rx_round r none p = (p, [])
rx_round r (some bytes) p = if ltb 0 (length bytes) then command_parser_feed r p bytes else (p, [])

-- Rounds of `rx_task` while the registry stays.
unfoldable pub rx_task : Registry → List (Option (List ℕ)) → Parser → Parser × List Send
rx_task r [] p = (p, [])
rx_task r (x ∷ xs) p =
    let (q, sent) = rx_round r x p in let (q', more) = rx_task r xs q in (q', sent ++ more)

-- The two writes that `serial_bridge_emit` makes under the mutex, of `len` bytes in the second.
unfoldable pub emit_id : ℕ → Bridge → Bridge
emit_id node_id b = record b { output = b.output ++ u8 node_id ∷ [] }

unfoldable pub emit_data : List ℕ → ℕ → Bridge → Bridge
emit_data bytes len b = record b { output = b.output ++ take len bytes }

-- A call that no other comes into.
unfoldable pub serial_bridge_emit : ℕ → List ℕ → ℕ → Bridge → Bridge
serial_bridge_emit node_id bytes len b =
    if b.has_mutex then emit_data bytes len (emit_id node_id b) else b
