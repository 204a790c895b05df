-- ===== src/Node/Ota/History.antt =====
-- Any sequence of calls of node/main/ota_handler.c, against a machine that only knows the bytes.
pub mod Tracked
use klippylink.Common.{
  ℕ, zero, suc, ◌+◌, ◌-◌, ◌*◌, ◌/◌, ◌%◌, ◌^◌, ◌≤◌, ◌<◌, min, ◌≡◌, refl, sym, ap, ap₂, ◌∙◌, subst,
  ◌≢◌, ◌↔◌, ◌⊎◌, inl, inr, Bool, true, false, not, ◌&&◌, ◌||◌, Option, none, some, List, [], ◌∷◌,
  ◌++◌, map, append-nil, append_assoc, arith, ltb, leb, ◌==◌, if◌then◌else◌, ltb→lt, ltb→le, lt→ltb,
  le→ltb, leb→le, leb→lt, le→leb, lt→leb, ==_iff, ==_refl, ==_ne, ==→ne, Bool-cases, Option-cases,
  length, get_elem?, get_or, set, take, drop, replicate, length-append, length-set,
  get_elem?-set_self, get_elem?-set_ne, get_elem?-none, take-append-drop, length-take, length-drop,
  length-replicate, take-all, take-append_left, take-suc-set, take-take, get_or-take,
  get_or-append_left, All, All-append, get_elem?-append_last,
}
use klippylink.Esp.{Err, is_ok}
use klippylink.Protocol.{OtaStatus}
use klippylink.Node.Ota.Driver.{Platform, Laws}
use klippylink.Node.Ota.{
  Event, World, tell, ota_abort, ota_begin, ota_write, ota_end, crc_rejects, actual_crc,
}
use klippylink.Node.Ota.Branches.{
  ota_abort-active, log-ota_abort, inactive_refused, Begun, Finished, ota_begin_lem, ota_write_lem,
  ota_end_lem,
}
use klippylink.Node.Ota.Transfer.{
  driver_ok, IsReceiving, ota_begin-IsReceiving, ota_write-IsReceiving,
}
use klippylink.Node.Ota.Session.{crc_rejects-IsReceiving}

-- A call from outside; the callback is always the one of gatt_server.c.
pub data Call : Type 0 where
  begin : ℕ → ℕ → Call
  write : List ℕ → Call
  finish : Call
  abort : Call

-- No update, or one with its announced CRC and the bytes so far; and the restarts so far.
pub record Spec : Type 0 where
  pub update : Option (ℕ × List ℕ)
  pub restarts : ℕ

abbrev pub append_to : Option (ℕ × List ℕ) → List ℕ → Option (ℕ × List ℕ)
append_to none bytes = none
append_to (some (crc32, old)) bytes = some (crc32, old ++ bytes)

-- An image may be started if no CRC was announced or it has the announced one.
abbrev pub may_start : (List ℕ → ℕ) → Option (ℕ × List ℕ) → Bool
may_start crc none = false
may_start crc (some (crc32, bytes)) = crc32 == 0 || crc bytes == crc32

-- What a call does, given whether it succeeds: that is up to the driver, but for the restart, which
-- takes an image that may be started.
abbrev pub advance : (List ℕ → ℕ) → Call → Bool → Spec → Spec
advance crc (begin size crc32) true s = record s { update = some (crc32, []) }
advance crc (write bytes) true s = record s { update = append_to s.update bytes }
advance crc finish true s = record {
  update = none;
  restarts = if may_start crc s.update then s.restarts + 1 else s.restarts;
}
advance crc abort true s = record s { update = none }
advance crc c false s = record s { update = none }

abbrev pub restarts : List Event → ℕ
restarts [] = 0
restarts (Event.restart ∷ es) = suc (restarts es)
restarts (Event.status st ∷ es) = restarts es

pub restarts-append : (xs ys : List Event) → restarts (xs ++ ys) ≡ restarts xs + restarts ys
restarts-append [] ys = omega arith
restarts-append (Event.restart ∷ xs) ys = let h = restarts-append xs ys in omega arith
restarts-append (Event.status st ∷ xs) ys = restarts-append xs ys

pub restarts-tell :
    (cb : Bool) (st : OtaStatus) (log : List Event) → restarts (tell cb st log) ≡ restarts log
restarts-tell true st log = omega (arith, restarts-append log (Event.status st ∷ []))
restarts-tell false st log = refl

module _ (P : Platform) where
  abbrev pub perform : Call → World P → Err × World P
  perform (begin size crc32) w = ota_begin P size crc32 true w
  perform (write bytes) w = ota_write P bytes w
  perform finish w = ota_end P w
  perform abort w = (Err.esp_ok, ota_abort P w)

  unfoldable pub perform_all : List Call → World P → World P
  perform_all [] w = w
  perform_all (c ∷ cs) w = perform_all cs (perform c w).1

  -- The machine beside it, which learns of each call whether it succeeded.
  unfoldable pub track_all : List Call → World P → Spec → Spec
  track_all [] w s = s
  track_all (c ∷ cs) w s =
      track_all cs (perform c w).1 (advance (P.crc 0) c (is_ok (perform c w).0) s)
