-- ===== src/Router/Serial/Writes.antt =====
-- What the router writes, when several tasks emit at once.
use klippylink.Common.{
  ℕ, ◌≡◌, refl, sym, ap, ◌∙◌, true, List, [], ◌∷◌, ◌++◌, append-nil, append_assoc, arith, length,
  take-all,
}
use klippylink.Protocol.{u8}
use klippylink.Router.Serial.{Bridge, emit_id, emit_data}
use klippylink.Router.Parser.Frames.{wire}

-- How far the call that holds the mutex is.
pub data Holder : Type 0 where
  nobody : Holder
  before_id before_data after_data : ℕ → List ℕ → Holder

-- The line, and who holds the mutex.
pub record Line : Type 0 where
  pub bridge : Bridge
  pub holder : Holder

-- A step of some task in `serial_bridge_emit`, of a node id and the bytes that it names. The mutex is
-- taken only while nobody holds it.
pub data EmitStep (s : Line) : Line → Type 0 where
  takes :
      (nid : ℕ) (bytes : List ℕ)
      → s.bridge.has_mutex ≡ true
      → s.holder ≡ Holder.nobody
      → EmitStep s (record s { holder = Holder.before_id nid bytes })
  writes_id :
      (nid : ℕ) (bytes : List ℕ)
      → s.holder ≡ Holder.before_id nid bytes
      → EmitStep s (record { bridge = emit_id nid s.bridge; holder = Holder.before_data nid bytes })
  writes_data :
      (nid : ℕ) (bytes : List ℕ)
      → s.holder ≡ Holder.before_data nid bytes
      → EmitStep s (record {
        bridge = emit_data bytes (length bytes) s.bridge;
        holder = Holder.after_data nid bytes;
      })
  gives :
      (nid : ℕ) (bytes : List ℕ)
      → s.holder ≡ Holder.after_data nid bytes
      → EmitStep s (record s { holder = Holder.nobody })

pub data EmitRun (s : Line) : Line → Type 0 where
  stay : EmitRun s s
  step : {t u : Line} → EmitRun s t → EmitStep t u → EmitRun s u

-- What the holder has written of its frame.
abbrev so_far : Holder → List ℕ
so_far Holder.nobody = []
so_far (Holder.before_id nid bytes) = []
so_far (Holder.before_data nid bytes) = u8 nid ∷ []
so_far (Holder.after_data nid bytes) = u8 nid ∷ bytes

-- The call that is under way.
abbrev pending : Holder → List (ℕ × List ℕ)
pending Holder.nobody = []
pending (Holder.before_id nid bytes) = (u8 nid, bytes) ∷ []
pending (Holder.before_data nid bytes) = (u8 nid, bytes) ∷ []
pending (Holder.after_data nid bytes) = (u8 nid, bytes) ∷ []

-- The calls, with the one that a step starts.
abbrev pub starts : {t u : Line} → List (ℕ × List ℕ) → EmitStep t u → List (ℕ × List ℕ)
starts fs (takes nid bytes m h) = fs ++ (u8 nid, bytes) ∷ []
starts fs (writes_id nid bytes h) = fs
starts fs (writes_data nid bytes h) = fs
starts fs (gives nid bytes h) = fs

-- The calls of a run, a node id and bytes each, in the order in which they started.
abbrev pub started : {s t : Line} → EmitRun s t → List (ℕ × List ℕ)
started stay = []
started (step run u) = starts (started run) u

-- The frames of the calls that are over, then the part of the holder's.
abbrev Written : List ℕ → List (ℕ × List ℕ) → Line → Type 0
Written out calls t =
    (fs : List (ℕ × List ℕ)) × (calls ≡ fs ++ pending t.holder)
    × (t.bridge.output ≡ out ++ (wire fs ++ so_far t.holder))

wire-append : (fs gs : List (ℕ × List ℕ)) → wire (fs ++ gs) ≡ wire fs ++ wire gs
wire-append [] gs = refl
wire-append ((nid, bytes) ∷ fs) gs =
    ap (λ l. (nid ∷ bytes) ++ l) (wire-append fs gs)
    ∙ sym (append_assoc (nid ∷ bytes) (wire fs) (wire gs))

-- More of a frame behind what was written.
write_more :
    (out part more : List ℕ) (fs : List (ℕ × List ℕ)) (line : List ℕ)
    → line ≡ out ++ (wire fs ++ part)
    → line ++ more ≡ out ++ (wire fs ++ (part ++ more))
write_more out part more fs line e =
    ap (λ l. l ++ more) e
    ∙ append_assoc out (wire fs ++ part) more
    ∙ ap (λ l. out ++ l) (append_assoc (wire fs) part more)

EmitStep-Written :
    (out : List ℕ) (calls : List (ℕ × List ℕ)) {t u : Line}
    → Written out calls t
    → (st : EmitStep t u) → Written out (starts calls st) u
unfolding emit_id emit_data
EmitStep-Written out calls (fs, c, e) (takes nid bytes m h) = (
  fs,
  ap (λ l. l ++ (u8 nid, bytes) ∷ []) (c ∙ ap (λ k. fs ++ pending k) h ∙ append-nil fs),
  e ∙ ap (λ k. out ++ (wire fs ++ so_far k)) h,
)
EmitStep-Written out calls {t} (fs, c, e) (writes_id nid bytes h) = (
  fs,
  c ∙ ap (λ k. fs ++ pending k) h,
  write_more out [] (u8 nid ∷ []) fs t.bridge.output (e ∙ ap (λ k. out ++ (wire fs ++ so_far k)) h),
)
EmitStep-Written out calls {t} (fs, c, e) (writes_data nid bytes h) = (
  fs,
  c ∙ ap (λ k. fs ++ pending k) h,
  ap (λ l. t.bridge.output ++ l) (take-all (length bytes) bytes (omega arith))
      ∙ write_more out (u8 nid ∷ []) bytes fs t.bridge.output
          (e ∙ ap (λ k. out ++ (wire fs ++ so_far k)) h),
)
EmitStep-Written out calls (fs, c, e) (gives nid bytes h) = (
  fs ++ (u8 nid, bytes) ∷ [],
  c ∙ ap (λ k. fs ++ pending k) h ∙ sym (append-nil (fs ++ (u8 nid, bytes) ∷ [])),
  e
      ∙ ap (λ k. out ++ (wire fs ++ so_far k)) h
      ∙ ap (λ l. out ++ (wire fs ++ l)) (sym (append-nil (u8 nid ∷ bytes)))
      ∙ ap (λ l. out ++ l) (sym (wire-append fs ((u8 nid, bytes) ∷ [])))
      ∙ ap (λ l. out ++ l) (sym (append-nil (wire (fs ++ (u8 nid, bytes) ∷ [])))),
)

EmitRun-Written :
    {s t : Line}
    → s.holder ≡ Holder.nobody
    → (run : EmitRun s t) → Written s.bridge.output (started run) t
EmitRun-Written {s} hs stay = (
  [],
  ap pending (sym hs),
  sym (append-nil s.bridge.output) ∙ ap (λ k. s.bridge.output ++ so_far k) (sym hs),
)
EmitRun-Written {s} hs (step run u) =
    EmitStep-Written s.bridge.output (started run) (EmitRun-Written hs run) u

-- However the calls of several tasks interleave between two moments at which nobody holds the mutex,
-- the line has carried exactly the frames of the calls that started in between, each whole, as its node
-- id and then its bytes, in the order in which the calls took the mutex.
pub EmitRun-wire :
    {s t : Line}
    → s.holder ≡ Holder.nobody
    → (run : EmitRun s t) → t.holder ≡ Holder.nobody
    → t.bridge.output ≡ s.bridge.output ++ wire (started run)
EmitRun-wire {s} hs run ht =
    let (fs, c, e) = EmitRun-Written hs run in
    let all : started run ≡ fs = c ∙ ap (λ k. fs ++ pending k) ht ∙ append-nil fs in
    e
    ∙ ap (λ k. s.bridge.output ++ (wire fs ++ so_far k)) ht
    ∙ ap (λ l. s.bridge.output ++ l) (append-nil (wire fs))
    ∙ ap (λ l. s.bridge.output ++ wire l) (sym all)
