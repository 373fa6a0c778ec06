-- ===== src/Sim/Trace/Encoding.antt =====
-- What the hash of sim/trace.cpp reads: the bytes of the records, in order. The encoding is prefix
-- free, so the byte stream determines the records.
use nexus_lab.Prelude.{
  ℕ, ◌+◌, ◌*◌, ◌/◌, ◌%◌, ◌≤◌, ◌≡◌, refl, sym, ap, ◌∙◌, Option, none, some, List, [], ◌∷◌, ◌++◌,
  length, arith, u64_max, All,
}
use mathlib.Core.List.{append_assoc}
use nexus_lab.Prelude.Except.{Text}
use nexus_lab.Sim.Event.{EventPriority, priority_value, EventPayloadKind}
use nexus_lab.Sim.Trace.{
  TraceAction, StopReason, action_value, kind_value, stop_value, TraceRecord, hash_byte, hash_u64,
}

-- The bytes of a 64-bit value, the lowest first.
unfoldable pub encode_u64 : ℕ → List ℕ
encode_u64 value =
    (value % 256)
    ∷ (value / 256 % 256)
    ∷ (value / 65536 % 256)
    ∷ (value / 16777216 % 256)
    ∷ (value / 4294967296 % 256)
    ∷ (value / 1099511627776 % 256)
    ∷ (value / 281474976710656 % 256)
    ∷ (value / 72057594037927936 % 256)
    ∷ []

unfoldable pub encode_optional : {V : Type 0} → (V → List ℕ) → Option V → List ℕ
encode_optional encoder none = 0 ∷ []
encode_optional encoder (some value) = 1 ∷ encoder value

unfoldable pub encode_error : Text → List ℕ
encode_error error = encode_u64 (length error) ++ error

unfoldable pub encode_priority : EventPriority → List ℕ
encode_priority p = priority_value p ∷ []

unfoldable pub encode_kind : EventPayloadKind → List ℕ
encode_kind k = kind_value k ∷ []

unfoldable pub encode_stop : StopReason → List ℕ
encode_stop s = stop_value s ∷ []

-- The bytes of a record, before the bytes `rest`.
unfoldable pub encode_record : TraceRecord → List ℕ → List ℕ
encode_record r rest =
    action_value r.action
    ∷ (encode_u64 r.recorded_at
        ++ (encode_optional encode_u64 r.event_id
            ++ (encode_optional encode_u64 r.cause
                ++ (encode_optional encode_u64 r.event_timestamp
                    ++ (encode_optional encode_priority r.priority
                        ++ (encode_optional encode_kind r.payload_kind
                            ++ (encode_optional encode_stop r.stop_reason
                                ++ (encode_optional encode_error r.error ++ rest))))))))

unfoldable pub encode_records : List TraceRecord → List ℕ
encode_records [] = []
encode_records (r ∷ rs) = encode_record r (encode_records rs)

-- The hash of a byte string.
unfoldable pub hash_bytes : ℕ → List ℕ → ℕ
hash_bytes hash [] = hash
hash_bytes hash (b ∷ bs) = hash_bytes (hash_byte hash b) bs

pub hash_bytes-append :
    (h : ℕ) (xs ys : List ℕ) → hash_bytes h (xs ++ ys) ≡ hash_bytes (hash_bytes h xs) ys
unfolding hash_bytes
hash_bytes-append h [] ys = refl
hash_bytes-append h (x ∷ xs) ys = hash_bytes-append (hash_byte h x) xs ys

pub hash_u64_lem : (h value : ℕ) → hash_u64 h value ≡ hash_bytes h (encode_u64 value)
unfolding hash_u64 encode_u64 hash_bytes
hash_u64_lem h value = let e : value / 1 ≡ value = omega arith in rw e

-- The value whose bytes are these.
from_bytes : List ℕ → ℕ
from_bytes [] = 0
from_bytes (b ∷ bs) = b + 256 * from_bytes bs

from_bytes-encode_u64 : (v : ℕ) → v ≤ u64_max → from_bytes (encode_u64 v) ≡ v
unfolding from_bytes encode_u64
from_bytes-encode_u64 v h = omega arith

split_u64 :
    (v w : ℕ) (xs ys : List ℕ)
    → encode_u64 v ++ xs ≡ encode_u64 w ++ ys
    → (encode_u64 v ≡ encode_u64 w) × (xs ≡ ys)
unfolding encode_u64
split_u64 v w xs ys e = (cc, cc)

-- No encoding of a value that satisfies `Fits` continues that of another.
abbrev PrefixFree : {V : Type 0} → (V → Type 0) → (V → List ℕ) → Type 0
PrefixFree {V} Fits encoder =
    (v w : V) (xs ys : List ℕ)
    → Fits v
    → Fits w
    → encoder v ++ xs ≡ encoder w ++ ys
    → (v ≡ w) × (xs ≡ ys)

abbrev pub FitsWord : ℕ → Type 0
FitsWord v = v ≤ u64_max

abbrev pub FitsOptional : {V : Type 0} → (V → Type 0) → Option V → Type 0
FitsOptional Fits none = Unit {0}
FitsOptional Fits (some v) = Fits v

abbrev pub FitsText : Text → Type 0
FitsText error = length error ≤ u64_max

abbrev pub Anything : {V : Type 0} → V → Type 0
Anything v = Unit {0}

encode_u64-PrefixFree : PrefixFree FitsWord encode_u64
encode_u64-PrefixFree v w xs ys fv fw e =
    let (bytes, rest) = split_u64 v w xs ys e in
    (sym (from_bytes-encode_u64 v fv) ∙ ap from_bytes bytes ∙ from_bytes-encode_u64 w fw, rest)

encode_optional-PrefixFree :
    {V : Type 0} (Fits : V → Type 0) (encoder : V → List ℕ)
    → PrefixFree Fits encoder
    → PrefixFree (FitsOptional Fits) (encode_optional encoder)
unfolding encode_optional
encode_optional-PrefixFree Fits encoder f none none xs ys fv fw e = (refl, cc)
encode_optional-PrefixFree Fits encoder f none (some w) xs ys fv fw e = ground arith
encode_optional-PrefixFree Fits encoder f (some v) none xs ys fv fw e = ground arith
encode_optional-PrefixFree Fits encoder f (some v) (some w) xs ys fv fw e =
    let (same, rest) = f v w xs ys fv fw (cc) in (ap some same, rest)

append_cancel : (v w xs ys : List ℕ) → length v ≡ length w → v ++ xs ≡ w ++ ys → (v ≡ w) × (xs ≡ ys)
append_cancel [] [] xs ys l e = (refl, e)
append_cancel [] (b ∷ w) xs ys l e = absurd (omega arith)
append_cancel (a ∷ v) [] xs ys l e = absurd (omega arith)
append_cancel (a ∷ v) (b ∷ w) xs ys l e =
    let (same, rest) = append_cancel v w xs ys (omega arith) (cc) in (cc, rest)

encode_error-PrefixFree : PrefixFree FitsText encode_error
unfolding encode_error
encode_error-PrefixFree v w xs ys fv fw e =
    let (l, rest) = encode_u64-PrefixFree (length v) (length w) (v ++ xs) (w ++ ys) fv fw (
      sym (append_assoc (encode_u64 (length v)) v xs)
      ∙ e
      ∙ append_assoc (encode_u64 (length w)) w ys) in
    append_cancel v w xs ys l rest

priority-PrefixFree : PrefixFree Anything encode_priority
unfolding encode_priority
priority-PrefixFree v w xs ys fv fw e = (ground arith, cc)

kind-PrefixFree : PrefixFree Anything encode_kind
unfolding encode_kind
kind-PrefixFree v w xs ys fv fw e = (ground arith, cc)

stop-PrefixFree : PrefixFree Anything encode_stop
unfolding encode_stop
stop-PrefixFree v w xs ys fv fw e = (ground arith, cc)

-- The fields of a record that the C++ types bound.
pub record FitsRecord (r : TraceRecord) : Type 0 where
  pub recorded_at : FitsWord r.recorded_at
  pub event_id : FitsOptional FitsWord r.event_id
  pub cause : FitsOptional FitsWord r.cause
  pub event_timestamp : FitsOptional FitsWord r.event_timestamp
  pub error : FitsOptional FitsText r.error

abbrev anything : {V : Type 0} (o : Option V) → FitsOptional Anything o
anything none = tt
anything (some v) = tt

∷-injective : {a b : ℕ} {xs ys : List ℕ} → a ∷ xs ≡ b ∷ ys → (a ≡ b) × (xs ≡ ys)
∷-injective e = (cc, cc)

action_value-injective : (a b : TraceAction) → action_value a ≡ action_value b → a ≡ b
action_value-injective a b e = ground arith

encode_record_cancel :
    (r s : TraceRecord) (xs ys : List ℕ)
    → FitsRecord r
    → FitsRecord s
    → encode_record r xs ≡ encode_record s ys
    → (r ≡ s) × (xs ≡ ys)
unfolding encode_record
encode_record_cancel r s xs ys f g e =
    let word = encode_optional-PrefixFree FitsWord encode_u64 encode_u64-PrefixFree in
    let (a0, e0) = ∷-injective e in
    let (a1, e1) = encode_u64-PrefixFree _ _ _ _ f.recorded_at g.recorded_at e0 in
    let (a2, e2) = word _ _ _ _ f.event_id g.event_id e1 in
    let (a3, e3) = word _ _ _ _ f.cause g.cause e2 in
    let (a4, e4) = word _ _ _ _ f.event_timestamp g.event_timestamp e3 in
    let (a5, e5) =
      encode_optional-PrefixFree Anything encode_priority priority-PrefixFree _ _ _ _
        (anything r.priority) (anything s.priority) e4 in
    let (a6, e6) =
      encode_optional-PrefixFree Anything encode_kind kind-PrefixFree _ _ _ _
        (anything r.payload_kind) (anything s.payload_kind) e5 in
    let (a7, e7) =
      encode_optional-PrefixFree Anything encode_stop stop-PrefixFree _ _ _ _
        (anything r.stop_reason) (anything s.stop_reason) e6 in
    let (a8, e8) =
      encode_optional-PrefixFree FitsText encode_error encode_error-PrefixFree _ _ _ _ f.error
        g.error e7 in
    (
      λ i. record {
        action = action_value-injective r.action s.action a0 i;
        recorded_at = a1 i;
        event_id = a2 i;
        cause = a3 i;
        event_timestamp = a4 i;
        priority = a5 i;
        payload_kind = a6 i;
        stop_reason = a7 i;
        error = a8 i;
      },
      e8,
    )

nonempty : (r : TraceRecord) (xs : List ℕ) → ¬ ([] ≡ encode_record r xs)
unfolding encode_record
nonempty r xs e = cc

-- Records whose times, IDs and text lengths are 64-bit values are determined by their bytes.
pub encode_records-injective :
    (rs ss : List TraceRecord)
    → All FitsRecord rs
    → All FitsRecord ss
    → encode_records rs ≡ encode_records ss
    → rs ≡ ss
unfolding encode_records
encode_records-injective [] [] f g e = refl
encode_records-injective [] (s ∷ ss) f g e = absurd (nonempty s _ e)
encode_records-injective (r ∷ rs) [] f g e = absurd (nonempty r _ (sym e))
encode_records-injective (r ∷ rs) (s ∷ ss) f g e =
    let (same, rest) = encode_record_cancel r s _ _ f.0 g.0 e in
    let tails = encode_records-injective rs ss f.1 g.1 rest in λ i. same i ∷ tails i
