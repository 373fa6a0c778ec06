-- ===== src/Sim/Trace/Hash.antt =====
-- The trace hash of sim/trace.cpp is the FNV-1a hash of the records' bytes.
use mathlib.Core.List.{append_assoc, append-nil}
use nexus_lab.Prelude.{
  ℕ, ◌≡◌, ◌≢◌, refl, sym, ap, ◌∙◌, Option, none, some, List, [], ◌∷◌, ◌++◌, length, All,
}
use nexus_lab.Prelude.Except.{Text}
use nexus_lab.Sim.Trace.{
  enabled, TraceRecord, fnv_offset_basis, hash_byte, hash_u64, hash_optional, hash_characters,
  hash_error, hash_priority, hash_payload_kind, hash_stop_reason, hash_record, TraceLog, new_log,
  append, hash,
}
use nexus_lab.Sim.Trace.Encoding.{
  encode_u64, encode_optional, encode_error, encode_priority, encode_kind, encode_stop,
  encode_record, encode_records, FitsRecord, encode_records-injective, hash_bytes,
  hash_bytes-append, hash_u64_lem,
}

-- A hash function feeds the bytes of an encoding.
abbrev Feeds : {V : Type 0} → (ℕ → V → ℕ) → (V → List ℕ) → Type 0
Feeds {V} hasher encoder = (h : ℕ) (v : V) → hasher h v ≡ hash_bytes h (encoder v)

hash_characters_lem : (h : ℕ) (cs : Text) → hash_characters h cs ≡ hash_bytes h cs
unfolding hash_characters hash_bytes
hash_characters_lem h [] = refl
hash_characters_lem h (c ∷ cs) = hash_characters_lem (hash_byte h c) cs

hash_error_lem : Feeds hash_error encode_error
unfolding hash_error encode_error
hash_error_lem h e =
    rw (hash_bytes-append h (encode_u64 (length e)) e, hash_u64_lem h (length e))
      (hash_characters_lem _ e)

hash_optional_lem :
    {V : Type 0} (hasher : ℕ → V → ℕ) (encoder : V → List ℕ)
    → Feeds hasher encoder
    → (h : ℕ) (o : Option V) (rest : List ℕ)
    → hash_bytes h (encode_optional encoder o ++ rest) ≡ hash_bytes (hash_optional h o hasher) rest
unfolding hash_optional encode_optional hash_bytes
hash_optional_lem hasher encoder f h none rest = refl
hash_optional_lem hasher encoder f h (some v) rest =
    hash_bytes-append (hash_byte h 1) (encoder v) rest
    ∙ ap (λ k. hash_bytes k rest) (sym (f (hash_byte h 1) v))

hash_priority_lem : Feeds hash_priority encode_priority
unfolding encode_priority hash_bytes
hash_priority_lem h p = refl

hash_kind_lem : Feeds hash_payload_kind encode_kind
unfolding encode_kind hash_bytes
hash_kind_lem h p = refl

hash_stop_lem : Feeds hash_stop_reason encode_stop
unfolding encode_stop hash_bytes
hash_stop_lem h p = refl

-- The hash of one record, then of what follows it.
hash_record_lem :
    (h : ℕ) (r : TraceRecord) (rest : List ℕ)
    → hash_bytes h (encode_record r rest) ≡ hash_bytes (hash_record h r) rest
unfolding encode_record hash_record hash_bytes
hash_record_lem h r rest = rw (
  hash_bytes-append,
  ← hash_u64_lem,
  hash_optional_lem hash_u64 encode_u64 hash_u64_lem,
  hash_optional_lem hash_u64 encode_u64 hash_u64_lem,
  hash_optional_lem hash_u64 encode_u64 hash_u64_lem,
  hash_optional_lem hash_priority encode_priority hash_priority_lem,
  hash_optional_lem hash_payload_kind encode_kind hash_kind_lem,
  hash_optional_lem hash_stop_reason encode_stop hash_stop_lem,
  hash_optional_lem hash_error encode_error hash_error_lem,
)

-- The records of `rs` are hashed after `h`.
hash_records : ℕ → List TraceRecord → ℕ
hash_records h [] = h
hash_records h (r ∷ rs) = hash_records (hash_record h r) rs

hash_records_lem :
    (h : ℕ) (rs : List TraceRecord) → hash_bytes h (encode_records rs) ≡ hash_records h rs
unfolding hash_records encode_records hash_bytes
hash_records_lem h [] = refl
hash_records_lem h (r ∷ rs) =
    hash_record_lem h r (encode_records rs) ∙ hash_records_lem (hash_record h r) rs

pub append_all : List TraceRecord → TraceLog → TraceLog
append_all [] log = log
append_all (r ∷ rs) log = append_all rs (append r log)

appended :
    (rs : List TraceRecord) (old : List TraceRecord) (h : ℕ)
    → append_all rs (record { mode = enabled; records = old; hash_ = h })
      ≡ record { mode = enabled; records = old ++ rs; hash_ = hash_records h rs }
unfolding append_all append hash_records
appended [] old h = rw append-nil
appended (r ∷ rs) old h =
    appended rs (old ++ (r ∷ [])) (hash_record h r)
    ∙ ap (λ k. record { mode = enabled; records = k; hash_ = hash_records (hash_record h r) rs })
        (append_assoc old (r ∷ []) rs)

-- Whatever is appended to a new, enabled log, it holds the appended records in order, and its hash is the FNV-1a hash of the bytes of its
-- records.
pub append_all-hash :
    (rs : List TraceRecord)
    → ((append_all rs (new_log enabled)).records ≡ rs)
      × (hash (append_all rs (new_log enabled))
          ≡ some (hash_bytes fnv_offset_basis (encode_records rs)))
unfolding new_log hash
append_all-hash rs =
    rw (appended rs [] fnv_offset_basis, hash_records_lem fnv_offset_basis rs) (refl, refl)

-- The hashes of the logs of two lists of records are those of different byte strings.
abbrev pub Distinguishes : List TraceRecord → List TraceRecord → Type 0
Distinguishes rs ss =
    (hash (append_all rs (new_log enabled))
      ≡ some (hash_bytes fnv_offset_basis (encode_records rs)))
    × (hash (append_all ss (new_log enabled))
        ≡ some (hash_bytes fnv_offset_basis (encode_records ss)))
    × (encode_records rs ≢ encode_records ss)

-- Of two different lists of records whose times, IDs and text lengths are 64-bit values, appended to
-- new, enabled logs, the hashes are the FNV-1a hashes of two different byte strings: presence tags
-- and lengths keep the fields apart.
pub hash-Distinguishes :
    (rs ss : List TraceRecord)
    → All FitsRecord rs
    → All FitsRecord ss
    → rs ≢ ss
    → Distinguishes rs ss
hash-Distinguishes rs ss f g other = (
  (append_all-hash rs).1,
  (append_all-hash ss).1,
  λ same. other (encode_records-injective rs ss f g same),
)
