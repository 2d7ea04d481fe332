-- ===== src/Memory/Serializer.antt =====
-- `internal/core/memory/serializer/heap_tuple_serializer.go`. The two tables of handlers are tests
-- on the data type.
use gopher_db.Base.{
  ℕ, ◌+◌, ◌%◌, ◌≡◌, ap, ◌∙◌, Bool, true, false, not, Bool-cases, inl, inr, take-length-append, [],
  ◌∷◌, none, some, arith, length, take, ltb, ◌==◌, if◌then◌else◌, append-nil,
}
use gopher_db.Base.Int.{
  ℤ, pos, eq_ℤ, Fits, half_64, signed, unsigned, signed-unsigned_64, unsigned_64-lt,
}
use gopher_db.Base.Outcome.{Outcome, ok, err, ◌>>=◌}
use gopher_db.Bytes.BigEndian.{put_u64, be_u64, be_u64-put_u64}
use gopher_db.Bytes.Copy.{Bytes}
use gopher_db.Bytes.Utf8.{utf8_valid}
use gopher_db.Value.{Value, nil, int64, string, DataType, int64_type, varchar_type, HeapTuple}

pub data Error : Type 0 where
  nil_type nil_value tuple_data_nil unsupported_type type_mismatch varchar_too_long : Error
  bad_int64_size varchar_empty varchar_length_mismatch invalid_encoding : Error

abbrev int64_bytes : ℕ
int64_bytes = 8

abbrev pub max_varchar_length : ℕ
max_varchar_length = 255

serialize_int64 : Value → Outcome Error HeapTuple
serialize_int64 (int64 n) =
    ok (record { bytes = some (put_u64 (unsigned half_64 n)); data_type = int64_type })
serialize_int64 _ = err type_mismatch

-- one byte for the length, then the text
serialize_varchar : Value → Outcome Error HeapTuple
serialize_varchar (string b) =
    if ltb max_varchar_length (length b)
    then err varchar_too_long
    else ok (record { bytes = some ((length b % 256) ∷ b); data_type = varchar_type })
serialize_varchar _ = err type_mismatch

is_nil : Value → Bool
is_nil nil = true
is_nil _ = false

unfoldable pub serialize : Value → DataType → Outcome Error HeapTuple
unfolding is_nil serialize_int64 serialize_varchar
serialize value dt =
    if eq_ℤ dt (pos 0)
    then err nil_type
    else if is_nil value
    then err nil_value
    else if eq_ℤ dt int64_type
    then serialize_int64 value
    else if eq_ℤ dt varchar_type
    then serialize_varchar value
    else err unsupported_type

deserialize_int64 : Bytes → Outcome Error Value
deserialize_int64 bytes =
    if not (length bytes == int64_bytes)
    then err bad_int64_size
    else ok (int64 (signed half_64 (be_u64 bytes)))

deserialize_varchar : Bytes → Outcome Error Value
deserialize_varchar [] = err varchar_empty
deserialize_varchar (n ∷ payload) =
    if not (length (n ∷ payload) == 1 + n)
    then err varchar_length_mismatch
    else if not (utf8_valid (take n payload))
    then err invalid_encoding
    else ok (string (take n payload))

deserialize_bytes : Bytes → DataType → Outcome Error Value
unfolding deserialize_int64 deserialize_varchar
deserialize_bytes bytes dt =
    if eq_ℤ dt (pos 0)
    then err nil_type
    else if eq_ℤ dt int64_type
    then deserialize_int64 bytes
    else if eq_ℤ dt varchar_type
    then deserialize_varchar bytes
    else err unsupported_type

unfoldable pub deserialize : HeapTuple → Outcome Error Value
unfolding deserialize_bytes
deserialize tuple = elim tuple.bytes [
  | none ↦ err tuple_data_nil
  | some bytes ↦ deserialize_bytes bytes tuple.data_type
]

-- An integer in the range of int64 comes back from its 8 bytes.
pub deserialize-serialize_int64 :
    (n : ℤ) → Fits half_64 n → (serialize (int64 n) int64_type >>= deserialize) ≡ ok (int64 n)
unfolding serialize deserialize
deserialize-serialize_int64 n h =
    ap (λ v. ok (int64 (signed half_64 v)))
      (be_u64-put_u64 (unsigned half_64 n) [] (unsigned_64-lt n))
    ∙ ap (λ z. ok (int64 z)) (signed-unsigned_64 n h)

-- A text of at most 255 bytes comes back exactly if it is valid UTF-8; a longer one is refused by `Serialize`.
pub deserialize-serialize_varchar :
    (s : Bytes)
    → (serialize (string s) varchar_type >>= deserialize) ≡ (
        if ltb max_varchar_length (length s)
        then err varchar_too_long
        else if utf8_valid s
        then ok (string s)
        else err invalid_encoding)
unfolding serialize deserialize
deserialize-serialize_varchar s = elim (Bool-cases (ltb max_varchar_length (length s))) [
  | inl long ↦ rw long
  | inr short ↦
      let small : length s % 256 ≡ length s = ground arith in
      let whole : take (length s) s ≡ s = rw (append-nil s) at (take-length-append s []) in
      rw (short, small, whole) (ground arith)
]
