-- ===== src/Cache/Vectors.antt =====
-- internal/cache/semantic.go: `EncodeVector` and `DecodeVector`. A byte is a number below 256.
use momu_llmgateway.Base.{
  ℕ, zero, suc, ◌+◌, ◌*◌, ◌/◌, ◌%◌, ◌<◌, ◌^◌, List, [], ◌∷◌, All, length, ap, ◌∙◌, ◌≡◌, refl, arith,
}
use momu_llmgateway.Base.Float.{Float64}

-- `binary.LittleEndian.PutUint64`, for `n` bytes, before what follows them.
unfoldable pub put_bytes : ℕ → ℕ → List ℕ → List ℕ
put_bytes zero x rest = rest
put_bytes (suc n) x rest = x % 256 ∷ put_bytes n (x / 256) rest

-- `binary.LittleEndian.Uint64`, for `n` bytes, and what follows them.
unfoldable pub take_bytes : ℕ → List ℕ → ℕ × List ℕ
take_bytes zero bytes = (0, bytes)
take_bytes (suc n) [] = (0, [])
take_bytes (suc n) (b ∷ bytes) = let (x, rest) = take_bytes n bytes in (b + 256 * x, rest)

unfoldable pub put_uint64 : ℕ → List ℕ → List ℕ
unfolding put_bytes
put_uint64 x rest = put_bytes 8 x rest

unfoldable pub uint64 : List ℕ → ℕ × List ℕ
unfolding take_bytes
uint64 bytes = take_bytes 8 bytes

-- `EncodeVector`.
unfoldable pub encode_vector : List Float64 → List ℕ
encode_vector [] = []
encode_vector (x ∷ xs) = put_uint64 x (encode_vector xs)

-- The loop of `DecodeVector`, for a number of values.
unfoldable pub decode_values : ℕ → List ℕ → List Float64
decode_values zero bytes = []
decode_values (suc n) bytes = let (x, rest) = uint64 bytes in x ∷ decode_values n rest

-- `DecodeVector`: as many values as the bytes hold whole.
unfoldable pub decode_vector : List ℕ → List Float64
unfolding decode_values
decode_vector bytes = decode_values (length bytes / 8) bytes

-- 256 ^ n.
abbrev byte_limit : ℕ → ℕ
byte_limit zero = 1
byte_limit (suc n) = 256 * byte_limit n

take_bytes-put_bytes :
    (n x : ℕ) (rest : List ℕ) → x < byte_limit n → take_bytes n (put_bytes n x rest) ≡ (x, rest)
unfolding take_bytes put_bytes
take_bytes-put_bytes zero x rest h = ap (λ y. (y, rest)) (omega (arith, h))
take_bytes-put_bytes (suc n) x rest h =
    rw (take_bytes-put_bytes n (x / 256) rest (omega (arith, h)))
      (ap (λ y. (y, rest)) (omega arith))

uint64-put_uint64 : (x : ℕ) (rest : List ℕ) → x < 2 ^ 64 → uint64 (put_uint64 x rest) ≡ (x, rest)
unfolding uint64 put_uint64
uint64-put_uint64 x rest h = take_bytes-put_bytes 8 x rest h

length-put_bytes : (n x : ℕ) (rest : List ℕ) → length (put_bytes n x rest) ≡ n + length rest
unfolding put_bytes
length-put_bytes zero x rest = omega arith
length-put_bytes (suc n) x rest = omega (arith, length-put_bytes n (x / 256) rest)

length-encode_vector : (v : List Float64) → length (encode_vector v) ≡ 8 * length v
unfolding encode_vector put_uint64
length-encode_vector [] = omega arith
length-encode_vector (x ∷ xs) =
    length-put_bytes 8 x (encode_vector xs) ∙ omega (arith, length-encode_vector xs)

decode_values-encode_vector :
    (v : List Float64) → All (λ x. x < 2 ^ 64) v → decode_values (length v) (encode_vector v) ≡ v
unfolding decode_values encode_vector
decode_values-encode_vector [] h = refl
decode_values-encode_vector (x ∷ xs) (hx, h) =
    rw (uint64-put_uint64 x (encode_vector xs) hx) (ap (◌∷◌ x) (decode_values-encode_vector xs h))

-- A vector of 64-bit patterns is decoded from its encoding.
pub decode_vector-encode_vector :
    (v : List Float64) → All (λ x. x < 2 ^ 64) v → decode_vector (encode_vector v) ≡ v
unfolding decode_vector
decode_vector-encode_vector v h =
    ap (λ n. decode_values n (encode_vector v)) (omega (arith, length-encode_vector v))
    ∙ decode_values-encode_vector v h
