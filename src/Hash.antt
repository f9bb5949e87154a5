-- ===== src/Hash.antt =====
-- utils/hash/utils.go: the hash by which the webhook names claims and bindings. FNV-1a of 32 bits
-- is hash/fnv of Go's library; spew's dump of an object and `rand.SafeEncodeString` are parameters.
use Prim.Native.Nat.{bit_xor}
use fluent_pvc_operator.Prelude.{
  ℕ, zero, suc, ◌+◌, ◌*◌, ◌/◌, ◌%◌, ◌^◌, String, Option, none, some, List, [], ◌∷◌, nat_eq,
  if◌then◌else◌,
}

abbrev pub offset32 : ℕ
offset32 = 2166136261

abbrev pub prime32 : ℕ
prime32 = 16777619

-- one round of the `Write` of `fnv.New32a`
unfoldable pub write_byte : ℕ → ℕ → ℕ
write_byte sum c = (bit_xor sum c * prime32) % 2 ^ 32

unfoldable pub write : ℕ → List ℕ → ℕ
write sum [] = sum
write sum (c ∷ cs) = write (write_byte sum c) cs

-- `binary.LittleEndian.PutUint32` into the first half of eight zero bytes; the count is given by
-- its bit pattern, `uint32(*collisionCount)`.
unfoldable pub collision_count_bytes : ℕ → List ℕ
collision_count_bytes n =
    (n % 256) ∷ (n / 2 ^ 8 % 256) ∷ (n / 2 ^ 16 % 256) ∷ (n / 2 ^ 24 % 256) ∷ 0 ∷ 0 ∷ 0 ∷ 0 ∷ []

-- `fmt.Sprint` of an unsigned integer as ASCII codes, with fuel for the number of digits.
unfoldable pub sprint_onto : ℕ → ℕ → List ℕ → List ℕ
sprint_onto zero n digits = digits
sprint_onto (suc fuel) n digits =
    let rest = sprint_onto fuel (n / 10) ((48 + n % 10) ∷ digits) in
    if nat_eq (n / 10) 0 then (48 + n % 10) ∷ digits else rest

-- a number of 32 bits has at most ten digits
unfoldable pub sprint : ℕ → List ℕ
unfolding sprint_onto
sprint n = sprint_onto 10 n []

module _ {A : Type 0} (dump : A → List ℕ) (safe_encode : List ℕ → String) where
  -- `hasher.Reset()` comes first, so the sum that the hasher held does not count.
  unfoldable pub deep_hash_object : ℕ → A → ℕ
  unfolding write
  deep_hash_object sum obj = write offset32 (dump obj)

  unfoldable pub sum32 : A → Option ℕ → ℕ
  unfolding deep_hash_object write collision_count_bytes
  sum32 obj none = deep_hash_object offset32 obj
  sum32 obj (some count) = write (deep_hash_object offset32 obj) (collision_count_bytes count)

  unfoldable pub compute_hash : A → Option ℕ → String
  unfolding sum32 sprint
  compute_hash obj count = safe_encode (sprint (sum32 obj count))
