-- ===== src/Status.antt =====
-- include/xq.h and src/common/xq_common.c: the status codes, and the result of a call that either
-- fills its output parameter or reports a status other than `XQ_OK`.
use xq.Base.{ℕ, ◌≡◌, ◌≤◌, ◌↔◌, refl, ◌⊎◌, inl, inr, arith, Bool, true, false}

-- `xq_status`
pub data Status : Type 0 where
  xq_ok : Status
  err_param err_dst_too_small err_oom err_memlimit : Status
  err_bad_magic err_unsupported_version err_unsupported_codec err_unsupported_feature : Status
  err_corrupt_header err_corrupt_record err_corrupt_block err_corrupt_index : Status
  err_corrupt_footer err_truncated err_io err_internal : Status

-- The value that the enumeration gives each constant.
unfoldable pub status_code : Status → ℕ
status_code xq_ok = 0
status_code err_param = 1
status_code err_dst_too_small = 2
status_code err_oom = 3
status_code err_memlimit = 4
status_code err_bad_magic = 16
status_code err_unsupported_version = 17
status_code err_unsupported_codec = 18
status_code err_unsupported_feature = 19
status_code err_corrupt_header = 32
status_code err_corrupt_record = 33
status_code err_corrupt_block = 34
status_code err_corrupt_index = 35
status_code err_corrupt_footer = 36
status_code err_truncated = 37
status_code err_io = 48
status_code err_internal = 49

-- `xq_status_is_corruption`
unfoldable pub is_corruption : Status → Bool
is_corruption err_corrupt_header = true
is_corruption err_corrupt_record = true
is_corruption err_corrupt_block = true
is_corruption err_corrupt_index = true
is_corruption err_corrupt_footer = true
is_corruption err_truncated = true
is_corruption _ = false

-- `ok` holds what goes through the output parameters; `err` never holds `xq_ok`.
pub data Result {ℓ} (A : Type ℓ) : Type ℓ where
  ok : A → Result A
  err : Status → Result A

infixl 5 ◌>>=◌ ◌>>◌
-- The first status other than `XQ_OK` ends a chain of calls.
abbrev pub ◌>>=◌ {ℓ κ} : {In : Type ℓ} {Out : Type κ} → Result In → (In → Result Out) → Result Out
err st >>= next = err st
ok x >>= next = next x

abbrev pub ◌>>◌ {κ} : {Out : Type κ} → Result (Unit {0}) → Result Out → Result Out
step >> after = step >>= λ done. after

-- `if (cond) return st;`
abbrev pub fail_if : Bool → Status → Result (Unit {0})
fail_if true st = err st
fail_if false st = ok tt

-- A sequence that succeeds has a first part that does.
pub both_ok {ℓ κ} :
    {A : Type ℓ} {B : Type κ} (first : Result A) (next : A → Result B) {end : B}
    → first >>= next ≡ ok end
    → (x : A) × (first ≡ ok x) × (next x ≡ ok end)
both_ok (err st) next failed = cc
both_ok (ok x) next done = (x, refl, done)

pub Result-cases {ℓ} :
    {A : Type ℓ} (r : Result A) → ((a : A) × (r ≡ ok a)) ⊎ ((e : Status) × (r ≡ err e))
Result-cases (ok a) = inl (a, refl)
Result-cases (err e) = inr (e, refl)

pub ok-injective {ℓ} : {A : Type ℓ} {a b : A} → ok a ≡ ok b → a ≡ b
ok-injective h = cc

-- The statuses that count as corruption are the ones with codes from 32 to 37.
pub is_corruption_iff :
    (st : Status) → (is_corruption st ≡ true) ↔ ((32 ≤ status_code st) × (status_code st ≤ 37))
unfolding is_corruption status_code
is_corruption_iff st = elim st [
  | xq_ok ↦ ground arith
  | err_param ↦ ground arith
  | err_dst_too_small ↦ ground arith
  | err_oom ↦ ground arith
  | err_memlimit ↦ ground arith
  | err_bad_magic ↦ ground arith
  | err_unsupported_version ↦ ground arith
  | err_unsupported_codec ↦ ground arith
  | err_unsupported_feature ↦ ground arith
  | err_corrupt_header ↦ ground arith
  | err_corrupt_record ↦ ground arith
  | err_corrupt_block ↦ ground arith
  | err_corrupt_index ↦ ground arith
  | err_corrupt_footer ↦ ground arith
  | err_truncated ↦ ground arith
  | err_io ↦ ground arith
  | err_internal ↦ ground arith
]
