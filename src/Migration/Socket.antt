-- ===== src/Migration/Socket.antt =====
-- uhyve-migration.c: `recv_data` and `send_data` as loops over the results of their calls, which are
-- 64-bit patterns (-1 is the largest).
use hermit_caves.Base.{
  ℕ, ◌+◌, ◌%◌, ◌^◌, ◌≤◌, ◌<◌, true, ltb, if◌then◌else◌, Option, none, some, List, [], ◌∷◌, length,
  ◌≡◌, inl, inr, ◌⊎◌, arith, lt→ltb,
}

-- The `int` that is returned, as its bit pattern, if the loop ends; where each call stands in the buffer
-- is the count of bytes before it.
unfoldable pub transfer : ℕ → ℕ → List ℕ → Option ℕ
transfer length bytes [] = if ltb bytes length then none else some (bytes % 2 ^ 32)
transfer length bytes (result ∷ results) =
    let rest = transfer length ((bytes + result) % 2 ^ 64) results in
    if ltb bytes length then rest else some (bytes % 2 ^ 32)

-- As long as something is left, a call moves at least one byte of it, and no more than that.
abbrev pub Moves : ℕ → ℕ → List ℕ → Type 0
Moves length bytes [] = Unit {0}
Moves length bytes (result ∷ results) =
    ((0 < result) × ((bytes + result ≤ length) × Moves length (bytes + result) results))
    ⊎ (bytes ≡ length)

-- While each call of `recv` or `send` moves at least one byte, and no more than are left, `recv_data`
-- and `send_data` end after as many calls as there are bytes left at most, and return the length, cut
-- to 32 bits: from 2 GiB on, the `int` is not the number of bytes. Sizes are 64-bit numbers.
pub transfer_all :
    (results : List ℕ) (amount bytes : ℕ)
    → amount < 2 ^ 64
    → bytes ≤ amount
    → Moves amount bytes results
    → amount ≤ bytes + length results
    → transfer amount bytes results ≡ some (amount % 2 ^ 32)
unfolding transfer
transfer_all [] amount bytes small inside h enough =
    let all : bytes ≡ amount = omega arith in rw all (ground arith)
transfer_all (result ∷ results) amount bytes small inside (inr all) enough = rw all (ground arith)
transfer_all (result ∷ results) amount bytes small inside (inl (some_bytes, (fits, h))) enough =
    let less : ltb bytes amount ≡ true = lt→ltb bytes amount (omega arith) in
    let exact : (bytes + result) % 2 ^ 64 ≡ bytes + result = omega arith in
    rw less (rw exact (transfer_all results amount (bytes + result) small fits h (omega arith)))
