-- ===== src/Mq/Overload.antt =====
-- The overload detection of ztask/ztask_mq.c: a queue reports its length each time that it passes
-- a threshold, which doubles until it covers the length.
use ztask.Base.{
  ℕ, zero, suc, ◌+◌, ◌*◌, ◌≤◌, ◌<◌, ◌≡◌, refl, inl, inr, true, arith, ltb, ◌==◌, if◌then◌else◌,
  length, Bool-cases,
}
use ztask.Mq.{MessageQueue, raise_threshold, pop, mq_length}
use ztask.Base.Ring.{advance}
use ztask.Mq.Ring.{contents, IsValid, mq_length-length}

raise_threshold-le :
    (fuel len over threshold : ℕ)
    → 0 < threshold
    → len ≤ fuel + threshold
    → (len ≤ (raise_threshold fuel len over threshold).1)
      × (threshold ≤ (raise_threshold fuel len over threshold).1)
unfolding raise_threshold
raise_threshold-le zero len over threshold pos h = (omega arith, omega arith)
raise_threshold-le (suc fuel) len over threshold pos h =
    ground (arith, raise_threshold-le fuel len len (threshold * 2))

-- The overload that the loop records.
raise_threshold-over : (fuel len threshold : ℕ) → (raise_threshold fuel len len threshold).0 ≡ len
unfolding raise_threshold
raise_threshold-over zero len threshold = refl
raise_threshold-over (suc fuel) len threshold =
    ground (arith, raise_threshold-over fuel len (threshold * 2))

raise_threshold-cases :
    (fuel len over threshold : ℕ)
    → 0 < fuel
    → (raise_threshold fuel len over threshold).0 ≡ (if ltb threshold len then len else over)
unfolding raise_threshold
raise_threshold-cases zero len over threshold h = absurd (omega arith)
raise_threshold-cases (suc fuel) len over threshold h =
    ground (arith, raise_threshold-over fuel len (threshold * 2))

raise_threshold_zero :
    (over threshold : ℕ)
    → let r = raise_threshold 0 0 over threshold in
      (0 ≤ r.1) × (threshold ≤ r.1) × (r.0 ≡ (if ltb threshold 0 then 0 else over))
unfolding raise_threshold
raise_threshold_zero over threshold = ground arith

raised :
    (len over threshold : ℕ)
    → 0 < threshold
    → let r = raise_threshold len len over threshold in
      (len ≤ r.1) × (threshold ≤ r.1) × (r.0 ≡ (if ltb threshold len then len else over))
raised zero over threshold pos = raise_threshold_zero over threshold
raised (suc n) over threshold pos =
    let le = raise_threshold-le (suc n) (suc n) over threshold pos (omega arith) in
    (le.0, le.1, raise_threshold-cases (suc n) (suc n) over threshold (omega arith))

-- When `ztask_mq_pop` takes a message, the new threshold covers the messages that are left and is
-- no lower than before; their number is recorded as the overload if it passed the old threshold,
-- and otherwise the recorded overload stays.
pub pop_overload :
    (q : MessageQueue)
    → IsValid q
    → 0 < q.overload_threshold
    → (pop q).0 ≡ 0
    → let after = (pop q).2 in
      let left = length (contents after) in
      (left ≤ after.overload_threshold)
      × (q.overload_threshold ≤ after.overload_threshold)
      × (after.overload ≡ (if ltb q.overload_threshold left then left else q.overload))
unfolding pop
pop_overload q v pos e = rw (← mq_length-length (pop q).2) (elim (Bool-cases (q.head == q.tail)) [
  | inl same ↦ absurd (taken same e)
  | inr ne ↦ rw ne (
      raised (mq_length (record q { head = advance q.cap q.head })) q.overload q.overload_threshold
        pos)
])
  where
    taken : (q.head == q.tail) ≡ true → (pop q).0 ≡ 0 → ⊥
    taken same h = omega (arith, (rw same at h))
