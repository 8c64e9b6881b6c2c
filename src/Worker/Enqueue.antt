-- ===== src/Worker/Enqueue.antt =====
-- The idempotency of Pool.Enqueue, backend/internal/worker/worker.go.
use open_agent_showcase.Common.{
  ℕ, ◌+◌, ◌≤◌, ◌<◌, List, [], ◌∷◌, true, false, ltb, length, All, Bytes, bytes_eq, bytes_eq_refl,
  bytes_eq_iff, ◌≡◌, ◌≢◌, refl, sym, subst, arith, Bool-cases, inl, inr, ◌⊎◌,
}
use open_agent_showcase.Worker.{
  Job, Pool, with_defaults, put, expire, marked, is_known, day, Outcome, deduplicated, offer,
  enqueue,
}

-- A key counts as known in a map for as long as its expiry says.
is_known-put_self :
    (now t : ℕ) (m : List (Bytes × ℕ)) (k : Bytes) → now < t → is_known now k (put m k t) ≡ true
is_known-put_self now t [] k h = ground (arith, bytes_eq_refl k)
is_known-put_self now t ((j, u) ∷ m) k h = ground (arith, is_known-put_self now t m k h)

is_known-put_other :
    (now t : ℕ) (m : List (Bytes × ℕ)) (j k : Bytes)
    → bytes_eq k j ≡ false
    → is_known now k m ≡ true
    → is_known now k (put m j t) ≡ true
is_known-put_other now t [] j k ne h = cc
is_known-put_other now t ((i, u) ∷ m) j k ne h =
    ground (arith, is_known-put_other now t m j k ne, bytes_eq_iff i k, bytes_eq_iff i j)

is_known-expire :
    (now later : ℕ) (m : List (Bytes × ℕ)) (k : Bytes)
    → now ≤ later
    → is_known later k m ≡ true
    → is_known later k (expire now m) ≡ true
is_known-expire now later [] k le h = h
is_known-expire now later ((j, u) ∷ m) k le h = ground (arith, is_known-expire now later m k le)

is_known-marked_other :
    (now later : ℕ) (m : List (Bytes × ℕ)) (j k : Bytes)
    → now ≤ later
    → bytes_eq k j ≡ false
    → is_known later k m ≡ true
    → is_known later k (marked now j m) ≡ true
is_known-marked_other now later m j k le ne h =
    let kept = is_known-put_other later (now + day) m j k ne h in
    elim (Bool-cases (ltb 1000 (length (put m j (now + day))))) [
      | inl e ↦ rw e (is_known-expire now later (put m j (now + day)) k le kept)
      | inr e ↦ rw e kept
    ]

is_known-marked_self :
    (now later : ℕ) (m : List (Bytes × ℕ)) (k : Bytes)
    → now ≤ later
    → later < now + day
    → is_known later k (marked now k m) ≡ true
is_known-marked_self now later m k le lt =
    let kept = is_known-put_self later (now + day) m k lt in
    elim (Bool-cases (ltb 1000 (length (put m k (now + day))))) [
      | inl e ↦ rw e (is_known-expire now later (put m k (now + day)) k le kept)
      | inr e ↦ rw e kept
    ]

offer-marks :
    (now later : ℕ) (p : Pool) (job : Job)
    → now ≤ later
    → later < now + day
    → (offer now p job).1 ≢ deduplicated
    → is_known later job.key (offer now p job).0.idem ≡ true
unfolding offer
offer-marks now later p job le lt fresh =
    ground (arith, is_known-marked_self now later p.idem job.key le lt)

is_known-earlier :
    (now later : ℕ) (m : List (Bytes × ℕ)) (k : Bytes)
    → now ≤ later
    → is_known later k m ≡ true
    → is_known now k m ≡ true
is_known-earlier now later m k le h = ground arith

offer-keeps :
    (now later : ℕ) (p : Pool) (job : Job) (k : Bytes)
    → now ≤ later
    → is_known later k p.idem ≡ true
    → is_known later k (offer now p job).0.idem ≡ true
unfolding offer
offer-keeps now later p job k le h = elim (Bool-cases (bytes_eq k job.key)) [
  | inr ne ↦ ground (arith, other ne, is_known-marked_other now later p.idem job.key k le ne h)
  | inl same ↦
      subst (λ (r : Pool × Outcome). is_known later k r.0.idem ≡ true)
        (sym (known ((bytes_eq_iff k job.key).0 same))) h
]
  where
    other :
        bytes_eq k job.key ≡ false
        → ((offer now p job).0.idem ≡ p.idem)
          ⊎ ((offer now p job).0.idem ≡ marked now job.key p.idem)
    other ne = elim (Bool-cases (is_known now job.key p.idem)) [
      | inl e ↦ inl (rw (e, offer) refl)
      | inr e ↦ elim (Bool-cases (ltb (length p.queue) p.capacity)) [
        | inl f ↦ inr (rw (e, f, offer) refl)
        | inr f ↦ inr (rw (e, f, offer) refl)
      ]
    ]

    known : k ≡ job.key → offer now p job ≡ (p, deduplicated)
    known e =
        rw
          (
            subst (λ j. is_known now j p.idem ≡ true) e (is_known-earlier now later p.idem k le h),
            offer,
          )
          refl

abbrev pub enqueue_all : Pool → List (ℕ × Job) → Pool
enqueue_all p [] = p
enqueue_all p ((t, job) ∷ calls) = enqueue_all (enqueue t p job).0 calls

enqueue_all-keeps :
    (p : Pool) (calls : List (ℕ × Job)) (later : ℕ) (k : Bytes)
    → All (λ (c : ℕ × Job). c.0 ≤ later) calls
    → is_known later k p.idem ≡ true
    → is_known later k (enqueue_all p calls).idem ≡ true
unfolding enqueue
enqueue_all-keeps p [] later k le h = h
enqueue_all-keeps p ((t, job) ∷ calls) later k le h =
    enqueue_all-keeps (enqueue t p job).0 calls later k le.1
      (offer-keeps t later p (with_defaults job) k le.0 h)

-- A job that Enqueue looked at and did not deduplicate is deduplicated for the next 24 hours, whatever
-- is enqueued in between; also where the queue was full and the job was dropped.
pub enqueue_once :
    (p : Pool) (now later : ℕ) (job : Job) (calls : List (ℕ × Job))
    → (enqueue now p job).1 ≢ deduplicated
    → now ≤ later
    → later < now + day
    → All (λ (c : ℕ × Job). c.0 ≤ later) calls
    → let q = enqueue_all (enqueue now p job).0 calls in enqueue later q job ≡ (q, deduplicated)
unfolding enqueue offer
enqueue_once p now later job calls fresh le lt within =
    rw
      (enqueue_all-keeps (enqueue now p job).0 calls later (with_defaults job).key within
        (offer-marks now later p (with_defaults job) le lt fresh))
      refl
