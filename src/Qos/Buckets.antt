-- ===== src/Qos/Buckets.antt =====
-- The token bucket of yacul/qos/token_bucket.h and yacul/qos/token_bucket.cc. Each call runs under its
-- spinlock, so it is one function; the clock's reading is an argument. The doubles are a parameter.
use yacul.Common.{[], inr, inl, ◌∷◌, Bool-cases, List, ℕ, ◌≡◌, Bool, true, false, if◌then◌else◌}

-- double, with the operations that the code uses, and the facts of IEEE arithmetic that the bound on
-- the tokens needs. `seconds a b` is the double of b - a nanoseconds, times 1e-9.
pub record Doubles : Type 1 where
  pub Num : Type 0
  pub nil : Num
  pub lt : Num → Num → Bool
  pub le : Num → Num → Bool
  pub plus : Num → Num → Num
  pub minus : Num → Num → Num
  pub times : Num → Num → Num
  pub over : Num → Num → Num
  pub of_int : ℕ → Num
  pub seconds : ℕ → ℕ → Num
  pub lt_irrefl : (a : Num) → lt a a ≡ false
  -- Taking away a number that is not 0 or less does not lead above a bound.
  pub minus_below : (c t x : Num) → lt c t ≡ false → le x nil ≡ false → lt c (minus t x) ≡ false

pub record TokenBucket (Num : Type 0) : Type 0 where
  pub rate : Num
  pub capacity : Num
  pub tokens : Num
  pub last_refill_ns : ℕ

module _ (d : Doubles) where
  open d use {Num, nil, lt, le, plus, minus, times, over, seconds, lt_irrefl, minus_below}

  -- std::min
  abbrev pub least : Num → Num → Num
  least a b = if lt b a then b else a

  -- `TokenBucket(rate, capacity)`
  unfoldable pub new_bucket : ℕ → Num → Num → TokenBucket Num
  new_bucket now rate capacity = record {
    rate = rate;
    capacity = capacity;
    tokens = capacity;
    last_refill_ns = now;
  }

  unfoldable pub refill_locked : ℕ → TokenBucket Num → TokenBucket Num
  refill_locked now b =
      let elapsed_s = seconds b.last_refill_ns now in
      if le elapsed_s nil then b else record b {
        tokens =
            least (plus b.tokens (times (least elapsed_s (over b.capacity b.rate)) b.rate))
              b.capacity;
        last_refill_ns = now;
      }

  unfoldable pub try_consume : ℕ → TokenBucket Num → Num → TokenBucket Num × Bool
  unfolding refill_locked
  try_consume now b tokens =
      let r = refill_locked now b in
      if le tokens nil
      then (b, true)
      else if lt r.tokens tokens
      then (r, false)
      else (record r { tokens = minus r.tokens tokens }, true)

  unfoldable pub refill : TokenBucket Num → Num → TokenBucket Num
  refill b tokens =
      if le tokens nil then b else record b { tokens = least (plus b.tokens tokens) b.capacity }

  unfoldable pub reset_bucket : ℕ → TokenBucket Num → TokenBucket Num
  reset_bucket now b = record b { tokens = b.capacity; last_refill_ns = now }

  -- `CurrentTokens` refills first.
  unfoldable pub current_tokens : ℕ → TokenBucket Num → TokenBucket Num × Num
  unfolding refill_locked
  current_tokens now b = let r = refill_locked now b in (r, r.tokens)

  -- One call of the bucket.
  pub data BucketCall : Type 0 where
    consumes_tokens : ℕ → Num → BucketCall
    refills : Num → BucketCall
    resets_tokens reads : ℕ → BucketCall

  unfoldable pub bucket_call : TokenBucket Num → BucketCall → TokenBucket Num
  unfolding try_consume refill reset_bucket current_tokens
  bucket_call b (consumes_tokens now x) = (try_consume now b x).0
  bucket_call b (refills x) = refill b x
  bucket_call b (resets_tokens now) = reset_bucket now b
  bucket_call b (reads now) = (current_tokens now b).0

  unfoldable pub bucket_calls : TokenBucket Num → List BucketCall → TokenBucket Num
  unfolding bucket_call
  bucket_calls b [] = b
  bucket_calls b (c ∷ cs) = bucket_calls (bucket_call b c) cs

  -- The tokens do not exceed the capacity.
  abbrev pub IsBounded : TokenBucket Num → Type 0
  IsBounded b = lt b.capacity b.tokens ≡ false

  least_bound : (x c : Num) → lt c (least x c) ≡ false
  least_bound x c = elim (Bool-cases (lt c x)) [
    | inl over_it ↦ rw over_it (lt_irrefl c)
    | inr below ↦ rw below below
  ]

  refill_locked-IsBounded :
      (now : ℕ) (b : TokenBucket Num) → IsBounded b → IsBounded (refill_locked now b)
  unfolding refill_locked
  refill_locked-IsBounded now b h = elim (Bool-cases (le (seconds b.last_refill_ns now) nil)) [
    | inl still ↦ rw still h
    | inr later ↦ rw later (least_bound _ b.capacity)
  ]

  try_consume-IsBounded :
      (now : ℕ) (b : TokenBucket Num) (x : Num) → IsBounded b → IsBounded (try_consume now b x).0
  unfolding try_consume
  try_consume-IsBounded now b x h = elim (Bool-cases (le x nil)) [
    | inl free ↦ rw free h
    | inr costs ↦ rw costs (elim (Bool-cases (lt (refill_locked now b).tokens x)) [
      | inl short ↦ rw short (refill_locked-IsBounded now b h)
      | inr enough ↦ rw enough (minus_below _ _ x (refill_locked-IsBounded now b h) costs)
    ])
  ]

  bucket_call-IsBounded :
      (b : TokenBucket Num) (c : BucketCall) → IsBounded b → IsBounded (bucket_call b c)
  unfolding bucket_call
  bucket_call-IsBounded b (consumes_tokens now x) h = try_consume-IsBounded now b x h
  bucket_call-IsBounded b (refills x) h =
      unfold refill in
      (elim (Bool-cases (le x nil)) [
        | inl none_added ↦ rw none_added h
        | inr added ↦ rw added (least_bound _ b.capacity)
      ])
  bucket_call-IsBounded b (resets_tokens now) h = unfold reset_bucket in (lt_irrefl b.capacity)
  bucket_call-IsBounded b (reads now) h = unfold current_tokens in (refill_locked-IsBounded now b h)

  -- After any calls of TryConsume, Refill, Reset and CurrentTokens, at any readings of the clock, a
  -- bucket whose tokens did not exceed its capacity still does not exceed it.
  pub bucket_calls-IsBounded :
      (b : TokenBucket Num) (cs : List BucketCall) → IsBounded b → IsBounded (bucket_calls b cs)
  unfolding bucket_calls
  bucket_calls-IsBounded b [] h = h
  bucket_calls-IsBounded b (c ∷ cs) h =
      bucket_calls-IsBounded (bucket_call b c) cs (bucket_call-IsBounded b c h)
