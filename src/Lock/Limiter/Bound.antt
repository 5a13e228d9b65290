-- ===== src/Lock/Limiter/Bound.antt =====
-- How many requests src/domain/lock/ratelimit.go lets through in a span of time.
use agent_collab.Common.{
  ℕ, zero, suc, refl, ◌+◌, ◌-◌, ◌*◌, ◌≤◌, String, ◌≡◌, ap, ◌∙◌, inl, inr, Bool, true, false,
  if◌then◌else◌, leb, none, some, List, [], ◌∷◌, ltb, ◌&&◌, arith, str_eq, eq_refl, Option-cases,
  text_cases, Bool-cases, leb→le,
}
use agent_collab.Common.Dict.{Dict, lookup, insert, lookup-insert}
use agent_collab.Lock.Semantic.{second}
use agent_collab.Lock.Limiter.{RateLimiter, TokenBucket, full, refill, allow}

-- The requests of all peers in the order in which they come, and how many of one peer's pass.
unfoldable pub grants : RateLimiter → String → List (String × ℕ) → ℕ
grants rl peer [] = 0
grants rl peer ((p, t) ∷ es) =
    (if str_eq p peer && (allow rl p t).1 then 1 else 0) + grants (allow rl p t).0 peer es

-- The instants do not fall, and lie between two.
abbrev pub Between : ℕ → ℕ → List (String × ℕ) → Type 0
Between lo hi [] = lo ≤ hi
Between lo hi ((p, t) ∷ es) = (lo ≤ t) × Between t hi es

-- How many requests of a peer there are.
unfoldable pub requests : String → List (String × ℕ) → ℕ
requests peer [] = 0
requests peer ((p, t) ∷ es) = (if str_eq p peer then 1 else 0) + requests peer es

-- A refill that is within the burst rounds up by at most `slack`. The rate is by the second and
-- time in nanoseconds.
abbrev pub RoundsWithin : RateLimiter → ℕ → Type 0
RoundsWithin rl slack =
    (tokens elapsed : ℕ)
    → (if ltb (full rl) (rl.float64.accrue tokens elapsed rl.rate)
          then full rl
          else rl.float64.accrue tokens elapsed rl.rate)
        * second
      ≤ (tokens + slack) * second + elapsed * rl.rate

abbrev paid : RateLimiter → Bool → ℕ
paid rl true = rl.float64.one
paid rl false = 0

span : (lo hi rate : ℕ) → lo ≤ hi → (hi - lo) * rate + lo * rate ≡ hi * rate
span lo hi rate h =
    let e : hi ≡ hi - lo + lo = omega arith in omega (arith, ap (λ (x : ℕ). x * rate) e)

refill-le :
    (rl : RateLimiter) (slack : ℕ) (b : TokenBucket) (t : ℕ)
    → RoundsWithin rl slack
    → b.last_update ≤ t
    → refill rl b t * second + b.last_update * rl.rate ≤ (b.tokens + slack) * second + t * rl.rate
unfolding refill
refill-le rl slack b t round h =
    omega (arith, span b.last_update t rl.rate h, round b.tokens (t - b.last_update))

-- The bucket that a request leaves.
left : RateLimiter → TokenBucket → ℕ → TokenBucket
left rl b t = record {
  tokens =
      if leb rl.float64.one (refill rl b t) then refill rl b t - rl.float64.one else refill rl b t;
  last_update = t;
}

allow-known :
    (rl : RateLimiter) (peer : String) (t : ℕ) (b : TokenBucket)
    → lookup peer rl.buckets ≡ some b
    → allow rl peer t ≡ (
      record rl { buckets = insert peer (left rl b t) rl.buckets },
      leb rl.float64.one (refill rl b t),
    )
unfolding allow left
allow-known rl peer t b e = elim (Bool-cases (leb rl.float64.one (refill rl b t))) [
  | inl y ↦ rw (e, allow) (rw y)
  | inr n ↦ rw (e, allow) (rw n)
]

-- The bucket of a peer's first request.
first : RateLimiter → ℕ → TokenBucket
first rl t = record { tokens = (rl.burst - 1) * rl.float64.one; last_update = t }

allow-new :
    (rl : RateLimiter) (peer : String) (t : ℕ)
    → lookup peer rl.buckets ≡ none
    → allow rl peer t ≡ (record rl { buckets = insert peer (first rl t) rl.buckets }, true)
unfolding allow first
allow-new rl peer t e = rw (e, allow)

-- One request against a bucket: what is left and what was paid came out of the bucket.
left-tokens :
    (rl : RateLimiter) (slack : ℕ) (b : TokenBucket) (t : ℕ)
    → RoundsWithin rl slack
    → b.last_update ≤ t
    → ((left rl b t).tokens + paid rl (leb rl.float64.one (refill rl b t))) * second
        + b.last_update * rl.rate
      ≤ (b.tokens + slack) * second + t * rl.rate
unfolding left
left-tokens rl slack b t round h = elim (Bool-cases (leb rl.float64.one (refill rl b t))) [
  | inl y ↦ rw y (omega (arith, leb→le _ _ y, refill-le rl slack b t round h))
  | inr n ↦ rw n (omega (arith, refill-le rl slack b t round h))
]

-- A request of another peer leaves the bucket alone.
allow_other :
    (rl : RateLimiter) (p peer : String) (t : ℕ)
    → str_eq p peer ≡ false
    → (bs : Dict TokenBucket) × ((allow rl p t).0 ≡ record rl { buckets = bs })
      × (lookup peer bs ≡ lookup peer rl.buckets)
allow_other rl p peer t h = elim (Option-cases (lookup p rl.buckets)) [
  | inl e ↦ (
    insert p (first rl t) rl.buckets,
    rw (allow-new rl p t e) refl,
    rw (lookup-insert p peer (first rl t) rl.buckets, h) refl,
  )
  | inr (b, e) ↦ (
    insert p (left rl b t) rl.buckets,
    rw (allow-known rl p t b e) refl,
    rw (lookup-insert p peer (left rl b t) rl.buckets, h) refl,
  )
]

-- From a bucket on, what passes is paid from what it holds, from what comes in and from rounding.
grants-known :
    (peer : String) (rl : RateLimiter) (slack lo hi : ℕ) (es : List (String × ℕ)) (b : TokenBucket)
    → RoundsWithin rl slack
    → lookup peer rl.buckets ≡ some b
    → b.last_update ≤ lo
    → Between lo hi es
    → grants rl peer es * rl.float64.one * second + b.last_update * rl.rate
      ≤ (b.tokens + requests peer es * slack) * second + hi * rl.rate
unfolding grants left requests
grants-known peer rl slack lo hi [] b round e h m =
    omega (arith, span b.last_update hi rl.rate (omega arith))
grants-known peer rl slack lo hi ((p, t) ∷ es) b round e h m =
    let c = left rl b t in
    let next = record rl { buckets = insert peer c rl.buckets } in
    let found : lookup peer next.buckets ≡ some c =
      rw (lookup-insert peer peer c rl.buckets, eq_refl peer) in
    let mine = grants-known peer next slack t hi es c round found (omega arith) m.1 in
    elim (text_cases p peer) [
      | inl (same, y) ↦
          rw (same, eq_refl peer, allow-known rl peer t b e)
            (pay (leb rl.float64.one (refill rl b t)) (grants next peer es) (requests peer es)
              c.tokens (t * rl.rate) (hi * rl.rate) (left-tokens rl slack b t round (omega arith))
              mine)
      | inr (other, n) ↦
          let (bs, after, kept) = allow_other rl p peer t n in
          let theirs =
            grants-known peer (record rl { buckets = bs }) slack t hi es b round (kept ∙ e)
              (omega arith) m.1 in
          rw (n, after) (omega (arith, theirs))
    ]
  where
    pay :
        (passed : Bool) (rest asked held at_t at_hi : ℕ)
        → (held + paid rl passed) * second + b.last_update * rl.rate
          ≤ (b.tokens + slack) * second + at_t
        → rest * rl.float64.one * second + at_t ≤ (held + asked * slack) * second + at_hi
        → ((if passed then 1 else 0) + rest) * rl.float64.one * second + b.last_update * rl.rate
          ≤ (b.tokens + (1 + asked) * slack) * second + at_hi
    pay true rest asked held at_t at_hi x y = omega arith
    pay false rest asked held at_t at_hi x y = omega arith

Between-le : (lo hi : ℕ) (es : List (String × ℕ)) → Between lo hi es → lo ≤ hi
Between-le lo hi [] m = m
Between-le lo hi ((p, t) ∷ es) m = omega (arith, Between-le t hi es m.1)

-- With a burst of at least one, and where a refill within the burst rounds up by at most some
-- slack, of the requests that all peers make between two instants, in the order of their instants,
-- a peer without a bucket passes at most as many as the burst, what comes in between the two and
-- one slack for each of its requests pay for.
pub grants-le :
    (rl : RateLimiter) (peer : String) (slack lo hi : ℕ) (es : List (String × ℕ))
    → RoundsWithin rl slack
    → lookup peer rl.buckets ≡ none
    → 1 ≤ rl.burst
    → Between lo hi es
    → grants rl peer es * rl.float64.one * second
      ≤ (full rl + requests peer es * slack) * second + (hi - lo) * rl.rate
unfolding grants first requests
grants-le rl peer slack lo hi [] round e h m = omega arith
grants-le rl peer slack lo hi ((p, t) ∷ es) round e h m =
    let c = first rl t in
    let next = record rl { buckets = insert peer c rl.buckets } in
    let found : lookup peer next.buckets ≡ some c =
      rw (lookup-insert peer peer c rl.buckets, eq_refl peer) in
    let mine = grants-known peer next slack t hi es c round found (omega arith) m.1 in
    let before = span lo t rl.rate m.0 in
    let after = span t hi rl.rate (Between-le t hi es m.1) in
    let whole = span lo hi rl.rate (omega (arith, Between-le t hi es m.1)) in
    elim (text_cases p peer) [
      | inl (same, y) ↦
          rw (same, eq_refl peer, allow-new rl peer t e)
            (bill rl.burst h (grants next peer es) (requests peer es) (t * rl.rate) (lo * rl.rate)
              (hi * rl.rate) ((hi - lo) * rl.rate) mine whole (omega (arith, before)))
      | inr (other, n) ↦
          let (bs, next_is, kept) = allow_other rl p peer t n in
          let theirs =
            grants-le (record rl { buckets = bs }) peer slack t hi es round (kept ∙ e) h m.1 in
          rw (n, next_is) (omega (arith, theirs, before, after, whole))
    ]
  where
    bill :
        (burst : ℕ)
        → 1 ≤ burst
        → (rest asked at_t at_lo at_hi flow : ℕ)
        → rest * rl.float64.one * second + at_t
          ≤ ((burst - 1) * rl.float64.one + asked * slack) * second + at_hi
        → flow + at_lo ≡ at_hi
        → at_lo ≤ at_t
        → (1 + rest) * rl.float64.one * second
          ≤ (burst * rl.float64.one + (1 + asked) * slack) * second + flow
    bill zero g rest asked at_t at_lo at_hi flow x y z = absurd (omega arith)
    bill (suc burst) g rest asked at_t at_lo at_hi flow x y z =
        let less : suc burst - 1 ≡ burst = omega arith in grind (arith, rw less at x)
