-- ===== src/Subscriber/Policy.antt =====
-- PolicyFromConfig of pkg/subscriber/subscriber.go, and RetransmitPolicy.timeoutFor with the
-- choice of the timeout in runSend (pkg/io/io.go, pkg/io/sender.go).
-- A time.Duration is the word of an int64 in nanoseconds, and an int the word of an int64.
use radstorm.Prelude.{
  ℕ, zero, suc, ◌*◌, ◌%◌, ◌^◌, ◌≤◌, ◌<◌, ◌≡◌, refl, sym, ◌∙◌, Bool, false, ◌||◌, leb, ◌==◌,
  if◌then◌else◌, Bool-cases, inl, inr, arith, ap,
}

-- A word that is zero or negative as an int64.
abbrev pub nonpositive : ℕ → Bool
nonpositive v = v == 0 || leb (2 ^ 63) v

pub data Backoff : Type 0 where
  linear : Backoff
  exponential : Backoff
  constant : Backoff

-- The strings that PolicyFromConfig tells apart.
pub data BackoffName : Type 0 where
  linear_name : BackoffName
  constant_name : BackoffName
  fixed_name : BackoffName
  other_name : BackoffName

pub record RetransmitPolicy : Type 0 where
  pub initial_timeout : ℕ
  pub max_retries : ℕ
  pub backoff : Backoff
  pub backoff_base : ℕ

abbrev pub millisecond : ℕ
millisecond = 1000000

abbrev pub or_default : ℕ → ℕ → ℕ
or_default v default = if nonpositive v then default else v

abbrev pub backoff_of : BackoffName → Backoff
backoff_of linear_name = linear
backoff_of constant_name = constant
backoff_of fixed_name = constant
backoff_of other_name = exponential

-- PolicyFromConfig
unfoldable pub policy_from_config : ℕ → ℕ → BackoffName → ℕ → RetransmitPolicy
policy_from_config initial_timeout_ms max_retries name backoff_base_ms = record {
  initial_timeout = or_default (initial_timeout_ms * millisecond % 2 ^ 64) 5000000000;
  max_retries = or_default max_retries 3;
  backoff = backoff_of name;
  backoff_base = or_default (backoff_base_ms * millisecond % 2 ^ 64) 1000000000;
}

-- The switch of timeoutFor, for attempt n + 1.
backoff_wait : Backoff → ℕ → ℕ → ℕ
backoff_wait linear base n = base * suc n % 2 ^ 64
backoff_wait exponential base n = base * (2 ^ n % 2 ^ 64) % 2 ^ 64
backoff_wait constant base n = base

-- RetransmitPolicy.timeoutFor
unfoldable pub timeout_for : RetransmitPolicy → ℕ → ℕ
unfolding backoff_wait
timeout_for p zero = p.initial_timeout
timeout_for p (suc n) = backoff_wait p.backoff p.backoff_base n

-- How long runSend waits for the reply to an attempt.
unfoldable pub attempt_timeout : RetransmitPolicy → ℕ → ℕ
unfolding timeout_for
attempt_timeout p attempt = or_default (timeout_for p attempt) p.initial_timeout

or_default_positive :
    (v default : ℕ) → nonpositive default ≡ false → nonpositive (or_default v default) ≡ false
or_default_positive v default h = elim (Bool-cases (nonpositive v)) [
  | inl e ↦ rw e h
  | inr e ↦ rw (e, e) refl
]

-- Whatever the numbers in the configuration, every attempt waits for a positive time and there is
-- at least one retry, also where the backoff overflows its 64 bits.
pub policy_from_config_positive :
    (initial_timeout_ms max_retries : ℕ) (name : BackoffName) (backoff_base_ms attempt : ℕ)
    → let p = policy_from_config initial_timeout_ms max_retries name backoff_base_ms in
      (nonpositive (attempt_timeout p attempt) ≡ false) × (nonpositive p.max_retries ≡ false)
unfolding policy_from_config attempt_timeout
policy_from_config_positive initial_timeout_ms max_retries name backoff_base_ms attempt =
    let p = policy_from_config initial_timeout_ms max_retries name backoff_base_ms in
    let initial = or_default_positive (initial_timeout_ms * millisecond % 2 ^ 64) 5000000000 refl in
    (
      or_default_positive (timeout_for p attempt) p.initial_timeout initial,
      or_default_positive max_retries 3 refl,
    )

le_mul : (b x : ℕ) → 0 < b → x ≤ b * x
le_mul zero x h = absurd (omega arith)
le_mul (suc b) x h = omega arith

power_positive : (n : ℕ) → 0 < 2 ^ n
power_positive zero = omega arith
power_positive (suc n) = omega (arith, power_positive n)

mul_positive : (b x : ℕ) → 0 < b → 0 < x → 0 < b * x
mul_positive b x hb hx = omega (arith, le_mul b x hb)

double_product : (b n : ℕ) → b * 2 ^ suc n ≡ 2 * (b * 2 ^ n)
double_product zero n = omega arith
double_product (suc b) n = omega (arith, double_product b n)

small_mod : (v : ℕ) → v < 2 ^ 63 → v % 2 ^ 64 ≡ v
small_mod v h = omega arith

small_positive : (v : ℕ) → 0 < v → v < 2 ^ 63 → nonpositive v ≡ false
small_positive v h k = ground arith

exponential_exact :
    (p : RetransmitPolicy) (n : ℕ)
    → p.backoff ≡ exponential
    → 0 < p.backoff_base
    → p.backoff_base * 2 ^ n < 2 ^ 63
    → attempt_timeout p (suc n) ≡ p.backoff_base * 2 ^ n
unfolding attempt_timeout timeout_for backoff_wait
exponential_exact p n e h k =
    let whole = small_mod (p.backoff_base * 2 ^ n) k in
    let shift = small_mod (2 ^ n) (omega (arith, le_mul p.backoff_base (2 ^ n) h)) in
    let positive = mul_positive p.backoff_base (2 ^ n) h (power_positive n) in
    rw (e, shift, whole, small_positive (p.backoff_base * 2 ^ n) positive k) refl

-- Under exponential backoff from a positive base the wait doubles from each retry to the next, as
-- long as the longer one fits an int64.
pub exponential_doubles :
    (p : RetransmitPolicy) (n : ℕ)
    → p.backoff ≡ exponential
    → 0 < p.backoff_base
    → p.backoff_base * 2 ^ suc n < 2 ^ 63
    → attempt_timeout p (suc (suc n)) ≡ 2 * attempt_timeout p (suc n)
exponential_doubles p n e h k =
    let double : p.backoff_base * 2 ^ suc n ≡ 2 * (p.backoff_base * 2 ^ n) =
      double_product p.backoff_base n in
    exponential_exact p (suc n) e h k
    ∙ double
    ∙ ap (λ v. 2 * v) (sym (exponential_exact p n e h (omega (arith, double))))
